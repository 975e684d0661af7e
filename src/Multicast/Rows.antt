-- ===== src/Multicast/Rows.antt =====
-- What the calls of the worker do to the rows of `task_hosts`.
use imaged.Base.{
  ℕ, ◌≤◌, ◌<◌, Bool, true, false, not, ◌&&◌, ◌≡◌, ◌≢◌, refl, sym, ◌∙◌, arith, some, List, [], ◌∷◌,
  if◌then◌else◌, elem, any, keep, length, any-update_where,
}
use imaged.Text.{Text}
use imaged.Task.{TaskState, pending, running, failed, is_state, is_active}
use imaged.Store.Transitions.{Rows, Rows-update_where}
use imaged.Store.{TaskHostRow, Db, of_task, is_row, start, mark_failed}

-- The rows of the task in a state that is to be left, whose hosts are not on the list.
abbrev pub left_out : TaskState → ℕ → List ℕ → TaskHostRow → Bool
left_out s t hs r = of_task t r && (is_state r.state s && not (elem r.host_id hs))

pub start-left_out :
    (now t h : ℕ) (hs : List ℕ) (db : Db)
    → any (left_out pending t (h ∷ hs)) db.task_hosts ≡ false
    → any (left_out pending t hs) (start now t h db).task_hosts ≡ false
unfolding start
start-left_out now t h hs db =
    any-update_where (left_out pending t (h ∷ hs)) (left_out pending t hs)
      (λ r. is_row t h r && is_active r.state)
      (λ r. record r { state = running; started_at = some now }) (λ r e. ground arith) db.task_hosts

abbrev failed_row : ℕ → Text → TaskHostRow → TaskHostRow
failed_row now error r = record r { state = failed; finished_at = some now; error = some error }

failed_row-left_out :
    (s : TaskState) (now t h : ℕ) (error : Text) (hs : List ℕ)
    → is_active s ≡ true
    → (r : TaskHostRow) → left_out s t (h ∷ hs) r ≡ false
    → left_out s t hs (if is_row t h r && is_active r.state then failed_row now error r else r)
      ≡ false
failed_row-left_out pending now t h error hs a r e = ground arith
failed_row-left_out running now t h error hs a r e = ground arith
failed_row-left_out _ now t h error hs a r e = cc

pub mark_failed-left_out :
    (s : TaskState) (now t h : ℕ) (error : Text) (hs : List ℕ) (db : Db)
    → is_active s ≡ true
    → any (left_out s t (h ∷ hs)) db.task_hosts ≡ false
    → any (left_out s t hs) (mark_failed now t h error db).task_hosts ≡ false
unfolding mark_failed
mark_failed-left_out s now t h error hs db a =
    any-update_where (left_out s t (h ∷ hs)) (left_out s t hs)
      (λ r. is_row t h r && is_active r.state) (failed_row now error)
      (failed_row-left_out s now t h error hs a) db.task_hosts

-- A call for a host of the task `t`: it keeps each row's task and host, makes no row pending, and
-- leaves the rows of other tasks as they are.
pub record Touches (t : ℕ) (r q : TaskHostRow) : Type 0 where
  pub same_task : q.task_id ≡ r.task_id
  pub same_host : q.host_id ≡ r.host_id
  pub calm : is_state q.state pending ≡ true → is_state r.state pending ≡ true
  pub elsewhere : r.task_id ≢ t → q ≡ r

pub Touches-refl : (t : ℕ) (r : TaskHostRow) → Touches t r r
Touches-refl t r = record {
  same_task = refl;
  same_host = refl;
  calm = λ h. h;
  elsewhere = λ h. refl;
}

Touches-trans : (t : ℕ) {r q p : TaskHostRow} → Touches t r q → Touches t q p → Touches t r p
Touches-trans t a b = record {
  same_task = b.same_task ∙ a.same_task;
  same_host = b.same_host ∙ a.same_host;
  calm = λ h. a.calm (b.calm h);
  elsewhere = λ h. b.elsewhere (λ e. h (sym a.same_task ∙ e)) ∙ a.elsewhere h;
}

pub Rows-trans :
    (t : ℕ) (xs ys zs : List TaskHostRow)
    → Rows (Touches t) xs ys
    → Rows (Touches t) ys zs
    → Rows (Touches t) xs zs
Rows-trans t [] [] zs h k = k
Rows-trans t [] (y ∷ ys) zs h k = absurd h
Rows-trans t (x ∷ xs) [] zs h k = absurd h
Rows-trans t (x ∷ xs) (y ∷ ys) [] h k = absurd k
Rows-trans t (x ∷ xs) (y ∷ ys) (z ∷ zs) h k =
    (Touches-trans t h.0 k.0, Rows-trans t xs ys zs h.1 k.1)

pub Rows-refl : (t : ℕ) (xs : List TaskHostRow) → Rows (Touches t) xs xs
Rows-refl t [] = tt
Rows-refl t (x ∷ xs) = (Touches-refl t x, Rows-refl t xs)

pub start-Touches :
    (now t h : ℕ) (db : Db) → Rows (Touches t) db.task_hosts (start now t h db).task_hosts
unfolding start
start-Touches now t h db =
    Rows-update_where (Touches t) (λ r. is_row t h r && is_active r.state)
      (λ r. record r { state = running; started_at = some now }) (Touches-refl t)
      (λ r e. record {
        same_task = refl;
        same_host = refl;
        calm = λ p. cc;
        elsewhere = λ n. absurd (n (ground arith));
      })
      db.task_hosts

pub mark_failed-Touches :
    (now t h : ℕ) (error : Text) (db : Db)
    → Rows (Touches t) db.task_hosts (mark_failed now t h error db).task_hosts
unfolding mark_failed
mark_failed-Touches now t h error db =
    Rows-update_where (Touches t) (λ r. is_row t h r && is_active r.state) (failed_row now error)
      (Touches-refl t)
      (λ r e. record {
        same_task = refl;
        same_host = refl;
        calm = λ p. cc;
        elsewhere = λ n. absurd (n (ground arith));
      })
      db.task_hosts

-- How many rows are pending, in the whole table.
abbrev pub count_pending : List TaskHostRow → ℕ
count_pending rows = length (keep (λ r. is_state r.state pending) rows)

pub count_pending-le :
    (t : ℕ) (xs ys : List TaskHostRow)
    → Rows (Touches t) xs ys
    → count_pending ys ≤ count_pending xs
count_pending-le t [] [] h = omega arith
count_pending-le t [] (y ∷ ys) h = absurd h
count_pending-le t (x ∷ xs) [] h = absurd h
count_pending-le t (x ∷ xs) (y ∷ ys) h = ground (arith, h.0.calm, count_pending-le t xs ys h.1)

-- If the task had a pending row and has none any more, fewer rows are pending.
pub count_pending-lt :
    (t : ℕ) (xs ys : List TaskHostRow)
    → Rows (Touches t) xs ys
    → any (λ r. of_task t r && is_state r.state pending) xs ≡ true
    → any (λ r. of_task t r && is_state r.state pending) ys ≡ false
    → count_pending ys < count_pending xs
count_pending-lt t [] ys h a b = cc
count_pending-lt t (x ∷ xs) [] h a b = absurd h
count_pending-lt t (x ∷ xs) (y ∷ ys) h a b =
    ground
      (arith, h.0.calm, h.0.same_task, count_pending-le t xs ys h.1, count_pending-lt t xs ys h.1)
