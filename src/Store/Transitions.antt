-- ===== src/Store/Transitions.antt =====
-- The state machine of a host's row (crates/core/src/repository/task.rs).
use imaged.Base.{
  ℕ, Bool, true, ◌&&◌, ◌≡◌, inl, inr, refl, none, some, arith, List, [], ◌∷◌, ap, ◌∙◌, update_where,
  Bool-cases,
}
use imaged.Text.{Text}
use imaged.Task.{
  TaskState, pending, running, done, failed, cancelled, TaskType, is_state, is_active,
}
use imaged.Store.{
  TaskHostRow, Db, is_row, of_task, has_type, is_retriable, start, mark_finished, mark_failed,
  fail_running, retry, cancel,
}

-- The calls that change the state of a host.
pub data Mutation : Type 0 where
  starts finishes : ℕ → ℕ → ℕ → Mutation
  fails : ℕ → ℕ → ℕ → Text → Mutation
  fails_running : ℕ → TaskType → Text → Mutation
  retries : ℕ → Mutation
  cancels : ℕ → ℕ → Mutation

unfoldable pub mutate : Mutation → Db → Db
unfolding start mark_finished mark_failed fail_running retry cancel
mutate (starts now task_id host_id) = start now task_id host_id
mutate (finishes now task_id host_id) = mark_finished now task_id host_id
mutate (fails now task_id host_id error) = mark_failed now task_id host_id error
mutate (fails_running now task_type error) = fail_running now task_type error
mutate (retries id) = retry id
mutate (cancels now id) = cancel now id

unfoldable pub mutate_all : List Mutation → Db → Db
mutate_all [] db = db
mutate_all (m ∷ ms) db = mutate_all ms (mutate m db)

-- The transitions of the state machine.
infix 40 ◌⟶◌
pub data ◌⟶◌ : TaskState → TaskState → Type 0 where
  stay : {s : TaskState} → s ⟶ s
  begin : {s : TaskState} → is_active s ≡ true → s ⟶ running
  finish : {s : TaskState} → is_active s ≡ true → s ⟶ done
  fail : {s : TaskState} → is_active s ≡ true → s ⟶ failed
  abort : {s : TaskState} → is_active s ≡ true → s ⟶ cancelled
  reset : {s : TaskState} → is_retriable s ≡ true → s ⟶ pending

-- Each call is one `UPDATE`: the rows that it selects, and what it makes of them.
abbrev pub selects : Mutation → Db → TaskHostRow → Bool
selects (starts now task_id host_id) db r = is_row task_id host_id r && is_active r.state
selects (finishes now task_id host_id) db r = is_row task_id host_id r && is_active r.state
selects (fails now task_id host_id error) db r = is_row task_id host_id r && is_active r.state
selects (fails_running now ty error) db r = is_state r.state running && has_type ty db r.task_id
selects (retries id) db r = of_task id r && is_retriable r.state
selects (cancels now id) db r = of_task id r && is_active r.state

abbrev pub changes : Mutation → TaskHostRow → TaskHostRow
changes (starts now task_id host_id) r = record r { state = running; started_at = some now }
changes (finishes now task_id host_id) r = record r { state = done; finished_at = some now }
changes (fails now task_id host_id error) r = record r {
  state = failed;
  finished_at = some now;
  error = some error;
}
changes (fails_running now ty error) r = record r {
  state = failed;
  finished_at = some now;
  error = some error;
}
changes (retries id) r = record r {
  state = pending;
  error = none;
  started_at = none;
  finished_at = none;
}
changes (cancels now id) r = record r { state = cancelled; finished_at = some now }

pub task_hosts-mutate :
    (m : Mutation) (db : Db)
    → (mutate m db).task_hosts ≡ update_where (selects m db) (changes m) db.task_hosts
unfolding mutate
task_hosts-mutate (starts now t h) db = refl
task_hosts-mutate _ db = refl

-- The row `q` that becomes of the row `r`: the same host's, in a state that the machine allows,
-- and the row itself if it was done.
pub record Follows (r q : TaskHostRow) : Type 0 where
  pub same_task : q.task_id ≡ r.task_id
  pub same_host : q.host_id ≡ r.host_id
  pub same_partition : q.partuuid ≡ r.partuuid
  pub state : r.state ⟶ q.state
  pub kept_if_done : r.state ≡ done → q ≡ r

Follows-refl : (r : TaskHostRow) → Follows r r
Follows-refl r = record {
  same_task = refl;
  same_host = refl;
  same_partition = refl;
  state = stay;
  kept_if_done = λ _. refl;
}

changes-state :
    (m : Mutation) (db : Db) (r : TaskHostRow)
    → selects m db r ≡ true
    → r.state ⟶ (changes m r).state
changes-state (starts now t h) db r e = begin (ground arith)
changes-state (finishes now t h) db r e = finish (ground arith)
changes-state (fails now t h error) db r e = fail (ground arith)
changes-state (fails_running now ty error) db r e = fail (ground arith)
changes-state (retries id) db r e = reset (ground arith)
changes-state (cancels now id) db r e = abort (ground arith)

done_not_selected :
    (m : Mutation) (db : Db) (r : TaskHostRow) → selects m db r ≡ true → r.state ≡ done → ⊥
done_not_selected (starts now t h) db r e d = ground arith
done_not_selected _ db r e d = ground arith

changes-Follows :
    (m : Mutation) (db : Db) (r : TaskHostRow) → selects m db r ≡ true → Follows r (changes m r)
changes-Follows m db r e = record {
  same_task = task m;
  same_host = host m;
  same_partition = uuid m;
  state = changes-state m db r e;
  kept_if_done = λ d. absurd (done_not_selected m db r e d);
}
  where
    task : (m : Mutation) → (changes m r).task_id ≡ r.task_id
    task (starts now t h) = refl
    task _ = refl

    host : (m : Mutation) → (changes m r).host_id ≡ r.host_id
    host (starts now t h) = refl
    host _ = refl

    uuid : (m : Mutation) → (changes m r).partuuid ≡ r.partuuid
    uuid (starts now t h) = refl
    uuid _ = refl

-- A relation row by row, between tables of the same length.
abbrev pub Rows :
    (TaskHostRow → TaskHostRow → Type 0) → List TaskHostRow → List TaskHostRow → Type 0
Rows R [] [] = Unit
Rows R (x ∷ xs) (y ∷ ys) = R x y × Rows R xs ys
Rows R _ _ = ⊥

pub Rows-update_where :
    (R : TaskHostRow → TaskHostRow → Type 0) (p : TaskHostRow → Bool)
    (f : TaskHostRow → TaskHostRow)
    → ((r : TaskHostRow) → R r r)
    → ((r : TaskHostRow) → p r ≡ true → R r (f r))
    → (rows : List TaskHostRow) → Rows R rows (update_where p f rows)
Rows-update_where R p f same change [] = tt
Rows-update_where R p f same change (r ∷ rows) =
    let rest = Rows-update_where R p f same change rows in
    elim (Bool-cases (p r)) [ inl e ↦ rw e (change r e, rest) | inr e ↦ rw e (same r, rest) ]

-- Every call, in every database, moves each row along the state machine: it keeps the row's task,
-- host and partition, and leaves the rows of done hosts as they are.
pub mutate-Follows : (m : Mutation) (db : Db) → Rows Follows db.task_hosts (mutate m db).task_hosts
mutate-Follows m db = rw (task_hosts-mutate m db) (
    Rows-update_where Follows (selects m db) (changes m) Follows-refl (changes-Follows m db)
      db.task_hosts)

-- The row of a done host is kept as it is.
abbrev pub KeptIfDone : TaskHostRow → TaskHostRow → Type 0
KeptIfDone r q = r.state ≡ done → q ≡ r

Rows-trans :
    (xs ys zs : List TaskHostRow)
    → Rows Follows xs ys
    → Rows KeptIfDone ys zs
    → Rows KeptIfDone xs zs
Rows-trans [] [] zs h k = k
Rows-trans [] (y ∷ ys) zs h k = absurd h
Rows-trans (x ∷ xs) [] zs h k = absurd h
Rows-trans (x ∷ xs) (y ∷ ys) [] h k = absurd k
Rows-trans (x ∷ xs) (y ∷ ys) (z ∷ zs) h k = (
  λ d. k.0 (ap (λ r. r.state) (h.0.kept_if_done d) ∙ d) ∙ h.0.kept_if_done d,
  Rows-trans xs ys zs h.1 k.1,
)

Rows-KeptIfDone : (rows : List TaskHostRow) → Rows KeptIfDone rows rows
Rows-KeptIfDone [] = tt
Rows-KeptIfDone (r ∷ rows) = (λ _. refl, Rows-KeptIfDone rows)

-- A host that is done stays so, with its times, through any sequence of calls.
pub mutate_all-KeptIfDone :
    (ms : List Mutation) (db : Db) → Rows KeptIfDone db.task_hosts (mutate_all ms db).task_hosts
unfolding mutate_all
mutate_all-KeptIfDone [] db = Rows-KeptIfDone db.task_hosts
mutate_all-KeptIfDone (m ∷ ms) db =
    Rows-trans _ (mutate m db).task_hosts _ (mutate-Follows m db)
      (mutate_all-KeptIfDone ms (mutate m db))
