-- ===== src/Agent/Current.antt =====
-- What an agent is told to do (crates/api/agent/src/event.rs, `current_task`).
use mathlib.Core.List.{Memᴰ}
use mathlib.Core.Path.{subst}
use imaged.Base.{
  ℕ, zero, suc, ◌<◌, ◌≤◌, Bool, true, ◌&&◌, Option, none, some, List, [], ◌∷◌, ◌==◌, length, keep,
  update_where, ◌≡◌, refl, ap, ◌⊎◌, inl, inr, arith, Bool-cases, Option-cases,
}
use imaged.Text.{Text}
use imaged.Error.{Result, ok, err, display}
use imaged.Task.{Task, Work, work, is_dispatchable_to, is_active, failed}
use imaged.Store.{TaskHostRow, Db, is_row, mark_failed}
use imaged.Store.Views.{to_task}
use imaged.Store.Queries.{get_next}
use imaged.Store.Queries.Next.{get_next-Offers}
use imaged.Agent

abbrev is_open : ℕ → TaskHostRow → Bool
is_open host_id r = r.host_id == host_id && is_active r.state

-- How many rows of the host are not settled.
unfoldable pub open_rows : ℕ → List TaskHostRow → ℕ
open_rows host_id rows = length (keep (is_open host_id) rows)

abbrev fail_row : ℕ → Text → TaskHostRow → TaskHostRow
fail_row now error r = record r { state = failed; finished_at = some now; error = some error }

abbrev fails : ℕ → ℕ → TaskHostRow → Bool
fails task_id host_id r = is_row task_id host_id r && is_active r.state

open_rows-le :
    (now task_id host_id : ℕ) (error : Text) (rows : List TaskHostRow)
    → open_rows host_id (update_where (fails task_id host_id) (fail_row now error) rows)
      ≤ open_rows host_id rows
unfolding open_rows
open_rows-le now task_id host_id error [] = omega arith
open_rows-le now task_id host_id error (r ∷ rows) =
    let rest = open_rows-le now task_id host_id error rows in ground arith

-- A failure settles a row that is open.
open_rows-lt :
    (now task_id host_id : ℕ) (error : Text) (rows : List TaskHostRow) (r : TaskHostRow)
    → Memᴰ r rows
    → fails task_id host_id r ≡ true
    → open_rows host_id (update_where (fails task_id host_id) (fail_row now error) rows)
      < open_rows host_id rows
unfolding open_rows
open_rows-lt now task_id host_id error [] r m h = elim m [ ]
open_rows-lt now task_id host_id error (s ∷ rows) r (Memᴰ.head q) h =
    let here : fails task_id host_id s ≡ true = subst (λ x. fails task_id host_id x ≡ true) q h in
    let rest = open_rows-le now task_id host_id error rows in ground arith
open_rows-lt now task_id host_id error (s ∷ rows) r (Memᴰ.tail m) h =
    let rest = open_rows-lt now task_id host_id error rows r m h in ground arith

dispatchable-some :
    (host_id : ℕ) (o : Option Task) (t : Task) → Agent.dispatchable host_id o ≡ some t → o ≡ some t
dispatchable-some host_id none t e = cc
dispatchable-some host_id (some u) t e = elim (Bool-cases (is_dispatchable_to host_id u)) [
  | inl h ↦ rw h at e
  | inr h ↦ absurd (never (rw h at e))
]
  where
    never : ◌≡◌ {A = Option Task} none (some t) → ⊥
    never q = cc

mark_failed-open_rows :
    (now host_id : ℕ) (error : Text) (db : Db) (t : Task)
    → get_next host_id db ≡ some t
    → open_rows host_id (mark_failed now t.id host_id error db).task_hosts
      < open_rows host_id db.task_hosts
unfolding mark_failed imaged.Store.update_hosts to_task
mark_failed-open_rows now host_id error db t found =
    let (r, row, o, same) = get_next-Offers host_id db t found in
    let id : t.id ≡ row.id = ap (λ (x : Task). x.id) same in
    let task = o.same_id in
    let host = o.host in
    let open_ = o.active in open_rows-lt now t.id host_id error db.task_hosts r o.row (ground arith)

-- What the agent is told is up to date: nothing, when nothing is to be dispatched to it, and
-- otherwise the next task that is, with its work on this host.
unfoldable pub IsCurrent : ℕ → Option Agent.AgentTask → Db → Type 0
IsCurrent host_id none db = Agent.dispatchable host_id (get_next host_id db) ≡ none
IsCurrent host_id (some told) db =
    (t : Task) × (Agent.dispatchable host_id (get_next host_id db) ≡ some t)
    × (told.id ≡ t.id)
    × (work t host_id ≡ ok told.work)

Result-cases :
    (r : Result Work) → ((w : Work) × (r ≡ ok w)) ⊎ ((e : imaged.Error.AppError) × (r ≡ err e))
Result-cases (ok w) = inl (w, refl)
Result-cases (err e) = inr (e, refl)

-- With more rounds than the host has unsettled rows, `current_task` ends with an answer that is
-- up to date in the database that it leaves.
pub current_task-IsCurrent :
    (clock : ℕ → ℕ) (fuel host_id : ℕ) (db : Db)
    → open_rows host_id db.task_hosts < fuel
    → IsCurrent host_id
        (Agent.current_task clock host_id fuel db).0
        (Agent.current_task clock host_id fuel db).1
unfolding Agent.current_task IsCurrent
current_task-IsCurrent clock zero host_id db enough = absurd (omega (arith, enough))
current_task-IsCurrent clock (suc fuel) host_id db enough =
    elim (Option-cases (Agent.dispatchable host_id (get_next host_id db))) [
      | inl e ↦ rw e e
      | inr (t, e) ↦ elim (Result-cases (work t host_id)) [
        | inl (w, f) ↦ rw (e, f) (t, e, refl, f)
        | inr (error, f) ↦
            let fewer =
              mark_failed-open_rows (clock fuel) host_id (display error) db t
                (dispatchable-some host_id (get_next host_id db) t e) in
            rw (e, f)
              (current_task-IsCurrent clock fuel host_id
                (mark_failed (clock fuel) t.id host_id (display error) db)
                (omega (arith, fewer, enough)))
      ]
    ]
