-- ===== src/Multicast/Claim.antt =====
-- After the claim no host of the task waits any more.
use imaged.Base.{
  ℕ, false, ◌&&◌, ◌≡◌, refl, arith, Option, none, some, List, [], ◌∷◌, ◌==◌, any, All, Bool-cases,
  inl, inr,
}
use imaged.Task.{pending, Task, is_state, hosts_in}
use imaged.Store.{TaskRow, TaskHostRow, Db, of_task}
use imaged.Store.Transitions.{Rows}
use imaged.Store.Views.{to_task, RefersTo}
use imaged.Store.Queries.{get_next}
use imaged.Multicast.{claim_host, claim_with, claim_hosts, claim}
use imaged.Multicast.Rows.{
  left_out, start-left_out, mark_failed-left_out, Touches, Rows-trans, Rows-refl, start-Touches,
  mark_failed-Touches,
}
use imaged.Multicast.Listed.{hosts_in-left_out}

claim_with-left_out :
    (next : Option Task) (now : ℕ) (task : Task) (h : ℕ) (hs : List ℕ) (db : Db)
    → any (left_out pending task.id (h ∷ hs)) db.task_hosts ≡ false
    → any (left_out pending task.id hs) (claim_with next now task h db).task_hosts ≡ false
unfolding claim_with
claim_with-left_out none now task h hs db e = start-left_out now task.id h hs db e
claim_with-left_out (some next) now task h hs db e = elim (Bool-cases (next.id == task.id)) [
  | inl same ↦ rw same (start-left_out now task.id h hs db e)
  | inr busy ↦ rw busy (mark_failed-left_out pending now task.id h _ hs db refl e)
]

claim_with-Touches :
    (next : Option Task) (now : ℕ) (task : Task) (h : ℕ) (db : Db)
    → Rows (Touches task.id) db.task_hosts (claim_with next now task h db).task_hosts
unfolding claim_with
claim_with-Touches none now task h db = start-Touches now task.id h db
claim_with-Touches (some next) now task h db = elim (Bool-cases (next.id == task.id)) [
  | inl same ↦ rw same (start-Touches now task.id h db)
  | inr busy ↦ rw busy (mark_failed-Touches now task.id h _ db)
]

claim_hosts-left_out :
    (now : ℕ → ℕ) (task : Task) (hs : List ℕ) (db : Db)
    → any (left_out pending task.id hs) db.task_hosts ≡ false
    → any (left_out pending task.id []) (claim_hosts now task hs db).task_hosts ≡ false
unfolding claim_hosts claim_host
claim_hosts-left_out now task [] db e = e
claim_hosts-left_out now task (h ∷ hs) db e =
    claim_hosts-left_out now task hs _ (claim_with-left_out (get_next h db) (now h) task h hs db e)

claim_hosts-Touches :
    (now : ℕ → ℕ) (task : Task) (hs : List ℕ) (db : Db)
    → Rows (Touches task.id) db.task_hosts (claim_hosts now task hs db).task_hosts
unfolding claim_hosts claim_host
claim_hosts-Touches now task [] db = Rows-refl task.id db.task_hosts
claim_hosts-Touches now task (h ∷ hs) db =
    Rows-trans task.id db.task_hosts (claim_host (now h) task h db).task_hosts _
      (claim_with-Touches (get_next h db) (now h) task h db)
      (claim_hosts-Touches now task hs (claim_host (now h) task h db))

any-left_out_nil :
    (t : ℕ) (rows : List TaskHostRow)
    → any (left_out pending t []) rows ≡ false
    → any (λ r. of_task t r && is_state r.state pending) rows ≡ false
any-left_out_nil t [] e = refl
any-left_out_nil t (r ∷ rows) e = ground (arith, any-left_out_nil t rows)

-- The claim changes rows of its task only, and makes no row pending.
pub claim-Touches :
    (now : ℕ → ℕ) (task : Task) (db : Db)
    → Rows (Touches task.id) db.task_hosts (claim now task db).task_hosts
unfolding claim
claim-Touches now task db = claim_hosts-Touches now task (hosts_in pending task) db

-- Where every row refers to a host, the claim of a task that was just read leaves none of its rows
-- pending.
pub claim-pending :
    (now : ℕ → ℕ) (t : TaskRow) (db : Db)
    → All (RefersTo db.hosts) db.task_hosts
    → any (λ r. of_task t.id r && is_state r.state pending) (claim now (to_task db t) db).task_hosts
      ≡ false
unfolding claim to_task
claim-pending now t db v = any-left_out_nil t.id _ (
    claim_hosts-left_out now (to_task db t) (hosts_in pending (to_task db t)) db
      (hosts_in-left_out pending db t v))
