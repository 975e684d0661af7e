-- ===== src/Multicast.antt =====
-- The worker that runs multicast tasks one at a time (crates/core/src/multicast.rs).
-- The session itself (crates/core/src/multicast/session.rs) drives a third-party sender while the
-- hosts' agents and the dashboard go on changing the database, so it is a parameter: it leaves some
-- database and has an outcome, a caught panic among the errors. The database itself does not fail
-- here, so a `retrying` succeeds at its first attempt, unless a task that is read is not there. `now`
-- gives the time of the call for each host.
mod Rows
mod Listed
pub mod Claim
mod Turns
pub mod Claimed
pub mod Settle
pub mod Drain
mod Tests
use imaged.Base.{
  ℕ, zero, suc, Bool, true, false, not, ◌&&◌, Option, none, some, List, [], ◌∷◌, ◌++◌, ◌==◌,
  if◌then◌else◌, elem, is_some,
}
use imaged.Text.{Text, text, decimal}
use imaged.Error.{AppError, Result, ok, err, ◌>>=◌, display}
use imaged.Task.{TaskState, pending, running, multicast, multicast_partition, Task, hosts_in}
use imaged.Store.{Db, start, mark_failed, fail_running}
use imaged.Store.Queries.{get, get_next, get_next_multicast}
use imaged.Registry.{HostRegistry, connected_hosts, dispatch}

unfoldable pub orphaned : Text
orphaned = text "Server stopped while task was running"

unfoldable pub disconnected : Text
disconnected = text "Host disconnected before reporting the multicast result"

unfoldable pub fail_orphans : ℕ → Db → Db
fail_orphans now db =
    fail_running now multicast_partition orphaned (fail_running now multicast orphaned db)

busy_with : Task → Text
busy_with next = text "Host was busy with task " ++ decimal next.id

pub claim_with : Option Task → ℕ → Task → ℕ → Db → Db
unfolding busy_with
claim_with none now task host db = start now task.id host db
claim_with (some next) now task host db =
    if not (next.id == task.id)
    then mark_failed now task.id host (busy_with next) db
    else start now task.id host db

unfoldable pub claim_host : ℕ → Task → ℕ → Db → Db
unfolding claim_with
claim_host now task host db = claim_with (get_next host db) now task host db

pub claim_hosts : (ℕ → ℕ) → Task → List ℕ → Db → Db
claim_hosts now task [] db = db
claim_hosts now task (host ∷ hosts) db =
    claim_hosts now task hosts (claim_host (now host) task host db)

unfoldable pub claim : (ℕ → ℕ) → Task → Db → Db
unfolding claim_hosts
claim now task db = claim_hosts now task (hosts_in pending task) db

-- `running`: `not_found` when the task is not there any more.
unfoldable pub running_hosts : ℕ → Db → Result (List ℕ)
running_hosts task_id db = get task_id db >>= λ task. ok (hosts_in running task)

settle_host : ℕ → ℕ → Option AppError → List ℕ → ℕ → Db → Db
settle_host now task_id (some e) connected host db = mark_failed now task_id host (display e) db
settle_host now task_id none connected host db =
    if not (elem host connected) then mark_failed now task_id host disconnected db else db

pub settle_hosts : (ℕ → ℕ) → ℕ → Option AppError → List ℕ → List ℕ → Db → Db
settle_hosts now task_id failure connected [] db = db
settle_hosts now task_id failure connected (host ∷ hosts) db =
    settle_hosts now task_id failure connected hosts
      (settle_host (now host) task_id failure connected host db)

-- The hosts whose `dispatch` is called.
unfoldable pub settled_dispatches : ℕ → Option AppError → Db → Result (List ℕ)
unfolding running_hosts
settled_dispatches task_id failure db =
    running_hosts task_id db >>= λ hosts. ok (if is_some failure then hosts else [])

abbrev to_option : Result Db → Option Db
to_option (ok db) = some db
to_option (err e) = none

module _ {S : Type 0} (registry : HostRegistry S) where
  -- One attempt.
  unfoldable pub settle : (ℕ → ℕ) → ℕ → Option AppError → Db → Result Db
  unfolding settle_hosts settle_host running_hosts
  settle now task_id failure db = running_hosts task_id db >>= λ hosts.
      ok (settle_hosts now task_id failure (connected_hosts registry) hosts db)

  failure_of : Result (Unit {0}) → Option AppError
  failure_of (ok done) = none
  failure_of (err e) = some e

  -- `none` when the settling fails: `retrying` then makes the same attempt again and again, on a
  -- database in which the task's row is missing, and `run_session` never returns.
  unfoldable pub run_session :
      (Task → Db → Db × Result (Unit {0})) → (ℕ → ℕ) → Task → Db → Option Db
  unfolding failure_of
  run_session session now task db =
      let (left, outcome) = session task (claim now task db) in
      to_option (settle now task.id (failure_of outcome) left)

  -- The inner loop of `run`: `none` when it has not ended after as many tasks as there is fuel, or
  -- when a session does not return.
  unfoldable pub drain : (Task → Db → Db × Result (Unit {0})) → (ℕ → ℕ) → ℕ → Db → Option Db
  unfolding run_session
  drain session now zero db = none
  drain session now (suc fuel) db = elim (get_next_multicast db) [
    | none ↦ some db
    | some task ↦ elim (run_session session now task db) [
      | none ↦ none
      | some left ↦ drain session now fuel left
    ]
  ]
