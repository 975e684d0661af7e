-- ===== src/Agent.antt =====
-- The server's side of an agent: what it is told to do, and its requests
-- (crates/api/agent/src/event.rs, crates/api/agent/src/lib.rs).
pub mod Current
pub mod Reports
pub mod Scripts
pub mod Started
pub mod Transfers
mod Tests
use imaged.Base.{ℕ, zero, suc, Bool, Option, none, some, ◌++◌, ◌==◌, if◌then◌else◌}
use imaged.Text.{Text, text, decimal}
use imaged.Error.{Result, ok, err, AppError, invalid_argument, display, ◌>>=◌, ok_or}
use imaged.Task.{Task, Work, work, is_dispatchable_to}
use imaged.Store.{Db, mark_failed}
use imaged.Store.Queries.{get_next}
use imaged.Store.Hosts.{DiskReport, size_of_disk, no_disk, Host, get_by_mac}
use imaged.Registry.{HostRegistry, deregister}

-- `imaged_model::Task`: a task as an agent sees it.
pub record AgentTask : Type 0 where
  pub id : ℕ
  pub work : Work

-- `filter(|task| task.is_dispatchable_to(host_id))`.
abbrev pub dispatchable : ℕ → Option Task → Option Task
dispatchable host_id none = none
dispatchable host_id (some t) = if is_dispatchable_to host_id t then some t else none

-- The body of the loop: the work of a task, or what remains once the task has failed on the host.
abbrev pub try_work :
    ℕ → ℕ → (Db → Option AgentTask × Db) → Task → Result Work → Db → Option AgentTask × Db
try_work now host_id continue t (ok w) db = (some (record { id = t.id; work = w }), db)
try_work now host_id continue t (err e) db = continue (mark_failed now t.id host_id (display e) db)

abbrev pub try_next :
    ℕ → ℕ → (Db → Option AgentTask × Db) → Option Task → Db → Option AgentTask × Db
try_next now host_id continue none db = (none, db)
try_next now host_id continue (some t) db = try_work now host_id continue t (work t host_id) db

-- `clock` has the time of each round, by the fuel that is left.
unfoldable pub current_task : (ℕ → ℕ) → ℕ → ℕ → Db → Option AgentTask × Db
current_task clock host_id zero db = (none, db)
current_task clock host_id (suc fuel) db =
    try_next (clock fuel) host_id (current_task clock host_id fuel)
      (dispatchable host_id (get_next host_id db)) db

abbrev pub with_id : ℕ → Option Task → Option Task
with_id task_id none = none
with_id task_id (some t) = if t.id == task_id then some t else none

abbrev pub not_next : ℕ → Text → AppError
not_next task_id mac =
    invalid_argument
      (text "Task " ++ (decimal task_id ++ (text " is not the next task for host " ++ mac)))

-- The query of the stream: exactly one of the size of the disk and the error.
unfoldable pub disk_report : Option ℕ → Option Text → Result DiskReport
disk_report (some size) none = ok (size_of_disk size)
disk_report none (some reason) = ok (no_disk reason)
disk_report _ _ =
    err (invalid_argument (text "report exactly one of disk_size_bytes and disk_error"))

module _ (quoted : Text → Text) where
  abbrev pub no_active_task : Text → AppError
  no_active_task mac = invalid_argument (text "No active task found for host " ++ mac)

  unfoldable pub get_next_task : Text → Db → Result Task
  get_next_task mac db =
      get_by_mac quoted mac db >>= λ (host : Host). ok_or (get_next host.id db) (no_active_task mac)

abbrev pub deregistered :
    {S : Type 0} → HostRegistry S → Result Host → Result (Unit {0}) × HostRegistry S
deregistered registry (err e) = (err e, registry)
deregistered registry (ok host) = (ok tt, deregister host.id registry)

unfoldable pub disconnect :
    {S : Type 0} → (Text → Text) → Text → Db → HostRegistry S → Result (Unit {0}) × HostRegistry S
disconnect quoted mac db registry = deregistered registry (get_by_mac quoted mac db)
