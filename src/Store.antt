-- ===== src/Store.antt =====
-- The database behind the tasks, and the methods that change the state of their hosts
-- (crates/core/src/repository/task.rs, crates/core/migrations).
-- A table is the list of its rows, a statement is atomic, and a transaction that fails leaves the
-- database as it was. `now` is the time that a method reads. The order of a table's list stands
-- for the order in which SQLite visits its rows.
pub mod Catalog
pub mod Creation
pub mod Groups
pub mod Hosts
pub mod Images
pub mod Queries
pub mod Scripts
pub mod Paging
pub mod Transitions
pub mod WellFormed
pub mod Views
pub mod Tests
pub use imaged.Tables.{
  TaskRow, TaskHostRow, InputRow, ScriptRunRow, ChunkRow, HostRow, HostPartitionRow, GroupRow,
  GroupHostRow, ImageRow, ImagePartitionRow, ImageScriptRow, ScriptRow, ScriptInputRow, Db,
}
use imaged.Base.{
  ℕ, Bool, true, false, not, ◌&&◌, ◌||◌, Option, none, some, List, [], ◌∷◌, map, ◌==◌,
  if◌then◌else◌, any, keep, update_where, is_some,
}
use imaged.Base.Int.{ℤ}
use imaged.Text.{Text}
use imaged.Task.{
  TaskState, pending, running, done, failed, cancelled, TaskType, rank_of_type, is_state, is_active,
}

abbrev pub is_row : ℕ → ℕ → TaskHostRow → Bool
is_row task_id host_id r = r.task_id == task_id && r.host_id == host_id

abbrev pub of_task : ℕ → TaskHostRow → Bool
of_task task_id r = r.task_id == task_id

-- The trigger `close_script_runs_when_host_leaves_running`, for one updated row.
unfoldable pub close_script_runs : TaskHostRow → List ScriptRunRow → List ScriptRunRow
close_script_runs new runs =
    if is_active new.state
    then runs
    else update_where
        (λ s. s.task_id == new.task_id && (s.host_id == new.host_id && not (is_some s.finished_at)))
        (λ s. record s { finished_at = new.finished_at }) runs

unfoldable pub close_all : List TaskHostRow → List ScriptRunRow → List ScriptRunRow
close_all [] runs = runs
close_all (new ∷ news) runs = close_all news (close_script_runs new runs)

-- `UPDATE task_hosts SET … WHERE …`, with the trigger on each row that it updates.
unfoldable pub update_hosts : (TaskHostRow → Bool) → (TaskHostRow → TaskHostRow) → Db → Db
update_hosts p f db = record db {
  task_hosts = update_where p f (db.task_hosts);
  script_runs = close_all (map f (keep p db.task_hosts)) db.script_runs;
}

unfoldable pub start : ℕ → ℕ → ℕ → Db → Db
unfolding update_hosts
start now task_id host_id =
    update_hosts (λ r. is_row task_id host_id r && is_active r.state)
      (λ r. record r { state = running; started_at = some now })

unfoldable pub mark_finished : ℕ → ℕ → ℕ → Db → Db
unfolding update_hosts
mark_finished now task_id host_id =
    update_hosts (λ r. is_row task_id host_id r && is_active r.state)
      (λ r. record r { state = done; finished_at = some now })

unfoldable pub mark_failed : ℕ → ℕ → ℕ → Text → Db → Db
unfolding update_hosts
mark_failed now task_id host_id error =
    update_hosts (λ r. is_row task_id host_id r && is_active r.state)
      (λ r. record r { state = failed; finished_at = some now; error = some error })

-- `task_id IN (SELECT id FROM tasks WHERE type = ?)`.
abbrev pub has_type : TaskType → Db → ℕ → Bool
has_type ty db task_id =
    any (λ t. t.id == task_id && rank_of_type t.task_type == rank_of_type ty) db.tasks

unfoldable pub fail_running : ℕ → TaskType → Text → Db → Db
unfolding update_hosts
fail_running now task_type error db =
    update_hosts (λ r. is_state r.state running && has_type task_type db r.task_id)
      (λ r. record r { state = failed; finished_at = some now; error = some error }) db

abbrev pub is_retriable : TaskState → Bool
is_retriable s = is_state s failed || is_state s cancelled

abbrev is_reset : ℕ → Db → ℕ → ℕ → Bool
is_reset id db task_id host_id =
    task_id == id
    && any (λ r. r.host_id == host_id && (of_task id r && is_retriable r.state)) db.task_hosts

-- The runs of the hosts that are set back are deleted first, and their output with them
-- (`ON DELETE CASCADE`).
unfoldable pub retry : ℕ → Db → Db
unfolding update_hosts
retry id db =
    update_hosts (λ r. of_task id r && is_retriable r.state)
      (λ r. record r { state = pending; error = none; started_at = none; finished_at = none })
      (record db {
        script_runs = keep (λ s. not (is_reset id db s.task_id s.host_id)) db.script_runs;
        script_run_output =
            keep (λ c. not (is_reset id db c.task_id c.host_id)) db.script_run_output;
      })

unfoldable pub cancel : ℕ → ℕ → Db → Db
unfolding update_hosts
cancel now id =
    update_hosts (λ r. of_task id r && is_active r.state)
      (λ r. record r { state = cancelled; finished_at = some now })
