-- ===== src/Store/Queries.antt =====
-- The queries for one task (crates/core/src/repository/task.rs).
pub mod Next
use imaged.Base.{
  ℕ, Bool, true, false, not, ◌&&◌, ◌||◌, Option, none, some, List, [], ◌∷◌, ◌++◌, ◌==◌, ltb,
  if◌then◌else◌, map, any, keep, find,
}
use imaged.Base.Least.{least}
use imaged.Error.{Result, ok, err, from_sqlx, row_not_found}
use imaged.Task.{
  TaskState, pending, running, done, failed, cancelled, partial, is_state, is_active, multicasts,
  Task,
}
use imaged.Store.{TaskRow, TaskHostRow, Db, of_task}
use imaged.Store.Views.{to_task}

unfoldable pub fetch_one : Db → Option TaskRow → Result Task
fetch_one db none = err (from_sqlx row_not_found)
fetch_one db (some t) = ok (to_task db t)

unfoldable pub fetch_optional : Db → Option TaskRow → Option Task
fetch_optional db none = none
fetch_optional db (some t) = some (to_task db t)

unfoldable pub get : ℕ → Db → Result Task
unfolding fetch_one
get id db = fetch_one db (find (λ t. t.id == id) db.tasks)

-- A row of `tasks_with_hosts JOIN task_hosts`.
pub record Candidate : Type 0 where
  pub state : TaskState
  pub task : TaskRow

-- `CASE th.state WHEN 'running' THEN 1 WHEN 'pending' THEN 2 END`.
abbrev pub urgency : TaskState → ℕ
urgency running = 1
urgency pending = 2
urgency _ = 3

abbrev pub precedes : Candidate → Candidate → Bool
precedes c d =
    ltb (urgency c.state) (urgency d.state)
    || (urgency c.state == urgency d.state && ltb c.task.created_at d.task.created_at)

unfoldable pub of_row : TaskHostRow → List TaskRow → List Candidate
of_row r tasks =
    map (λ t. record { state = r.state; task = t }) (keep (λ t. t.id == r.task_id) tasks)

unfoldable pub candidates_in : ℕ → List TaskRow → List TaskHostRow → List Candidate
unfolding of_row
candidates_in host_id tasks [] = []
candidates_in host_id tasks (r ∷ rows) =
    let rest = candidates_in host_id tasks rows in
    if r.host_id == host_id && is_active r.state then of_row r tasks ++ rest else rest

unfoldable pub candidates : ℕ → Db → List Candidate
unfolding candidates_in
candidates host_id db = candidates_in host_id db.tasks db.task_hosts

unfoldable pub row_of : Option Candidate → Option TaskRow
row_of none = none
row_of (some c) = some c.task

unfoldable pub get_next : ℕ → Db → Option Task
unfolding candidates row_of fetch_optional
get_next host_id db = fetch_optional db (row_of (least precedes (candidates host_id db)))

abbrev pub has_row : Db → (TaskState → Bool) → TaskRow → Bool
has_row db p t = any (λ r. of_task t.id r && p r.state) db.task_hosts

-- The tasks among which `get_next_multicast` chooses.
unfoldable pub queued_multicasts : Db → List TaskRow
queued_multicasts db =
    keep (λ t. multicasts t.task_type && has_row db (λ s. is_state s pending) t) db.tasks

abbrev pub older : TaskRow → TaskRow → Bool
older t u = ltb t.id u.id

unfoldable pub get_next_multicast : Db → Option Task
unfolding queued_multicasts fetch_optional
get_next_multicast db = fetch_optional db (least older (queued_multicasts db))

-- `ORDER BY created_at DESC`; equal times keep the order of the table.
insert_newest : TaskRow → List TaskRow → List TaskRow
insert_newest t [] = t ∷ []
insert_newest t (u ∷ us) =
    if ltb t.created_at u.created_at then u ∷ insert_newest t us else t ∷ u ∷ us

newest_first : List TaskRow → List TaskRow
unfolding insert_newest
newest_first [] = []
newest_first (t ∷ ts) = insert_newest t (newest_first ts)

abbrev is_image : ℕ → Option ℕ → Bool
is_image id none = false
is_image id (some j) = j == id

unfoldable pub get_active_by_image : ℕ → Db → List Task
unfolding newest_first
get_active_by_image image_id db =
    map (to_task db)
      (newest_first (keep (λ t. is_image image_id t.image_id && has_row db is_active t) db.tasks))
