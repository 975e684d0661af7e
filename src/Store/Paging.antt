-- ===== src/Store/Paging.antt =====
-- The listing of tasks, page by page (`SqliteTaskRepository::list` in
-- crates/core/src/repository/task.rs).
pub mod Complete
use imaged.Base.{
  ℕ, suc, ◌+◌, Bool, true, false, not, ◌&&◌, ◌||◌, Option, none, some, List, [], ◌∷◌, ◌++◌, ◌==◌,
  ltb, leb, if◌then◌else◌, map, any, keep, take, length,
}
use imaged.Text.{text, decimal}
use imaged.Error.{Result, ok, err, invalid_argument, ensure, ◌>>=◌, ◌>>◌}
use imaged.Task.{TaskState, is_state, TaskType, rank_of_type, Task}
use imaged.Store.{TaskRow, Db, of_task}
use imaged.Store.Views.{to_task, view_state}

abbrev pub max_task_page_size : ℕ
max_task_page_size = 200

pub record TaskQuery : Type 0 where
  pub states : List TaskState
  pub task_types : List TaskType
  pub host_id : Option ℕ
  pub before : Option ℕ
  pub limit : ℕ

pub record TaskPage : Type 0 where
  pub tasks : List Task
  pub next_cursor : Option ℕ

-- `?1 IS NULL OR twh.id < ?1`.
abbrev pub is_before : Option ℕ → TaskRow → Bool
is_before none t = true
is_before (some c) t = ltb t.id c

-- `json_array_length(x) = 0 OR …`.
abbrev none_or {ℓ} : {A : Type ℓ} → List A → (A → Bool) → Bool
none_or [] p = true
none_or (x ∷ xs) p = any p (x ∷ xs)

abbrev has_host : Option ℕ → TaskRow → Db → Bool
has_host none t db = true
has_host (some h) t db = any (λ r. of_task t.id r && r.host_id == h) db.task_hosts

-- The conditions of the query but for its cursor.
unfoldable pub selected : TaskQuery → Db → TaskRow → Bool
selected q db t =
    none_or q.states (λ s. is_state s (view_state db t.id))
    && (none_or q.task_types (λ ty. rank_of_type ty == rank_of_type t.task_type)
        && has_host q.host_id t db)

-- `ORDER BY twh.id DESC`.
pub insert_desc : TaskRow → List TaskRow → List TaskRow
insert_desc t [] = t ∷ []
insert_desc t (u ∷ us) = if ltb t.id u.id then u ∷ insert_desc t us else t ∷ (u ∷ us)

pub sort_desc : List TaskRow → List TaskRow
unfolding insert_desc
sort_desc [] = []
sort_desc (t ∷ ts) = insert_desc t (sort_desc ts)

-- All rows of the query, with no limit.
unfoldable pub listing : TaskQuery → Db → List TaskRow
unfolding sort_desc selected
listing q db = sort_desc (keep (λ t. is_before q.before t && selected q db t) db.tasks)

-- `tasks.last().map(|task| task.id)`.
pub last_id : List TaskRow → Option ℕ
last_id [] = none
last_id (t ∷ []) = some t.id
last_id (t ∷ (u ∷ us)) = last_id (u ∷ us)

-- `truncate`, and the cursor.
page_of : ℕ → Db → List TaskRow → TaskPage
unfolding last_id
page_of limit db rows =
    if ltb limit (length rows)
    then record {
      tasks = map (to_task db) (take limit rows);
      next_cursor = last_id (take limit rows);
    }
    else record { tasks = map (to_task db) rows; next_cursor = none }

unfoldable pub list : TaskQuery → Db → Result TaskPage
unfolding listing page_of
list q db = do
  ensure (leb 1 q.limit && leb q.limit max_task_page_size)
      (invalid_argument (text "limit must be between 1 and 200"))
  ok (page_of q.limit db (take (q.limit + 1) (listing q db)))
