-- ===== src/Store/Creation.antt =====
-- Creating a task (`create_with_inputs` in crates/core/src/repository/task.rs), in one transaction.
-- The messages of SQLite's constraint errors are arguments: `unique` for a key that is there
-- already, `foreign` for a reference to a row that is not.
pub mod Created
pub mod Outcome
use imaged.Base.{
  ℕ, suc, ◌+◌, Bool, true, false, not, ◌&&◌, ◌||◌, Option, none, some, List, [], ◌∷◌, ◌++◌, ◌==◌,
  if◌then◌else◌, map, any,
}
use imaged.Base.Assoc.{Assoc}
use imaged.Base.Assoc
use imaged.Text.{Text}
use imaged.Error.{
  Result, ok, err, ◌>>=◌, ◌>>◌, ensure, from_sqlx, database_error, unique_violation,
  foreign_key_violation,
}
use imaged.Task.{pending, TaskType, Task}
use imaged.Store.{TaskRow, TaskHostRow, InputRow, HostRow, ImageRow, Db, is_row}
use imaged.Store.Queries.{get}

-- `InputValues`, a map whose names are distinct.
abbrev pub InputValues : Type 0
InputValues = List (Text × Text)

pub record Request : Type 0 where
  pub task_type : TaskType
  pub host_ids : List ℕ
  pub image_id : Option ℕ
  pub inputs : Assoc InputValues
  pub partuuids : Assoc Text

unfoldable pub host_exists : ℕ → List HostRow → Bool
host_exists id hosts = any (λ h. h.id == id) hosts

unfoldable pub image_exists : Option ℕ → List ImageRow → Bool
image_exists none images = true
image_exists (some id) images = any (λ i. i.id == id) images

abbrev pub task_row : ℕ → Request → Db → TaskRow
task_row now q db = record {
  id = db.next_id;
  task_type = q.task_type;
  image_id = q.image_id;
  created_at = now;
}

abbrev pub host_row : ℕ → Request → ℕ → TaskHostRow
host_row task_id q host_id = record {
  task_id = task_id;
  host_id = host_id;
  state = pending;
  error = none;
  started_at = none;
  finished_at = none;
  partuuid = Assoc.get host_id q.partuuids;
}

pub input_rows_of : ℕ → ℕ → Option InputValues → List InputRow
input_rows_of task_id host_id none = []
input_rows_of task_id host_id (some values) =
    map (λ v. record { task_id = task_id; host_id = host_id; name = v.0; value = v.1 }) values

pub input_rows : ℕ → Request → ℕ → List InputRow
unfolding input_rows_of
input_rows task_id q host_id = input_rows_of task_id host_id (Assoc.get host_id q.inputs)

pub add_host : ℕ → Request → ℕ → Db → Db
unfolding input_rows
add_host task_id q host_id db = record db {
  task_hosts = db.task_hosts ++ host_row task_id q host_id ∷ [];
  task_host_inputs = db.task_host_inputs ++ input_rows task_id q host_id;
}

module _ (unique foreign : Text) where
  insert_host : ℕ → Request → ℕ → Db → Result Db
  unfolding host_exists add_host
  insert_host task_id q host_id db = do
    ensure (not (any (is_row task_id host_id) db.task_hosts))
        (from_sqlx (database_error (unique_violation unique)))
    ensure (host_exists host_id db.hosts)
        (from_sqlx (database_error (foreign_key_violation foreign)))
    ok (add_host task_id q host_id db)

  insert_hosts : ℕ → Request → List ℕ → Db → Result Db
  unfolding insert_host
  insert_hosts task_id q [] db = ok db
  insert_hosts task_id q (host_id ∷ host_ids) db =
      insert_host task_id q host_id db >>= λ d. insert_hosts task_id q host_ids d

  insert_task : ℕ → Request → Db → Result Db
  unfolding image_exists insert_hosts
  insert_task now q db = do
    ensure (image_exists q.image_id db.images)
        (from_sqlx (database_error (foreign_key_violation foreign)))
    insert_hosts db.next_id q q.host_ids
        (record db { next_id = suc db.next_id; tasks = db.tasks ++ task_row now q db ∷ [] })

  -- A failure rolls the transaction back; after a commit the task is read again.
  pub create_with_inputs : ℕ → Request → Db → Result Task × Db
  unfolding insert_task
  create_with_inputs now q db = elim (insert_task now q db) [
    | ok d ↦ (get db.next_id d, d)
    | err e ↦ (err e, db)
  ]

  -- `create`: no inputs and no partitions.
  unfoldable pub create : ℕ → TaskType → List ℕ → Option ℕ → Db → Result Task × Db
  create now task_type host_ids image_id = create_with_inputs now (record {
    task_type = task_type;
    host_ids = host_ids;
    image_id = image_id;
    inputs = [];
    partuuids = [];
  })
