-- ===== src/Tables.antt =====
-- The tables of the database (crates/core/migrations). A table is the list of its rows. A column of
-- an enum is the enum: what is stored is its name, which parses.
use imaged.Base.{ℕ, Bool, Option, List}
use imaged.Base.Int.{ℤ}
use imaged.Text.{Text}
use imaged.Task.{TaskState, TaskType, ImageKind}
use imaged.Image.{ImageStatus}
use imaged.Script.{ScriptInput}

pub record TaskRow : Type 0 where
  pub id : ℕ
  pub task_type : TaskType
  pub image_id : Option ℕ
  pub created_at : ℕ

pub record TaskHostRow : Type 0 where
  pub task_id : ℕ
  pub host_id : ℕ
  pub state : TaskState
  pub error : Option Text
  pub started_at : Option ℕ
  pub finished_at : Option ℕ
  pub partuuid : Option Text

pub record InputRow : Type 0 where
  pub task_id : ℕ
  pub host_id : ℕ
  pub name : Text
  pub value : Text

pub record ScriptRunRow : Type 0 where
  pub task_id : ℕ
  pub host_id : ℕ
  pub position : ℕ
  pub script_name : Text
  pub exit_code : Option ℤ
  pub output_bytes : ℕ
  pub started_at : ℕ
  pub finished_at : Option ℕ

-- A row of `script_run_output`: the bytes of a run's output from `start` on.
pub record ChunkRow : Type 0 where
  pub task_id : ℕ
  pub host_id : ℕ
  pub position : ℕ
  pub start : ℕ
  pub text : Text

pub record HostRow : Type 0 where
  pub id : ℕ
  pub mac : Text
  pub name : Text
  pub disk_size_bytes : ℕ
  pub disk_error : Option Text
  pub ip : Option Text

pub record HostPartitionRow : Type 0 where
  pub host_id : ℕ
  pub number : ℕ
  pub partuuid : Text
  pub partlabel : Option Text
  pub label : Option Text
  pub uuid : Option Text
  pub fstype : Option Text
  pub size_bytes : ℕ

pub record GroupRow : Type 0 where
  pub id : ℕ
  pub name : Text

pub record GroupHostRow : Type 0 where
  pub group_id : ℕ
  pub host_id : ℕ

pub record ImageRow : Type 0 where
  pub id : ℕ
  pub name : Text
  pub kind : ImageKind
  pub captured_at : Option ℕ
  pub status : ImageStatus
  pub error : Option Text
  pub root_partition : Option ℕ
  pub sector_size : ℕ
  pub deleted : Bool

pub record ImagePartitionRow : Type 0 where
  pub id : ℕ
  pub image_id : ℕ
  pub partition_number : ℕ
  pub fstype : Text
  pub size_bytes : ℤ
  pub fs_uuid : Option Text
  pub fs_label : Option Text

pub record ImageScriptRow : Type 0 where
  pub image_id : ℕ
  pub position : ℕ
  pub script_id : ℕ
  pub root_partition : Option ℕ

pub record ScriptRow : Type 0 where
  pub id : ℕ
  pub name : Text
  pub body : Text
  pub updated_at : ℕ

pub record ScriptInputRow : Type 0 where
  pub script_id : ℕ
  pub position : ℕ
  pub input : ScriptInput

-- `next_id` is the `AUTOINCREMENT` counter of `tasks`; the other tables with one have theirs.
pub record Db : Type 0 where
  pub next_id : ℕ
  pub tasks : List TaskRow
  pub task_hosts : List TaskHostRow
  pub task_host_inputs : List InputRow
  pub script_runs : List ScriptRunRow
  pub script_run_output : List ChunkRow
  pub hosts : List HostRow
  pub images : List ImageRow
  pub next_image_id : ℕ
  pub next_partition_id : ℕ
  pub image_partitions : List ImagePartitionRow
  pub image_scripts : List ImageScriptRow
  pub host_partitions : List HostPartitionRow
  pub next_group_id : ℕ
  pub groups : List GroupRow
  pub group_hosts : List GroupHostRow
  pub next_script_id : ℕ
  pub scripts : List ScriptRow
  pub script_inputs : List ScriptInputRow
