-- ===== src/Agent/Reports.antt =====
-- What an agent reports of its task (crates/api/agent/src/task.rs).
-- Files are outside the model: `table_exists` is whether the image's partition table is stored.
pub mod Again
mod Rows
pub mod Settled
use imaged.Base.{
  ℕ, zero, suc, ◌/◌, ◌%◌, Bool, true, false, not, ◌&&◌, ◌||◌, Option, none, some, List, [], ◌∷◌,
  ◌++◌, ◌==◌, ltb, if◌then◌else◌, any,
}
use imaged.Text.{Text, text, decimal}
use imaged.Error.{
  Result, ok, err, AppError, not_found, invalid_argument, already_exists, failed_precondition,
  internal, database, ◌>>=◌, ◌>>◌, ensure, ok_or,
}
use imaged.Task.{
  Task, TaskType, TaskState, capture, capture_partition, reboot, running, done, failed, captures,
  multicasts, hosts_in, rank_of_type,
}
use imaged.Image.{ImagePartition, ready, is_status}
use imaged.Progress.{Snapshot, forget}
use imaged.Store.{Db}
use imaged.Store
use imaged.Store.Queries.{get_next}
use imaged.Store.Queries
use imaged.Store.Hosts.{Host, get_by_mac}
use imaged.Store.Images
use imaged.Agent.{with_id, not_next}
use imaged.Agent.Started.{is_type}

-- What the handlers share: the database, the progress board, and whether the multicast worker has
-- been woken. `F` is the type of floating-point numbers.
pub record Server (F : Type 0) : Type 0 where
  pub db : Db
  pub progress : Snapshot F
  pub woken : Bool

abbrev pub has_in : TaskState → ℕ → Result Task → Result Bool
has_in outcome host_id (ok t) = ok (any (λ id. id == host_id) (hosts_in outcome t))
has_in outcome host_id (err (not_found m)) = ok false
has_in outcome host_id (err e) = err e

abbrev pub settled_already : Text → ℕ → Bool → Result (Option (Task × ℕ))
settled_already mac task_id true = ok none
settled_already mac task_id false = err (not_next task_id mac)

abbrev pub unless_next : Text → ℕ → TaskState → ℕ → Option Task → Db → Result (Option (Task × ℕ))
unless_next mac task_id outcome host_id (some t) db = ok (some (t, host_id))
unless_next mac task_id outcome host_id none db =
    has_in outcome host_id (Queries.get task_id db) >>= settled_already mac task_id

module _ (quoted : Text → Text) where
  -- The task to settle with its host; nothing when it has settled that way already.
  unfoldable pub task_to_settle : Text → ℕ → TaskState → Db → Result (Option (Task × ℕ))
  task_to_settle mac task_id outcome db = get_by_mac quoted mac db >>= λ (host : Host).
      unless_next mac task_id outcome host.id (with_id task_id (get_next host.id db)) db

abbrev is_only_first : List ImagePartition → Bool
is_only_first (p ∷ []) = p.partition_number == 1
is_only_first _ = false

abbrev is_empty : List ImagePartition → Bool
is_empty [] = true
is_empty (p ∷ ps) = false

-- What a capture lacks.
abbrev incomplete : (ℕ → Bool) → Task → ℕ → Db → Option Text
incomplete table_exists t image_id db =
    let partitions = Images.get_partitions image_id db in
    if is_empty partitions
    then some (text "Capture finished without any partitions")
    else if is_type t.task_type capture_partition && not (is_only_first partitions)
    then some (text "A partition capture must store exactly partition 1")
    else if is_type t.task_type capture && not (table_exists image_id)
    then some (text "Capture finished without a partition table")
    else none

abbrev pub captured_image : Task → Option ℕ
captured_image t = if captures t.task_type then t.image_id else none

abbrev fault_image : Text → Option ℕ → Db → Db
fault_image error none db = db
fault_image error (some image_id) db = Images.mark_faulted image_id error db

module _ {F : Type 0} where
  abbrev finish_task : ℕ → Task → ℕ → Db → Server F → Result (Unit {0}) × Server F
  finish_task now t host_id db s = (
    ok tt,
    record s {
      db = Store.mark_finished now t.id host_id db;
      progress = (forget host_id s.progress).0;
    },
  )

  -- The captured image is settled with its task.
  abbrev finish_capture : ℕ → Task → ℕ → ℕ → Option Text → Server F → Result (Unit {0}) × Server F
  finish_capture now t host_id image_id none s =
      finish_task now t host_id (Images.mark_image_finished now image_id s.db) s
  finish_capture now t host_id image_id (some error) s = (
    err (failed_precondition error),
    record s {
      db = Store.mark_failed now t.id host_id error (Images.mark_faulted image_id error s.db);
    },
  )

  abbrev finish_on : (ℕ → Bool) → ℕ → Task → ℕ → Option ℕ → Server F → Result (Unit {0}) × Server F
  finish_on table_exists now t host_id none s = finish_task now t host_id s.db s
  finish_on table_exists now t host_id (some image_id) s =
      finish_capture now t host_id image_id (incomplete table_exists t image_id s.db) s

  abbrev finish :
      (ℕ → Bool) → ℕ → Result (Option (Task × ℕ)) → Server F → Result (Unit {0}) × Server F
  finish table_exists now (err e) s = (err e, s)
  finish table_exists now (ok none) s = (ok tt, s)
  finish table_exists now (ok (some (t, host_id))) s =
      finish_on table_exists now t host_id (captured_image t) s

  abbrev fail : ℕ → Text → Result (Option (Task × ℕ)) → Server F → Result (Unit {0}) × Server F
  fail now error (err e) s = (err e, s)
  fail now error (ok none) s = (ok tt, s)
  fail now error (ok (some (t, host_id))) s = (
    ok tt,
    record {
      db = Store.mark_failed now t.id host_id error (fault_image error (captured_image t) s.db);
      progress = (forget host_id s.progress).0;
      woken = s.woken || multicasts t.task_type;
    },
  )

  module _ (quoted : Text → Text) where
    unfoldable pub mark_finished :
        (ℕ → Bool) → ℕ → Text → ℕ → Server F → Result (Unit {0}) × Server F
    unfolding task_to_settle
    mark_finished table_exists now mac task_id s =
        finish table_exists now (task_to_settle quoted mac task_id done s.db) s

    unfoldable pub mark_failed : ℕ → Text → ℕ → Text → Server F → Result (Unit {0}) × Server F
    unfolding task_to_settle
    mark_failed now mac task_id error s =
        fail now error (task_to_settle quoted mac task_id failed s.db) s

-- A report that settles the task: that it is done, with whether a partition table is stored, or
-- that it failed.
pub data Report : Type 0 where
  finishes : (ℕ → Bool) → Report
  fails : Text → Report

unfoldable pub deliver :
    {F : Type 0} → (Text → Text) → Report → ℕ → Text → ℕ → Server F → Result (Unit {0}) × Server F
deliver quoted (finishes table_exists) now mac task_id s =
    mark_finished quoted table_exists now mac task_id s
deliver quoted (fails error) now mac task_id s = mark_failed quoted now mac task_id error s

abbrev pub outcome_of : Report → TaskState
outcome_of (finishes table_exists) = done
outcome_of (fails error) = failed
