-- ===== src/Agent/Transfers.antt =====
-- What an agent may send of a capture and fetch of an image (crates/api/agent/src/capture.rs,
-- crates/api/agent/src/deploy.rs). Files are outside the model: `store` is the outcome of writing
-- the data, and a download ends where its file would be read, with the image and the partition.
use imaged.Base.{ℕ, Bool, ◌&&◌, ◌||◌, Option, some, List, [], ◌∷◌, ◌++◌, ◌==◌, if◌then◌else◌, any}
use imaged.Base.Int.{ℤ}
use imaged.Text.{Text, text, decimal}
use imaged.Error.{Result, ok, err, invalid_argument, ◌>>=◌, ◌>>◌, ensure, ok_or}
use imaged.Task.{
  Task, TaskType, capture, capture_partition, deploy, deploy_partition, multicast, partition,
  running, captures, aggregate_state, is_state,
}
use imaged.Image.{ImagePartition, fstypes, ready, is_status}
use imaged.Store.{Db}
use imaged.Store.Hosts.{is_same_text}
use imaged.Store.Images
use imaged.Agent.{get_next_task}
use imaged.Agent.Started.{not_ready, is_type}

-- `fstypes.join(", ")`.
abbrev join : List Text → Text
join [] = []
join (name ∷ []) = name
join (name ∷ names) = name ++ (text ", " ++ join names)

-- `TaskType::is_capture`: a capture of a whole disk.
abbrev is_capture : TaskType → Bool
is_capture ty = is_type ty capture

abbrev is_unicast_deploy : TaskType → Bool
is_unicast_deploy ty = is_type ty deploy || is_type ty deploy_partition

abbrev restores_disk : TaskType → Bool
restores_disk ty = is_type ty deploy || is_type ty multicast

-- What a capture of one partition may store.
abbrev check_partition : Task → ℕ → Text → Result (Unit {0})
check_partition t number filesystem =
    if is_type t.task_type capture_partition
    then (do
      ensure (number == 1) (
          invalid_argument
            (text "a partition capture stores only partition 1, not " ++ decimal number))
      ensure (any (λ name. is_same_text name filesystem) (fstypes partition)) (
          invalid_argument (
            text "a partition image cannot hold a `"
            ++ (filesystem
                ++ (text "` filesystem, expected one of " ++ join (fstypes partition))))))
    else ok tt

module _ (quoted : Text → Text) where
  unfoldable pub running_capture : Text → ℕ → (TaskType → Bool) → Db → Result (Task × ℕ)
  running_capture mac task_id accepts db = get_next_task quoted mac db >>= λ (t : Task).
      ok_or t.image_id
        (invalid_argument (text "Task " ++ (decimal task_id ++ text " is not valid")))
      >>= λ image_id.
          ensure (t.id == task_id && accepts t.task_type) (
            invalid_argument
              (text "No capture task for task " ++ (decimal task_id ++ text " found")))
          >> (ensure (is_state (aggregate_state t) running)
                (invalid_argument (text "Task has not yet started"))
              >> ok (t, image_id))

  -- The handlers' last step, when their checks have passed.
  abbrev saved_after :
      Text
      → Text
      → ℕ
      → Text
      → ℤ
      → Option Text
      → Option Text
      → Result ℕ
      → Db
      → Result ImagePartition × Db
  saved_after unique foreign number filesystem size fs_uuid fs_label (err e) db = (err e, db)
  saved_after unique foreign number filesystem size fs_uuid fs_label (ok image_id) db =
      Images.save_partition unique foreign image_id number filesystem size fs_uuid fs_label db

  unfoldable pub upload_partition_data :
      (ℕ → ℕ → Result (Unit {0}))
      → Text
      → Text
      → Text
      → ℕ
      → ℕ
      → Text
      → ℤ
      → Option Text
      → Option Text
      → Db
      → Result ImagePartition × Db
  unfolding running_capture
  upload_partition_data store unique foreign mac task_id number filesystem size fs_uuid fs_label
        db =
      saved_after unique foreign number filesystem size fs_uuid fs_label
        (running_capture mac task_id captures db >>= λ (t, image_id).
          check_partition t number filesystem >> (store image_id number >> ok image_id))
        db

  abbrev rooted : ℕ → Result (Task × ℕ) → Db → Result (Unit {0}) × Db
  rooted number (err e) db = (err e, db)
  rooted number (ok (t, image_id)) db =
      let (r, d) = Images.set_root_partition image_id (some number) db in (r >>= λ _. ok tt, d)

  unfoldable pub root_partition : Text → ℕ → ℕ → Db → Result (Unit {0}) × Db
  unfolding running_capture
  root_partition mac task_id number db = rooted number (running_capture mac task_id captures db) db

  -- The image whose partition table is written.
  unfoldable pub partition_table : Text → ℕ → Db → Result ℕ
  unfolding running_capture
  partition_table mac task_id db =
      running_capture mac task_id is_capture db >>= λ (t, image_id). ok image_id

  unfoldable pub get_restore_task_and_verify : Text → ℕ → (TaskType → Bool) → Db → Result (Task × ℕ)
  get_restore_task_and_verify mac task_id accepts db = get_next_task quoted mac db >>= λ (t : Task).
      ensure (t.id == task_id && accepts t.task_type)
        (invalid_argument (text "No restore task for task " ++ (decimal task_id ++ text " found")))
      >> (ok_or t.image_id
            (invalid_argument (text "Task " ++ (decimal task_id ++ text " has no image")))
          >>= λ image_id. ok (t, image_id))

  abbrev readable : (TaskType → Bool) → Text → ℕ → Db → Result ℕ
  readable accepts mac task_id db =
      get_restore_task_and_verify mac task_id accepts db >>= λ (t, image_id).
      Images.get_status image_id db >>= λ status.
      ensure (is_status status ready) (not_ready image_id) >> ok image_id

  -- The image and the partition that are read.
  unfoldable pub download_partition_data : Text → ℕ → ℕ → Db → Result (ℕ × ℕ)
  unfolding get_restore_task_and_verify
  download_partition_data mac task_id number db =
      readable is_unicast_deploy mac task_id db >>= λ image_id. ok (image_id, number)

  -- The image whose partition table is read.
  unfoldable pub download_partition_table : Text → ℕ → Db → Result ℕ
  unfolding get_restore_task_and_verify
  download_partition_table mac task_id db = readable restores_disk mac task_id db
