-- ===== src/Task/Tests.antt =====
-- The theorems on tasks at concrete tasks.
use imaged.Base.{◌≡◌, false, ◌↔◌, refl, some, none, [], ◌∷◌, List, ◌||◌, ◌&&◌, not, is_some}
use imaged.Text.{text}
use imaged.Error.{is_ok}
use imaged.Task.{
  TaskState, running, done, failed, partial, deploy_partition, targets_partition, TaskHost, Task,
  Work, deploy_partition_work, aggregate, partuuid, work,
}
use imaged.Task.Aggregate.{Means, aggregate-Means}
use imaged.Task.Dispatch.{IsWorkOf, work-IsWorkOf, is_reboot, is_ok-work}

abbrev mixed : List TaskState
mixed = done ∷ failed ∷ []

aggregate-Means_example : (aggregate mixed ≡ partial) ↔ Means partial mixed
aggregate-Means_example = aggregate-Means mixed partial (λ e. cc, (λ e. cc, tt))

abbrev laptop : TaskHost
laptop = record {
  host_id = 7;
  host_name = text "laptop";
  mac = text "02:00:00:00:00:07";
  state = running;
  error = none;
  started_at = some 110;
  finished_at = none;
  partuuid = some (text "11-22");
}

abbrev restoring : Task
restoring = record {
  id = 1;
  task_type = deploy_partition;
  hosts = laptop ∷ [];
  image_id = some 3;
  image_name = none;
  image_deleted = false;
  created_at = 100;
}

abbrev restore : Work
restore = deploy_partition_work 3 (text "11-22")

work-IsWorkOf_example : IsWorkOf restoring 7 deploy_partition restore
unfolding work partuuid
work-IsWorkOf_example = work-IsWorkOf restoring 7 restore refl

is_ok-work_example : is_ok (work restoring 8) ≡ (
    is_reboot deploy_partition
    || (is_some restoring.image_id
        && (not (targets_partition deploy_partition) || is_some (partuuid 8 restoring))))
is_ok-work_example = is_ok-work restoring 8
