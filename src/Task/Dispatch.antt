-- ===== src/Task/Dispatch.antt =====
-- What an agent is told to do for a task (`Task::work`, `Task::is_dispatchable_to`).
use imaged.Base.{
  ℕ, Bool, true, false, not, ◌&&◌, ◌||◌, ◌≡◌, Option, none, some, arith, if◌then◌else◌, is_some,
}
use imaged.Text.{Text}
use imaged.Error.{ok, is_ok}
use imaged.Task.{
  TaskType, capture, reboot, targets_partition, Task, Work, capture_partition_work,
  deploy_partition_work, multicast_partition_work, type_of_work, image_of_work, partuuid, on_image,
  on_partition, work_of, work,
}

abbrev pub partuuid_of_work : Work → Option Text
partuuid_of_work (capture_partition_work i p) = some p
partuuid_of_work (deploy_partition_work i p) = some p
partuuid_of_work (multicast_partition_work i p) = some p
partuuid_of_work _ = none

abbrev pub IsWorkOf : Task → ℕ → TaskType → Work → Type 0
IsWorkOf t host_id ty w =
    (type_of_work w ≡ ty)
    × (image_of_work w ≡ elim ty [ reboot ↦ none | _ ↦ t.image_id ])
    × (partuuid_of_work w ≡ (if targets_partition ty then partuuid host_id t else none))

work_of_lem :
    (ty : TaskType) (t : Task) (host_id : ℕ) (w : Work)
    → work_of ty t host_id ≡ ok w
    → IsWorkOf t host_id ty w
unfolding work_of on_image on_partition
work_of_lem capture t host_id w h = ground arith
work_of_lem _ t host_id w h = ground arith

-- The work made of a task has its type, its image unless it is a reboot, and, where the type
-- targets a partition, the partition of this host.
pub work-IsWorkOf :
    (t : Task) (host_id : ℕ) (w : Work) → work t host_id ≡ ok w → IsWorkOf t host_id t.task_type w
unfolding work
work-IsWorkOf t host_id w h = work_of_lem t.task_type t host_id w h

abbrev pub is_reboot : TaskType → Bool
is_reboot reboot = true
is_reboot _ = false

is_ok-work_of :
    (ty : TaskType) (t : Task) (host_id : ℕ)
    → is_ok (work_of ty t host_id) ≡ (
        is_reboot ty
        || (is_some t.image_id && (not (targets_partition ty) || is_some (partuuid host_id t))))
unfolding work_of on_image on_partition
is_ok-work_of capture t host_id = ground arith
is_ok-work_of _ t host_id = ground arith

-- There is work exactly for a reboot, or where the task has an image and, if its type targets a
-- partition, a partition for this host.
pub is_ok-work :
    (t : Task) (host_id : ℕ)
    → is_ok (work t host_id) ≡ (
        is_reboot t.task_type
        || (is_some t.image_id
            && (not (targets_partition t.task_type) || is_some (partuuid host_id t))))
unfolding work
is_ok-work t host_id = is_ok-work_of t.task_type t host_id
