-- ===== src/Task.antt =====
-- Tasks and the state of each of their hosts (crates/core/src/domain/task.rs,
-- crates/model/src/task.rs, crates/model/src/types.rs).
-- Ids are the positive row ids that SQLite gives out; a time is a number that grows.
pub mod Aggregate
pub mod Dispatch
mod Tests
use imaged.Base.{
  ℕ, Bool, true, false, not, ◌&&◌, ◌||◌, Option, none, some, List, [], ◌∷◌, map, ◌++◌, ◌==◌,
  if◌then◌else◌, any, all, keep, find,
}
use imaged.Text.{Text, text, decimal}
use imaged.Error.{AppError, failed_precondition, Result, ok, err, ◌>>=◌, ok_or}

pub data TaskState : Type 0 where
  pending running done failed cancelled partial : TaskState

abbrev pub rank : TaskState → ℕ
rank pending = 0
rank running = 1
rank done = 2
rank failed = 3
rank cancelled = 4
rank partial = 5

-- The derived `PartialEq`.
abbrev pub is_state : TaskState → TaskState → Bool
is_state s t = rank s == rank t

-- Neither settled yet: `matches!(s, Pending | Running)`.
abbrev pub is_active : TaskState → Bool
is_active pending = true
is_active running = true
is_active _ = false

pub data ImageKind : Type 0 where
  disk partition : ImageKind

pub data TaskType : Type 0 where
  capture capture_partition deploy deploy_partition multicast multicast_partition reboot : TaskType

-- The derived `PartialEq` compares these.
abbrev pub rank_of_type : TaskType → ℕ
rank_of_type capture = 0
rank_of_type capture_partition = 1
rank_of_type deploy = 2
rank_of_type deploy_partition = 3
rank_of_type multicast = 4
rank_of_type multicast_partition = 5
rank_of_type reboot = 6

abbrev pub capture_of : ImageKind → TaskType
capture_of disk = capture
capture_of partition = capture_partition

abbrev pub deploy_of : ImageKind → TaskType
deploy_of disk = deploy
deploy_of partition = deploy_partition

abbrev pub multicast_of : ImageKind → TaskType
multicast_of disk = multicast
multicast_of partition = multicast_partition

abbrev pub captures : TaskType → Bool
captures capture = true
captures capture_partition = true
captures _ = false

abbrev pub multicasts : TaskType → Bool
multicasts multicast = true
multicasts multicast_partition = true
multicasts _ = false

abbrev pub restores : TaskType → Bool
restores deploy = true
restores deploy_partition = true
restores multicast = true
restores multicast_partition = true
restores _ = false

abbrev pub targets_partition : TaskType → Bool
targets_partition capture_partition = true
targets_partition deploy_partition = true
targets_partition multicast_partition = true
targets_partition _ = false

pub record TaskHost : Type 0 where
  pub host_id : ℕ
  pub host_name : Text
  pub mac : Text
  pub state : TaskState
  pub error : Option Text
  pub started_at : Option ℕ
  pub finished_at : Option ℕ
  pub partuuid : Option Text

pub record Task : Type 0 where
  pub id : ℕ
  pub task_type : TaskType
  pub hosts : List TaskHost
  pub image_id : Option ℕ
  pub image_name : Option Text
  pub image_deleted : Bool
  pub created_at : ℕ

-- What an agent is told to do.
pub data Work : Type 0 where
  capture_work deploy_work multicast_work : ℕ → Work
  capture_partition_work deploy_partition_work multicast_partition_work : ℕ → Text → Work
  reboot_work : Work

abbrev pub type_of_work : Work → TaskType
type_of_work (capture_work i) = capture
type_of_work (capture_partition_work i p) = capture_partition
type_of_work (deploy_work i) = deploy
type_of_work (multicast_work i) = multicast
type_of_work (deploy_partition_work i p) = deploy_partition
type_of_work (multicast_partition_work i p) = multicast_partition
type_of_work reboot_work = reboot

abbrev pub image_of_work : Work → Option ℕ
image_of_work (capture_work i) = some i
image_of_work (capture_partition_work i p) = some i
image_of_work (deploy_work i) = some i
image_of_work (multicast_work i) = some i
image_of_work (deploy_partition_work i p) = some i
image_of_work (multicast_partition_work i p) = some i
image_of_work reboot_work = none

aggregate_some : List TaskState → TaskState
aggregate_some states =
    if any is_active states
    then if any (λ t. not (is_state t pending)) states then running else pending
    else if all (λ t. is_state t done) states
    then done
    else if all (λ t. is_state t cancelled) states
    then cancelled
    else if not (any (λ t. is_state t done) states)
    then failed
    else partial

-- `aggregate_state` over the states of the hosts, which is all that it reads.
unfoldable pub aggregate : List TaskState → TaskState
unfolding aggregate_some
aggregate [] = cancelled
aggregate (s ∷ ss) = aggregate_some (s ∷ ss)

unfoldable pub aggregate_state : Task → TaskState
unfolding aggregate
aggregate_state t = aggregate (map (λ h. h.state) t.hosts)

unfoldable pub hosts_in : TaskState → Task → List ℕ
hosts_in state t = map (λ h. h.host_id) (keep (λ h. is_state h.state state) t.hosts)

unfoldable pub is_dispatchable_to : ℕ → Task → Bool
unfolding hosts_in
is_dispatchable_to host_id t =
    not (multicasts t.task_type) || any (λ id. id == host_id) (hosts_in running t)

partuuid_of : Option TaskHost → Option Text
partuuid_of none = none
partuuid_of (some h) = h.partuuid

unfoldable pub partuuid : ℕ → Task → Option Text
unfolding partuuid_of
partuuid host_id t = partuuid_of (find (λ h. h.host_id == host_id) t.hosts)

unfoldable pub no_image : Task → AppError
no_image t = failed_precondition (text "task " ++ (decimal t.id ++ text " has no image"))

unfoldable pub no_partition : Task → ℕ → AppError
no_partition t host_id =
    failed_precondition
      (text "task " ++ (decimal t.id ++ (text " has no partition for host " ++ decimal host_id)))

on_image : (ℕ → Work) → Task → Result Work
on_image make t = do image_id ← ok_or t.image_id (no_image t); ok (make image_id)

on_partition : (ℕ → Text → Work) → Task → ℕ → Result Work
on_partition make t host_id = do
  image_id ← ok_or t.image_id (no_image t)
  uuid ← ok_or (partuuid host_id t) (no_partition t host_id)
  ok (make image_id uuid)

work_of : TaskType → Task → ℕ → Result Work
unfolding on_image on_partition
work_of capture t host_id = on_image capture_work t
work_of capture_partition t host_id = on_partition capture_partition_work t host_id
work_of deploy t host_id = on_image deploy_work t
work_of deploy_partition t host_id = on_partition deploy_partition_work t host_id
work_of multicast t host_id = on_image multicast_work t
work_of multicast_partition t host_id = on_partition multicast_partition_work t host_id
work_of reboot t host_id = ok reboot_work

unfoldable pub work : Task → ℕ → Result Work
unfolding work_of
work t host_id = work_of t.task_type t host_id
