-- ===== src/Image.antt =====
-- Images and their partitions (crates/model/src/image.rs, crates/core/src/domain/image.rs).
use imaged.Base.{ℕ, Bool, Option, List, [], ◌∷◌, ◌++◌, ◌==◌}
use imaged.Text.{Text, text}
use imaged.Task.{ImageKind, disk, partition}

pub data ImageStatus : Type 0 where
  empty capturing importing ready faulted : ImageStatus

abbrev pub rank_of_status : ImageStatus → ℕ
rank_of_status empty = 0
rank_of_status capturing = 1
rank_of_status importing = 2
rank_of_status ready = 3
rank_of_status faulted = 4

-- The derived `PartialEq`.
abbrev pub is_status : ImageStatus → ImageStatus → Bool
is_status s t = rank_of_status s == rank_of_status t

-- `FSTYPES`, but for its last entry.
abbrev partition_fstypes : List Text
partition_fstypes = text "ext2" ∷ text "ext3" ∷ text "ext4" ∷ text "vfat" ∷ text "btrfs" ∷ []

abbrev pub fstypes : ImageKind → List Text
fstypes disk = partition_fstypes ++ text "swap" ∷ []
fstypes partition = partition_fstypes

pub record ImagePartition : Type 0 where
  pub id : ℕ
  pub partition_number : ℕ
  pub fstype : Text
  pub size_bytes : ℕ
  pub fs_uuid : Option Text
  pub fs_label : Option Text

pub record Image : Type 0 where
  pub id : ℕ
  pub name : Text
  pub kind : ImageKind
  pub captured_at : Option ℕ
  pub status : ImageStatus
  pub error : Option Text
  pub partitions : List ImagePartition
  pub root_partition : Option ℕ
  pub sector_size : ℕ

pub record NewImagePartition : Type 0 where
  pub partition_number : ℕ
  pub fstype : Text
  pub size_bytes : ℕ
  pub fs_uuid : Option Text
  pub fs_label : Option Text
