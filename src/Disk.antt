-- ===== src/Disk.antt =====
-- The backup of a GPT, and the test that a disk can hold it (crates/disk/src/gpt.rs,
-- crates/disk/src/partition_table.rs).
-- A byte is a number below 256. Reading files and running sgdisk are not modelled; an error keeps
-- the number that its message shows. A field is read only from slices that are long enough, so the
-- panics of an index out of range do not occur.
pub mod Parse
pub mod Sectors
mod Tests
use imaged.Base.{
  ℕ, zero, suc, ◌+◌, ◌-◌, ◌*◌, ◌/◌, ◌%◌, Bool, true, false, not, ◌&&◌, Option, none, some, List, [],
  ◌∷◌, ◌==◌, ltb, leb, if◌then◌else◌, length, take, drop,
}

-- 2 ^ 64.
abbrev pub u64_limit : ℕ
u64_limit = 18446744073709551616

pub data GptError : Type 0 where
  no_header truncated : GptError
  entry_size ends_before_start ends_beyond : ℕ → GptError
  other_sectors too_small : ℕ → ℕ → GptError

pub data Checked {ℓ} (A : Type ℓ) : Type ℓ where
  passed : A → Checked A
  refused : GptError → Checked A

pub record Entry : Type 0 where
  pub number : ℕ
  pub first_lba : ℕ
  pub last_lba : ℕ

pub record Backup : Type 0 where
  pub entry_array_bytes : ℕ
  pub entries : List Entry

pub record Partition : Type 0 where
  pub number : ℕ
  pub offset : ℕ
  pub size_bytes : ℕ

-- `bytes.get(at..at + len)`.
abbrev pub slice : ℕ → ℕ → List ℕ → Option (List ℕ)
slice at len bytes = if leb (at + len) (length bytes) then some (take len (drop at bytes)) else none

-- `u32::from_le_bytes` and `u64::from_le_bytes`.
abbrev pub from_le_bytes : List ℕ → ℕ
from_le_bytes [] = 0
from_le_bytes (b ∷ bs) = b + 256 * from_le_bytes bs

abbrev pub le_u32 : List ℕ → ℕ → ℕ
le_u32 bytes at = from_le_bytes (take 4 (drop at bytes))

abbrev pub le_u64 : List ℕ → ℕ → ℕ
le_u64 bytes at = from_le_bytes (take 8 (drop at bytes))

abbrev pub starts_with : List ℕ → List ℕ → Bool
starts_with [] bytes = true
starts_with (s ∷ ss) [] = false
starts_with (s ∷ ss) (b ∷ bs) = s == b && starts_with ss bs

-- `b"EFI PART"`.
abbrev pub signature : List ℕ
signature = 69 ∷ 70 ∷ 73 ∷ 32 ∷ 80 ∷ 65 ∷ 82 ∷ 84 ∷ []

-- `checked_mul` and `checked_add` of a `u64` or a `usize`.
abbrev pub checked : ℕ → Option ℕ
checked n = if ltb n u64_limit then some n else none

-- `saturating_add` and `saturating_mul`.
abbrev pub saturated : ℕ → ℕ
saturated n = if ltb n u64_limit then n else u64_limit - 1

-- `entry[ENTRY_TYPE] != UNUSED_TYPE`, the sixteen bytes of the type not all zero.
abbrev pub all_zero : List ℕ → Bool
all_zero [] = true
all_zero (b ∷ bs) = b == 0 && all_zero bs

abbrev pub is_used : List ℕ → Bool
is_used entry = not (all_zero (take 16 entry))

abbrev pub entry_of : ℕ → List ℕ → Entry
entry_of number bytes = record {
  number = number;
  first_lba = le_u64 bytes 32;
  last_lba = le_u64 bytes 40;
}

abbrev pub cons : Entry → Checked (List Entry) → Checked (List Entry)
cons e (passed es) = passed (e ∷ es)
cons e (refused err) = refused err

-- `array.chunks_exact(entry_bytes).zip(1..)`, filtered and collected; the length of the array is
-- fuel enough.
abbrev pub collect_entries : ℕ → ℕ → ℕ → List ℕ → Checked (List Entry)
collect_entries zero size number array = passed []
collect_entries (suc fuel) size number array =
    let chunk = take size array in
    let rest = collect_entries fuel size (suc number) (drop size array) in
    if not (leb size (length array))
    then passed []
    else if not (is_used chunk)
    then rest
    else if not (leb (le_u64 chunk 32) (le_u64 chunk 40))
    then refused (ends_before_start number)
    else cons (entry_of number chunk) rest

backup_of : ℕ → Checked (List Entry) → Checked Backup
backup_of bytes (passed es) = passed record { entry_array_bytes = bytes; entries = es }
backup_of bytes (refused e) = refused e

parse_array : ℕ → Option (List ℕ) → Checked Backup
unfolding backup_of
parse_array size none = refused truncated
parse_array size (some array) =
    backup_of (length array) (collect_entries (length array) size 1 array)

array_in : List ℕ → Option ℕ → Option (List ℕ)
array_in bytes none = none
array_in bytes (some len) = if leb 1536 (length bytes) then slice 0 len (drop 1536 bytes) else none

parse_with : List ℕ → Option (List ℕ) → Checked Backup
unfolding parse_array array_in
parse_with bytes none = refused no_header
parse_with bytes (some header) =
    if not (starts_with signature header)
    then refused no_header
    else if not (leb 128 (le_u32 header 84))
    then refused (entry_size (le_u32 header 84))
    else parse_array (le_u32 header 84)
        (array_in bytes (checked (le_u32 header 80 * le_u32 header 84)))

unfoldable pub parse : List ℕ → Checked Backup
unfolding parse_with
parse bytes = parse_with bytes (slice 512 92 bytes)

abbrev pub div_ceil : ℕ → ℕ → ℕ
div_ceil n m = if ltb 0 (n % m) then suc (n / m) else n / m

abbrev pub larger : ℕ → Option ℕ → ℕ
larger n none = n
larger n (some m) = if ltb n m then m else n

abbrev pub max_last : List Entry → Option ℕ
max_last [] = none
max_last (e ∷ es) = some (larger e.last_lba (max_last es))

required_after : ℕ → Option ℕ → ℕ
required_after sectors none = 0
required_after sectors (some last_lba) =
    saturated (saturated (saturated (last_lba + 1) + sectors) + 1)

unfoldable pub required_sectors : ℕ → Backup → ℕ
unfolding required_after
required_sectors sector_size b =
    required_after (div_ceil b.entry_array_bytes sector_size) (max_last b.entries)

-- `checked_add(1)`, then `checked_mul(sector_size)`.
abbrev pub scaled : ℕ → Option ℕ → Option ℕ
scaled sector_size none = none
scaled sector_size (some sectors) = checked (sectors * sector_size)

abbrev pub end_of : ℕ → Entry → Option ℕ
end_of sector_size e = scaled sector_size (checked (e.last_lba + 1))

abbrev pub partition_of : ℕ → Entry → Option ℕ → Checked Partition
partition_of sector_size e none = refused (ends_beyond e.number)
partition_of sector_size e (some end) =
    let offset = (e.first_lba * sector_size) % u64_limit in
    passed record {
      number = e.number;
      offset = offset;
      size_bytes = (end + u64_limit - offset) % u64_limit;
    }

abbrev pub prepend : Checked Partition → Checked (List Partition) → Checked (List Partition)
prepend (refused e) rest = refused e
prepend (passed p) (refused e) = refused e
prepend (passed p) (passed ps) = passed (p ∷ ps)

abbrev pub partitions_of : ℕ → List Entry → Checked (List Partition)
partitions_of sector_size [] = passed []
partitions_of sector_size (e ∷ es) =
    prepend (partition_of sector_size e (end_of sector_size e)) (partitions_of sector_size es)

unfoldable pub partitions : ℕ → Backup → Checked (List Partition)
partitions sector_size b = partitions_of sector_size b.entries

abbrev pub holds : ℕ → ℕ → Checked Backup → Checked (Unit {0})
holds size_bytes sector_size (refused e) = refused e
holds size_bytes sector_size (passed b) =
    let required = saturated (required_sectors sector_size b * sector_size) in
    if ltb size_bytes required then refused (too_small size_bytes required) else passed tt

-- What `restore_partition_table` tests before it changes the disk.
unfoldable pub check_target : ℕ → ℕ → ℕ → List ℕ → Checked (Unit {0})
check_target target_sector_size size_bytes sector_size backup =
    if not (target_sector_size == sector_size)
    then refused (other_sectors sector_size target_sector_size)
    else holds size_bytes sector_size (parse backup)
