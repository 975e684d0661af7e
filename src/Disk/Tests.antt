-- ===== src/Disk/Tests.antt =====
-- A backup of two partitions, in 512-byte sectors.
use imaged.Base.{ℕ, zero, suc, ◌≡◌, ◌≤◌, ◌+◌, ◌*◌, refl, arith, [], ◌∷◌, ◌++◌, List, All}
use imaged.Disk.{
  passed, Backup, Partition, signature, parse, parse_with, parse_array, array_in, backup_of,
  partitions, check_target, required_sectors, required_after,
}
use imaged.Disk.Parse.{Numbered, parse-Numbered}
use imaged.Disk.Sectors.{Placed, partitions-Placed, check_target-room}

abbrev repeated : ℕ → ℕ → List ℕ
repeated zero b = []
repeated (suc n) b = b ∷ repeated n b

-- A number below 65536, as eight bytes.
abbrev entry_bytes : ℕ → ℕ → List ℕ
entry_bytes first last =
    repeated 32 171 ++ (first ∷ repeated 7 0) ++ (last ∷ repeated 7 0) ++ repeated 80 0

abbrev image : List ℕ
image =
    repeated 512 0
    ++ signature
    ++ repeated 72 0
    ++ (2 ∷ 0 ∷ 0 ∷ 0 ∷ [])
    ++ (128 ∷ 0 ∷ 0 ∷ 0 ∷ [])
    ++ repeated 936 0
    ++ entry_bytes 34 99
    ++ entry_bytes 100 199

abbrev backup : Backup
backup = record {
  entry_array_bytes = 256;
  entries =
      record { number = 1; first_lba = 34; last_lba = 99 }
      ∷ record { number = 2; first_lba = 100; last_lba = 199 }
      ∷ [];
}

abbrev pub parses : parse image ≡ passed backup
unfolding parse parse_with parse_array array_in backup_of
parses = refl

parse-Numbered_example : Numbered 1 backup.entries
parse-Numbered_example = parse-Numbered image backup parses

abbrev placed : List Partition
placed =
    record { number = 1; offset = 17408; size_bytes = 33792 }
    ∷ record { number = 2; offset = 51200; size_bytes = 51200 }
    ∷ []

partitions-Placed_example : Placed 512 backup.entries placed
unfolding partitions
partitions-Placed_example = partitions-Placed image backup 512 placed parses refl

fits : check_target 512 103424 512 image ≡ passed tt
unfolding check_target parse parse_with parse_array array_in backup_of required_sectors
    required_after
fits = refl

check_target-room_example :
    ◌≡◌ {A = ℕ} 512 512 × All (λ e. (e.last_lba + 1) * 512 + 256 + 512 ≤ 103424) backup.entries
check_target-room_example =
    check_target-room 512 103424 512 image backup (omega arith) (omega arith) parses fits
