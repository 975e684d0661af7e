-- ===== src/Store/Images.antt =====
-- The images (crates/core/src/repository/image.rs).
-- The columns hold what was written: the name of a status or of a kind parses, so the conversions
-- of those do not fail. An `i64` is converted `as u64` by its bits.
pub mod Grouped
mod Inserted
pub mod Roots
mod Tests
use imaged.Base.{
  ℕ, suc, ◌+◌, ◌-◌, ◌%◌, Bool, true, false, not, ◌&&◌, Option, none, some, List, [], ◌∷◌, ◌++◌,
  ◌==◌, ltb, if◌then◌else◌, map, any, keep, find, update_where,
}
use imaged.Base.Assoc.{Assoc}
use imaged.Base.Assoc
use imaged.Base.Int.{ℤ, pos, negsuc}
use imaged.Base.Sorting.{sort_by}
use imaged.Text.{Text, text, decimal}
use imaged.Error.{
  Result, ok, err, AppError, invalid_argument, not_found, internal, ◌>>=◌, ◌>>◌, ensure, ok_or,
  from_sqlx, row_not_found, database_error, unique_violation, foreign_key_violation,
}
use imaged.Task.{ImageKind}
use imaged.Image.{
  ImageStatus, empty, capturing, importing, ready, faulted, is_status, ImagePartition, Image,
  NewImagePartition,
}
use imaged.Store.{ImageRow, ImagePartitionRow, ImageScriptRow, Db}

abbrev pub u64_of : ℤ → ℕ
u64_of (pos n) = n % 18446744073709551616
u64_of (negsuc n) = 18446744073709551615 - n % 18446744073709551616

-- `u32::try_from` of the stored number.
unfoldable pub sector_size : ℕ → Result ℕ
sector_size value =
    if ltb value 4294967296
    then ok value
    else err (internal (text "stored sector size " ++ decimal value ++ text " is out of range"))

abbrev pub partition_of_row : ImagePartitionRow → ImagePartition
partition_of_row p = record {
  id = p.id;
  partition_number = p.partition_number;
  fstype = p.fstype;
  size_bytes = u64_of p.size_bytes;
  fs_uuid = p.fs_uuid;
  fs_label = p.fs_label;
}

-- `WHERE image_id = ? ORDER BY partition_number`.
abbrev pub partition_rows : ℕ → Db → List ImagePartitionRow
partition_rows id db =
    sort_by (λ p. p.partition_number) (keep (λ p. p.image_id == id) db.image_partitions)

unfoldable pub get_partitions : ℕ → Db → List ImagePartition
get_partitions id db = map partition_of_row (partition_rows id db)

abbrev pub image_with : ImageRow → List ImagePartition → ℕ → Image
image_with i partitions size = record {
  id = i.id;
  name = i.name;
  kind = i.kind;
  captured_at = i.captured_at;
  status = i.status;
  error = i.error;
  partitions = partitions;
  root_partition = i.root_partition;
  sector_size = size;
}

unfoldable pub read_image : Db → ImageRow → Result Image
unfolding get_partitions
read_image db i =
    sector_size i.sector_size >>= λ size. ok (image_with i (get_partitions i.id db) size)

abbrev pub is_image_row : ℕ → ImageRow → Bool
is_image_row id i = i.id == id

read_found : Db → Option ImageRow → Result Image
unfolding read_image
read_found db none = err (from_sqlx row_not_found)
read_found db (some i) = read_image db i

status_of : Option ImageRow → Result ImageStatus
status_of none = err (from_sqlx row_not_found)
status_of (some i) = ok i.status

unfoldable pub get_status : ℕ → Db → Result ImageStatus
unfolding status_of
get_status id db = status_of (find (is_image_row id) db.images)

-- `WHERE id = ? AND deleted_at IS NULL`.
unfoldable pub get : ℕ → Db → Result Image
unfolding read_found
get id db = read_found db (find (λ i. is_image_row id i && not i.deleted) db.images)

pub insert : Text → ImageKind → ImageStatus → Db → Result Image × Db
unfolding sector_size
insert name kind status db =
    let row : ImageRow = record {
      id = db.next_image_id;
      name = name;
      kind = kind;
      captured_at = none;
      status = status;
      error = none;
      root_partition = none;
      sector_size = 512;
      deleted = false;
    } in
    (
      (sector_size row.sector_size >>= λ size. ok (image_with row [] size)),
      record db { next_image_id = suc db.next_image_id; images = db.images ++ row ∷ [] },
    )

unfoldable pub create_image : Text → ImageKind → Db → Result Image × Db
unfolding insert
create_image name kind = insert name kind empty

unfoldable pub start_import : Text → ImageKind → Db → Result Image × Db
unfolding insert
start_import name kind = insert name kind importing

-- `UPDATE images SET … WHERE id = ?`.
unfoldable pub update_image : ℕ → (ImageRow → ImageRow) → Db → Db
update_image id f db = record db { images = update_where (is_image_row id) f db.images }

-- The row is returned as it is after the update.
unfoldable pub update_name : ℕ → Text → Db → Result Image × Db
unfolding update_image read_found
update_name id name db =
    let updated = update_image id (λ i. record i { name = name }) db in
    (read_found updated (find (is_image_row id) updated.images), updated)

abbrev pub has_number : Option ℕ → List ImagePartition → Bool
has_number none partitions = true
has_number (some n) partitions = any (λ p. p.partition_number == n) partitions

no_partition_of : ℕ → Option ℕ → AppError
no_partition_of id none = invalid_argument []
no_partition_of id (some n) =
    invalid_argument (text "image " ++ decimal id ++ text " has no partition " ++ decimal n)

pub set_root : ℕ → Option ℕ → Db → Result Image → Result Image × Db
unfolding update_image no_partition_of
set_root id partition_number db (err e) = (err e, db)
set_root id partition_number db (ok image) =
    let updated = update_image id (λ i. record i { root_partition = partition_number }) db in
    if has_number partition_number image.partitions
    then (get id updated, updated)
    else (err (no_partition_of id partition_number), db)

unfoldable pub set_root_partition : ℕ → Option ℕ → Db → Result Image × Db
unfolding set_root
set_root_partition id partition_number db = set_root id partition_number db (get id db)

abbrev pub is_partition : ℕ → ℕ → ImagePartitionRow → Bool
is_partition image_id partition_number p =
    p.image_id == image_id && p.partition_number == partition_number

-- An insertion into `image_partitions`, with the messages of its two constraints.
unfoldable pub insert_partition : Text → Text → ImagePartitionRow → Db → Result Db
insert_partition unique foreign row db = do
  ensure (not (any (is_partition row.image_id row.partition_number) db.image_partitions))
      (from_sqlx (database_error (unique_violation unique)))
  ensure (any (is_image_row row.image_id) db.images)
      (from_sqlx (database_error (foreign_key_violation foreign)))
  ok (record db {
    next_partition_id = suc db.next_partition_id;
    image_partitions = db.image_partitions ++ row ∷ [];
  })

abbrev pub saved : Db → ImagePartitionRow → Result Db → Result ImagePartition × Db
saved db row (err e) = (err e, db)
saved db row (ok d) = (ok (partition_of_row row), d)

unfoldable pub save_partition :
    Text → Text → ℕ → ℕ → Text → ℤ → Option Text → Option Text → Db → Result ImagePartition × Db
unfolding insert_partition
save_partition unique foreign image_id partition_number fstype size_bytes fs_uuid fs_label db =
    let row : ImagePartitionRow = record {
      id = db.next_partition_id;
      image_id = image_id;
      partition_number = partition_number;
      fstype = fstype;
      size_bytes = size_bytes;
      fs_uuid = fs_uuid;
      fs_label = fs_label;
    } in
    saved db row (insert_partition unique foreign row db)

unfoldable pub delete_image : ℕ → Db → Db
unfolding update_image
delete_image id db =
    let updated = update_image id (λ i. record i { deleted = true }) db in
    record updated { image_scripts = keep (λ s. not (s.image_id == id)) db.image_scripts }

unfoldable pub start_capture : ℕ → ℕ → Db → Db
unfolding update_image
start_capture id sector_size db =
    let updated =
      update_image id
        (λ i. record i { status = capturing; root_partition = none; sector_size = sector_size })
        db in
    record updated {
      image_partitions = keep (λ p. not (p.image_id == id)) db.image_partitions;
      image_scripts =
          update_where (λ s. s.image_id == id) (λ s. record s { root_partition = none })
            db.image_scripts;
    }

unfoldable pub mark_image_finished : ℕ → ℕ → Db → Db
unfolding update_image
mark_image_finished now id =
    update_image id (λ i. record i { status = ready; captured_at = some now })

unfoldable pub mark_faulted : ℕ → Text → Db → Db
unfolding update_image
mark_faulted id error = update_image id (λ i. record i { status = faulted; error = some error })

unfoldable pub fault_unfinished_imports : Text → Db → Db
fault_unfinished_imports error db = record db {
  images =
      update_where (λ i. is_status i.status importing)
        (λ i. record i { status = faulted; error = some error }) db.images;
}

out_of_range : ℕ → ℕ → AppError
out_of_range number size = invalid_argument (
    text "partition " ++ decimal number ++ text " size " ++ decimal size ++ text " is out of range")

pub insert_partitions : Text → Text → ℕ → List NewImagePartition → Db → Result Db
unfolding insert_partition out_of_range
insert_partitions unique foreign id [] db = ok db
insert_partitions unique foreign id (p ∷ ps) db = do
  ensure (ltb p.size_bytes 9223372036854775808) (out_of_range p.partition_number p.size_bytes)
  d ←
      insert_partition unique foreign
        (record {
          id = db.next_partition_id;
          image_id = id;
          partition_number = p.partition_number;
          fstype = p.fstype;
          size_bytes = pos p.size_bytes;
          fs_uuid = p.fs_uuid;
          fs_label = p.fs_label;
        })
        db
  insert_partitions unique foreign id ps d

committed : ℕ → Db → Result Db → Result Image × Db
committed id db (err e) = (err e, db)
committed id db (ok d) = (get id d, d)

-- The transaction of `finish_import`.
imported : Text → Text → ℕ → Option ℕ → List NewImagePartition → Option ℕ → ℕ → Db → Result Db
unfolding insert_partitions
imported unique foreign id captured_at partitions root_partition sector_size db = do
  d ← insert_partitions unique foreign id partitions db
  ensure (any (λ i. is_image_row id i && not i.deleted) d.images)
      (not_found (text "image " ++ decimal id))
  ok (record d {
    images =
        update_where (λ i. is_image_row id i && not i.deleted)
          (λ i. record i {
            status = ready;
            captured_at = captured_at;
            root_partition = root_partition;
            sector_size = sector_size;
          })
          d.images;
  })

unfoldable pub finish_import :
    Text → Text → ℕ → Option ℕ → List NewImagePartition → Option ℕ → ℕ → Db → Result Image × Db
unfolding imported committed
finish_import unique foreign id captured_at partitions root_partition sector_size db =
    committed id db
      (imported unique foreign id captured_at partitions root_partition sector_size db)
