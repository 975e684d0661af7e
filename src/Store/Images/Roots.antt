-- ===== src/Store/Images/Roots.antt =====
-- The root partition of an image (crates/core/src/repository/image.rs): which partition of the
-- image holds the root file system.
pub mod Invariant
use imaged.Base.{
  ℕ, ◌==◌, ==→eq, Bool, true, false, not, ◌&&◌, Option, none, some, List, All, [], ◌∷◌, ◌++◌, find,
  Option-cases, map, any, all, keep, update_where, any_mono, any-map-keep, if◌then◌else◌, ◌≡◌, refl,
  sym, ap, ◌∙◌, arith, inl, inr, Bool-cases,
}
use imaged.Base.Int.{ℤ, pos}
use imaged.Base.Sorting.{any-sort_by}
use imaged.Base.Sublists.{
  any-map, any-keep_and, find-holds, any-append, any-keep, all-append, all_mono, all-update_where,
}
use imaged.Text.{Text, text, decimal}
use imaged.Error.{
  Result, ok, err, invalid_argument, bind_ok, ensure_ok, ok_injective, ensure, ◌>>=◌,
}
use imaged.Task.{ImageKind}
use imaged.Image.{is_status, ImageStatus, Image, ImagePartition, NewImagePartition}
use imaged.Store.{ImageRow, ImagePartitionRow, Db}
use imaged.Store.Images
use imaged.Store.Images.Inserted.{
  IsGrown, insert_partition-IsGrown, insert_partitions-IsGrown, insert_partitions-stored,
}

abbrev pub root_in : List ImagePartitionRow → ℕ → Option ℕ → Bool
root_in partitions id none = true
root_in partitions id (some n) = any (Images.is_partition id n) partitions

abbrev pub root_stored : List ImagePartitionRow → ImageRow → Bool
root_stored partitions i = root_in partitions i.id i.root_partition

-- Each image's root partition, when it has one, is a stored partition of that image.
unfoldable pub roots_stored : Db → Bool
roots_stored db = all (root_stored db.image_partitions) db.images

-- A call of the repository, with what it is given.
pub data ImageCall : Type 0 where
  create_image start_import : Text → ImageKind → ImageCall
  update_name : ℕ → Text → ImageCall
  set_root_partition : ℕ → Option ℕ → ImageCall
  save_partition : ℕ → ℕ → Text → ℤ → Option Text → Option Text → ImageCall
  delete_image : ℕ → ImageCall
  start_capture : ℕ → ℕ → ImageCall
  mark_finished : ℕ → ℕ → ImageCall
  mark_faulted : ℕ → Text → ImageCall
  finish_import : ℕ → Option ℕ → List NewImagePartition → Option ℕ → ℕ → ImageCall
  fault_unfinished_imports : Text → ImageCall

abbrev pub is_listed : ℕ → List NewImagePartition → Bool
is_listed n partitions = any (λ p. p.partition_number == n) partitions

-- The test of `Manifest::validate` on the root partition, over the partitions that `partitions`
-- makes of the archived ones (crates/archive/src/manifest.rs, crates/core/src/service/archive.rs).
unfoldable pub check_root : Option ℕ → List NewImagePartition → Result (Unit {0})
check_root none partitions = ok tt
check_root (some root) partitions = ensure (is_listed root partitions) (
    invalid_argument
      (text "root partition " ++ (decimal root ++ text " is not one of the archived partitions")))

-- The one caller of `finish_import` is `ArchiveService::receive`, with what a manifest holds that
-- was validated; any other manifest is refused before the image is begun.
unfoldable pub received :
    Text → Text → ℕ → Option ℕ → List NewImagePartition → Option ℕ → ℕ → Db → Db
unfolding check_root
received unique foreign id captured_at partitions root size db = elim (check_root root partitions) [
  | ok valid ↦ (Images.finish_import unique foreign id captured_at partitions root size db).1
  | err e ↦ db
]

module _ (unique foreign : Text) where
  unfoldable pub call : ImageCall → Db → Db
  call (create_image name kind) db = (Images.create_image name kind db).1
  call (start_import name kind) db = (Images.start_import name kind db).1
  call (update_name id name) db = (Images.update_name id name db).1
  call (set_root_partition id n) db = (Images.set_root_partition id n db).1
  call (save_partition id n fstype size uuid label) db =
      (Images.save_partition unique foreign id n fstype size uuid label db).1
  call (delete_image id) db = Images.delete_image id db
  call (start_capture id size) db = Images.start_capture id size db
  call (mark_finished now id) db = Images.mark_image_finished now id db
  call (mark_faulted id e) db = Images.mark_faulted id e db
  call (finish_import id at partitions root size) db =
      received unique foreign id at partitions root size db
  call (fault_unfinished_imports e) db = Images.fault_unfinished_imports e db

  unfoldable pub call_all : List ImageCall → Db → Db
  call_all [] db = db
  call_all (c ∷ cs) db = call_all cs (call c db)

pub root_in_mono :
    (ps qs : List ImagePartitionRow) (id : ℕ)
    → ((n : ℕ)
        → any (Images.is_partition id n) ps ≡ true
        → any (Images.is_partition id n) qs ≡ true)
    → (root : Option ℕ) → root_in ps id root ≡ true
    → root_in qs id root ≡ true
root_in_mono ps qs id more none h = h
root_in_mono ps qs id more (some n) h = more n h

any-get_partitions :
    (id n : ℕ) (db : Db)
    → any (λ p. p.partition_number == n) (Images.get_partitions id db) ≡ true
    → any (Images.is_partition id n) db.image_partitions ≡ true
unfolding Images.get_partitions
any-get_partitions id n db h =
    let kept = keep (λ p. p.image_id == id) db.image_partitions in
    sym (any-keep_and (λ p. p.partition_number == n) (λ p. p.image_id == id) db.image_partitions)
    ∙ sym (any-sort_by (λ p. p.partition_number) (λ p. p.partition_number == n) kept)
    ∙ sym (
        any-map (λ p. p.partition_number == n) Images.partition_of_row
          (Images.partition_rows id db))
    ∙ h

-- A statement that changes no root keeps the roots.
pub roots_stored-update :
    (id : ℕ) (f : ImageRow → ImageRow) (db : Db)
    → ((i : ImageRow) → ((f i).id ≡ i.id) × ((f i).root_partition ≡ i.root_partition))
    → roots_stored db ≡ true
    → roots_stored (Images.update_image id f db) ≡ true
unfolding roots_stored Images.update_image
roots_stored-update id f db same =
    all-update_where (root_stored db.image_partitions) (root_stored db.image_partitions)
      (Images.is_image_row id) f (λ i h. ground (arith, same i)) db.images

pub roots_stored-insert :
    (name : Text) (kind : ImageKind) (status : ImageStatus) (db : Db)
    → roots_stored db ≡ true
    → roots_stored (Images.insert name kind status db).1 ≡ true
unfolding roots_stored Images.insert
roots_stored-insert name kind status db h =
    all-append (root_stored db.image_partitions) db.images _ ∙ ground arith

partitions_of_ok :
    (r : Result ℕ) (j : ImageRow) (ps : List ImagePartition) (i : Image)
    → (r >>= λ size. ok (Images.image_with j ps size)) ≡ ok i
    → i.partitions ≡ ps
partitions_of_ok (err f) j ps i e = cc
partitions_of_ok (ok n) j ps i e =
    ap (λ image. image.partitions) (sym (ok_injective (Images.image_with j ps n) i e))

image_of_found :
    (id : ℕ) (db : Db) (i : Image) (found : Option ImageRow)
    → ((j : ImageRow) → found ≡ some j → (j.id == id) ≡ true)
    → Images.read_found db found ≡ ok i
    → i.partitions ≡ Images.get_partitions id db
unfolding Images.read_found Images.read_image
image_of_found id db i none is_it e = cc
image_of_found id db i (some j) is_it e =
    rw (sym (==→eq j.id id (is_it j refl)))
      (partitions_of_ok (Images.sector_size j.sector_size) j (Images.get_partitions j.id db) i e)

partitions-get :
    (id : ℕ) (db : Db) (i : Image)
    → Images.get id db ≡ ok i
    → i.partitions ≡ Images.get_partitions id db
unfolding Images.get
partitions-get id db i =
    image_of_found id db i (find (λ i. Images.is_image_row id i && not i.deleted) db.images) (λ j f.
      let t = find-holds (λ i. Images.is_image_row id i && not i.deleted) db.images j f in
      ground arith)

-- A root that is set is one of the image's stored partitions.
roots_stored-root :
    (id : ℕ) (root : Option ℕ) (db : Db)
    → root_in db.image_partitions id root ≡ true
    → roots_stored db ≡ true
    → roots_stored (Images.update_image id (λ i. record i { root_partition = root }) db) ≡ true
unfolding roots_stored Images.update_image
roots_stored-root id root db r =
    all-update_where (root_stored db.image_partitions) (root_stored db.image_partitions)
      (Images.is_image_row id) (λ i. record i { root_partition = root })
      (λ i h. elim (Bool-cases (i.id == id)) [ inl e ↦ rw (e, ==→eq i.id id e) r | inr e ↦ rw e h ])
      db.images

pub roots_stored-set :
    (id : ℕ) (root : Option ℕ) (db : Db) (r : Result Image)
    → Images.get id db ≡ r
    → roots_stored db ≡ true
    → roots_stored (Images.set_root id root db r).1 ≡ true
unfolding Images.set_root
roots_stored-set id root db (err e) g h = h
roots_stored-set id none db (ok i) g h = roots_stored-root id none db refl h
roots_stored-set id (some n) db (ok i) g h =
    elim (Bool-cases (Images.has_number (some n) i.partitions)) [
      | inl e ↦
          let held =
            any-get_partitions id n db
              (ap (any (λ p. p.partition_number == n)) (sym (partitions-get id db i g)) ∙ e) in
          rw e (roots_stored-root id (some n) db held h)
      | inr e ↦ rw e h
    ]

pub roots_stored-delete :
    (id : ℕ) (db : Db) → roots_stored db ≡ true → roots_stored (Images.delete_image id db) ≡ true
unfolding roots_stored Images.delete_image
roots_stored-delete id db h =
    roots_stored-update id (λ i. record i { deleted = true }) db (λ i. (refl, refl)) h

pub roots_stored-fault :
    (e : Text) (db : Db)
    → roots_stored db ≡ true
    → roots_stored (Images.fault_unfinished_imports e db) ≡ true
unfolding roots_stored Images.fault_unfinished_imports
roots_stored-fault e db =
    all-update_where (root_stored db.image_partitions) (root_stored db.image_partitions)
      (λ i. is_status i.status Images.importing)
      (λ i. record i { status = Images.faulted; error = some e })
      (λ i h. elim (Bool-cases (is_status i.status Images.importing)) [
        | inl t ↦ rw t h
        | inr f ↦ rw f h
      ])
      db.images

pub roots_stored-start_capture :
    (id size : ℕ) (db : Db)
    → roots_stored db ≡ true
    → roots_stored (Images.start_capture id size db) ≡ true
unfolding roots_stored Images.start_capture Images.update_image
roots_stored-start_capture id size db =
    let left = keep (λ p. not (p.image_id == id)) db.image_partitions in
    all-update_where (root_stored db.image_partitions) (root_stored left) (Images.is_image_row id)
      (λ i. record i { status = Images.capturing; root_partition = none; sector_size = size })
      (λ i h. elim (Bool-cases (i.id == id)) [
        | inl e ↦ rw e refl
        | inr e ↦ rw e (
            root_in_mono db.image_partitions left i.id
              (λ n.
                any-keep (Images.is_partition i.id n) (λ p. not (p.image_id == id))
                  db.image_partitions (λ p m. ground arith))
              i.root_partition h)
      ])
      db.images
