-- ===== src/Store/Images/Inserted.antt =====
-- What the insertion of partitions leaves and adds (crates/core/src/repository/image.rs).
use imaged.Base.{
  ℕ, ltb, ◌==◌, Bool, true, not, List, [], ◌∷◌, ◌++◌, any, ◌≡◌, sym, ap, ◌∙◌, arith, inl, inr,
  Bool-cases,
}
use imaged.Base.Int.{pos}
use imaged.Base.Sublists.{any-append}
use imaged.Text.{Text}
use imaged.Error.{ok, ensure_ok, ok_injective, bind_ok}
use imaged.Image.{NewImagePartition}
use imaged.Store.{ImagePartitionRow, Db}
use imaged.Store.Images

-- An insertion adds its row and leaves the images.
insert_partition-ok :
    (unique foreign : Text) (row : ImagePartitionRow) (db d : Db)
    → Images.insert_partition unique foreign row db ≡ ok d
    → (d.images ≡ db.images) × (d.image_partitions ≡ db.image_partitions ++ row ∷ [])
unfolding Images.insert_partition
insert_partition-ok unique foreign row db d e =
    let (_, e1) =
      ensure_ok
        (not (any (Images.is_partition row.image_id row.partition_number) db.image_partitions)) _ _
        e in
    let (_, e2) = ensure_ok (any (Images.is_image_row row.image_id) db.images) _ _ e1 in
    let same = ok_injective _ d e2 in
    (ap (λ x. x.images) (sym same), ap (λ x. x.image_partitions) (sym same))

any-snoc :
    {A : Type 0} (p : A → Bool) (xs : List A) (x : A)
    → any p xs ≡ true
    → any p (xs ++ x ∷ []) ≡ true
any-snoc p xs x h = any-append p xs (x ∷ []) ∙ ground arith

pub record IsGrown (db d : Db) : Type 0 where
  pub images : d.images ≡ db.images
  pub more :
      (p : ImagePartitionRow → Bool)
      → any p db.image_partitions ≡ true
      → any p d.image_partitions ≡ true

pub insert_partition-IsGrown :
    (unique foreign : Text) (row : ImagePartitionRow) (db d : Db)
    → Images.insert_partition unique foreign row db ≡ ok d
    → IsGrown db d
insert_partition-IsGrown unique foreign row db d e =
    let (same, added) = insert_partition-ok unique foreign row db d e in
    record { images = same; more = λ p h. ap (any p) added ∙ any-snoc p db.image_partitions row h }

row_of_new : ℕ → NewImagePartition → Db → ImagePartitionRow
row_of_new id p db = record {
  id = db.next_partition_id;
  image_id = id;
  partition_number = p.partition_number;
  fstype = p.fstype;
  size_bytes = pos p.size_bytes;
  fs_uuid = p.fs_uuid;
  fs_label = p.fs_label;
}

insert_partitions-cons :
    (unique foreign : Text) (id : ℕ) (p : NewImagePartition) (ps : List NewImagePartition)
    (db d : Db)
    → Images.insert_partitions unique foreign id (p ∷ ps) db ≡ ok d
    → (c : Db) × (Images.insert_partition unique foreign (row_of_new id p db) db ≡ ok c)
      × (Images.insert_partitions unique foreign id ps c ≡ ok d)
unfolding Images.insert_partitions row_of_new
insert_partitions-cons unique foreign id p ps db d e =
    let (_, e1) = ensure_ok (ltb p.size_bytes 9223372036854775808) _ _ e in
    bind_ok (Images.insert_partition unique foreign (row_of_new id p db) db) _ d e1

pub insert_partitions-IsGrown :
    (unique foreign : Text) (id : ℕ) (ps : List NewImagePartition) (db d : Db)
    → Images.insert_partitions unique foreign id ps db ≡ ok d
    → IsGrown db d
unfolding Images.insert_partitions
insert_partitions-IsGrown unique foreign id [] db d e =
    let same = ok_injective db d e in
    record {
      images = ap (λ x. x.images) (sym same);
      more = λ q h. ap (λ x. any q x.image_partitions) (sym same) ∙ h;
    }
insert_partitions-IsGrown unique foreign id (p ∷ ps) db d e =
    let (c, e1, e2) = insert_partitions-cons unique foreign id p ps db d e in
    let first = insert_partition-IsGrown unique foreign (row_of_new id p db) db c e1 in
    let rest = insert_partitions-IsGrown unique foreign id ps c d e2 in
    record { images = rest.images ∙ first.images; more = λ q h. rest.more q (first.more q h) }

first_stored :
    (unique foreign : Text) (id n : ℕ) (p : NewImagePartition) (db c : Db)
    → Images.insert_partition unique foreign (row_of_new id p db) db ≡ ok c
    → (p.partition_number == n) ≡ true
    → any (Images.is_partition id n) c.image_partitions ≡ true
unfolding row_of_new
first_stored unique foreign id n p db c e t =
    let (_, added) = insert_partition-ok unique foreign (row_of_new id p db) db c e in
    ap (any (Images.is_partition id n)) added
    ∙ any-append (Images.is_partition id n) db.image_partitions (row_of_new id p db ∷ [])
    ∙ ground arith

-- The rows of the new partitions are stored.
pub insert_partitions-stored :
    (unique foreign : Text) (id n : ℕ) (ps : List NewImagePartition) (db d : Db)
    → Images.insert_partitions unique foreign id ps db ≡ ok d
    → any (λ p. p.partition_number == n) ps ≡ true
    → any (Images.is_partition id n) d.image_partitions ≡ true
insert_partitions-stored unique foreign id n [] db d e h = cc
insert_partitions-stored unique foreign id n (p ∷ ps) db d e h =
    let (c, e1, e2) = insert_partitions-cons unique foreign id p ps db d e in
    let rest = insert_partitions-IsGrown unique foreign id ps c d e2 in
    elim (Bool-cases (p.partition_number == n)) [
      | inl t ↦ rest.more (Images.is_partition id n) (first_stored unique foreign id n p db c e1 t)
      | inr f ↦ insert_partitions-stored unique foreign id n ps c d e2 (ground arith)
    ]
