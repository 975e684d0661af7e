-- ===== src/Store/Images/Roots/Invariant.antt =====
-- Every sequence of the repository's calls keeps the root partitions
-- (crates/core/src/repository/image.rs).
use imaged.Base.{
  ℕ, ◌==◌, ==→eq, Bool, true, false, not, ◌&&◌, Option, none, some, List, [], ◌∷◌, any, all, ◌≡◌,
  refl, sym, ap, ◌∙◌, inl, inr, Bool-cases,
}
use imaged.Base.Sublists.{all_mono, all-update_where}
use imaged.Text.{Text}
use imaged.Error.{AppError, Result, ok, err, ensure, bind_ok, ensure_ok, ok_injective}
use imaged.Image.{NewImagePartition}
use imaged.Store.{ImagePartitionRow, Db}
use imaged.Store.Images
use imaged.Store.Images.Roots.{
  root_in, root_stored, roots_stored, ImageCall, create_image, start_import, update_name,
  set_root_partition, save_partition, delete_image, start_capture, mark_finished, mark_faulted,
  finish_import, fault_unfinished_imports, is_listed, check_root, received, call, call_all,
  root_in_mono, roots_stored-update, roots_stored-insert, roots_stored-set, roots_stored-delete,
  roots_stored-fault, roots_stored-start_capture,
}
use imaged.Store.Images.Inserted.{
  IsGrown, insert_partition-IsGrown, insert_partitions-IsGrown, insert_partitions-stored,
}

roots_stored-IsGrown : (db d : Db) → IsGrown db d → roots_stored db ≡ true → roots_stored d ≡ true
unfolding roots_stored
roots_stored-IsGrown db d g h =
    ap (all (root_stored d.image_partitions)) g.images
    ∙ all_mono (root_stored db.image_partitions) (root_stored d.image_partitions)
        (λ i.
          root_in_mono db.image_partitions d.image_partitions i.id
            (λ n. g.more (Images.is_partition i.id n)) i.root_partition)
        db.images h

roots_stored-saved :
    (unique foreign : Text) (row : ImagePartitionRow) (db : Db) (r : Result Db)
    → Images.insert_partition unique foreign row db ≡ r
    → roots_stored db ≡ true
    → roots_stored (Images.saved db row r).1 ≡ true
roots_stored-saved unique foreign row db (err f) e h = h
roots_stored-saved unique foreign row db (ok d) e h =
    roots_stored-IsGrown db d (insert_partition-IsGrown unique foreign row db d e) h

ensured : (b : Bool) (e : AppError) → ensure b e ≡ ok tt → b ≡ true
ensured true e h = refl
ensured false e h = cc

stored-import :
    (unique foreign : Text) (id : ℕ) (ps : List NewImagePartition) (root : Option ℕ) (db d : Db)
    → Images.insert_partitions unique foreign id ps db ≡ ok d
    → check_root root ps ≡ ok tt
    → root_in d.image_partitions id root ≡ true
unfolding check_root
stored-import unique foreign id ps none db d e h = refl
stored-import unique foreign id ps (some n) db d e h =
    insert_partitions-stored unique foreign id n ps db d e (ensured (is_listed n ps) _ h)

roots_stored-imported :
    (unique foreign : Text) (id : ℕ) (at : Option ℕ) (ps : List NewImagePartition) (root : Option ℕ)
    (size : ℕ) (db : Db)
    → check_root root ps ≡ ok tt
    → roots_stored db ≡ true
    → (d : Db) → Images.imported unique foreign id at ps root size db ≡ ok d
    → roots_stored d ≡ true
unfolding Images.imported roots_stored
roots_stored-imported unique foreign id at ps root size db listed h d e =
    let (c, e1, e2) = bind_ok (Images.insert_partitions unique foreign id ps db) _ d e in
    let (_, e3) =
      ensure_ok (any (λ i. Images.is_image_row id i && not i.deleted) c.images) _ _ e2 in
    let kept =
      roots_stored-IsGrown db c (insert_partitions-IsGrown unique foreign id ps db c e1) h in
    let stored = stored-import unique foreign id ps root db c e1 listed in
    ap (λ x. all (root_stored x.image_partitions) x.images) (sym (ok_injective _ d e3))
    ∙ all-update_where (root_stored c.image_partitions) (root_stored c.image_partitions)
        (λ i. Images.is_image_row id i && not i.deleted)
        (λ i. record i {
          status = Images.ready;
          captured_at = at;
          root_partition = root;
          sector_size = size;
        })
        (λ i k. elim (Bool-cases (i.id == id)) [
          | inl t ↦ elim (Bool-cases i.deleted) [
            | inl g ↦ rw (t, g) k
            | inr g ↦ rw (t, g, ==→eq i.id id t) stored
          ]
          | inr f ↦ rw f k
        ])
        c.images kept

roots_stored-committed :
    (id : ℕ) (db : Db) (r : Result Db)
    → ((d : Db) → r ≡ ok d → roots_stored d ≡ true)
    → roots_stored db ≡ true
    → roots_stored (Images.committed id db r).1 ≡ true
unfolding Images.committed
roots_stored-committed id db (err f) k h = h
roots_stored-committed id db (ok d) k h = k d refl

roots_stored-received :
    (unique foreign : Text) (id : ℕ) (at : Option ℕ) (ps : List NewImagePartition) (root : Option ℕ)
    (size : ℕ) (db : Db) (r : Result (Unit {0}))
    → check_root root ps ≡ r
    → roots_stored db ≡ true
    → roots_stored (received unique foreign id at ps root size db) ≡ true
unfolding received Images.finish_import
roots_stored-received unique foreign id at ps root size db (err f) e h = rw (e, received) h
roots_stored-received unique foreign id at ps root size db (ok valid) e h =
    rw (e, received)
      (roots_stored-committed id db (Images.imported unique foreign id at ps root size db)
        (roots_stored-imported unique foreign id at ps root size db e h) h)

roots_stored-call :
    (unique foreign : Text) (c : ImageCall) (db : Db)
    → roots_stored db ≡ true
    → roots_stored (call unique foreign c db) ≡ true
unfolding call Images.create_image Images.start_import Images.update_name Images.set_root_partition
    Images.save_partition Images.mark_image_finished Images.mark_faulted
roots_stored-call unique foreign (create_image name kind) db h =
    roots_stored-insert name kind Images.empty db h
roots_stored-call unique foreign (start_import name kind) db h =
    roots_stored-insert name kind Images.importing db h
roots_stored-call unique foreign (update_name id name) db h =
    roots_stored-update id (λ i. record i { name = name }) db (λ i. (refl, refl)) h
roots_stored-call unique foreign (set_root_partition id n) db h =
    roots_stored-set id n db (Images.get id db) refl h
roots_stored-call unique foreign (save_partition id n fstype size uuid label) db h =
    roots_stored-saved unique foreign _ db _ refl h
roots_stored-call unique foreign (delete_image id) db h = roots_stored-delete id db h
roots_stored-call unique foreign (start_capture id size) db h =
    roots_stored-start_capture id size db h
roots_stored-call unique foreign (mark_finished now id) db h =
    roots_stored-update id (λ i. record i { status = Images.ready; captured_at = some now }) db
      (λ i. (refl, refl)) h
roots_stored-call unique foreign (mark_faulted id e) db h =
    roots_stored-update id (λ i. record i { status = Images.faulted; error = some e }) db
      (λ i. (refl, refl)) h
roots_stored-call unique foreign (finish_import id at ps root size) db h =
    roots_stored-received unique foreign id at ps root size db (check_root root ps) refl h
roots_stored-call unique foreign (fault_unfinished_imports e) db h = roots_stored-fault e db h

-- Through every sequence of the calls on images that the program makes, imports of archives among
-- them, each image's root partition, when it has one, stays a stored partition of that image: if it
-- holds before, it holds after.
pub roots_stored-call_all :
    (unique foreign : Text) (cs : List ImageCall) (db : Db)
    → roots_stored db ≡ true
    → roots_stored (call_all unique foreign cs db) ≡ true
unfolding call_all
roots_stored-call_all unique foreign [] db h = h
roots_stored-call_all unique foreign (c ∷ cs) db h =
    roots_stored-call_all unique foreign cs (call unique foreign c db)
      (roots_stored-call unique foreign c db h)
