-- ===== src/Store/Images/Grouped/Reads.antt =====
-- The grouping of the joined rows (crates/core/src/repository/image.rs, `get_all`) against a read
-- of each image on its own.
use imaged.Base.{
  ℕ, Bool, true, false, not, none, some, List, [], ◌∷◌, ◌++◌, map, keep, any, ◌≡◌, refl, sym, ap,
  ◌∙◌, arith,
}
use imaged.Base.Assoc.{Assoc}
use imaged.Base.Assoc
use mathlib.Core.List.{append-nil, append_assoc}
use imaged.Base.Distinct.{is_at, is_distinct, is_distinct-keep, is_distinct-sort_by, remove-absent}
use imaged.Base.Sublists.{any-append}
use imaged.Error.{Result, ok, err, ◌>>=◌}
use imaged.Image.{Image}
use imaged.Store.{ImageRow, Db}
use imaged.Store.Images
use imaged.Store.Images.Grouped
use imaged.Store.Images.Grouped.Entries.{pairs, ids, grouping, group_image, group_rows-append}

-- Each image read on its own, the first failure ending all.
unfoldable pub read_images : Db → List ImageRow → Result (List Image)
read_images db [] = ok []
read_images db (i ∷ is) =
    Images.read_image db i >>= λ image. read_images db is >>= λ images. ok (image ∷ images)

get-pairs :
    (id : ℕ) (done : List Image)
    → any (is_at (λ i. i.id) id) done ≡ false
    → Assoc.get id (pairs done) ≡ none
unfolding pairs Assoc.get
get-pairs id [] h = refl
get-pairs id (d ∷ done) h = ground (arith, get-pairs id done)

-- The images come out in the order in which they came.
taken-grouping :
    (done : List Image)
    → is_distinct (λ i. i.id) done ≡ true
    → Grouped.taken (ids done) (pairs done) ≡ done
unfolding Grouped.taken pairs ids is_distinct Assoc.get Assoc.remove
taken-grouping [] h = refl
taken-grouping (d ∷ done) h =
    let absent = get-pairs d.id done (ground arith) in
    let found : Assoc.get d.id ((d.id, d) ∷ pairs done) ≡ some d = ground arith in
    let removed : Assoc.remove d.id ((d.id, d) ∷ pairs done) ≡ pairs done =
      ground (arith, remove-absent d.id (pairs done) absent) in
    ap
      (λ o.
        Grouped.cons_some o (Grouped.taken (ids done) (Assoc.remove d.id ((d.id, d) ∷ pairs done))))
      found
    ∙ ap (λ m. d ∷ Grouped.taken (ids done) m) removed
    ∙ ap (◌∷◌ d) (taken-grouping done (ground arith))

abbrev apart_from : List Image → List ImageRow → Bool
apart_from done is = not (any (λ i. any (is_at (λ image. image.id) i.id) done) is)

apart_from-snoc :
    (done : List Image) (image : Image) (is : List ImageRow)
    → apart_from done is ≡ true
    → any (is_at (λ i. i.id) image.id) is ≡ false
    → apart_from (done ++ image ∷ []) is ≡ true
apart_from-snoc done image [] a b = refl
apart_from-snoc done image (i ∷ is) a b =
    let rest = apart_from-snoc done image is (ground arith) (ground arith) in
    let here = any-append (is_at (λ image. image.id) i.id) done (image ∷ []) in ground arith

is_distinct-snoc :
    (done : List Image) (image : Image)
    → is_distinct (λ i. i.id) done ≡ true
    → any (is_at (λ i. i.id) image.id) done ≡ false
    → is_distinct (λ i. i.id) (done ++ image ∷ []) ≡ true
unfolding is_distinct
is_distinct-snoc [] image h a = refl
is_distinct-snoc (d ∷ done) image h a =
    let rest = is_distinct-snoc done image (ground arith) (ground arith) in
    let here = any-append (is_at (λ i. i.id) d.id) done (image ∷ []) in ground arith

abbrev came : Result Grouped.Grouping → Result (List Image)
came r = r >>= λ g. ok (Grouped.taken g.image_ids g.images_map)

abbrev after : List Image → Result (List Image) → Result (List Image)
after done r = r >>= λ images. ok (done ++ images)

after-snoc :
    (done : List Image) (image : Image) (r : Result (List Image))
    → after (done ++ image ∷ []) r ≡ after done (r >>= λ images. ok (image ∷ images))
after-snoc done image (err e) = refl
after-snoc done image (ok images) = ap ok (append_assoc done (image ∷ []) images)

bind_ok-id : (r : Result (List Image)) → after [] r ≡ r
bind_ok-id (err e) = refl
bind_ok-id (ok images) = refl

none_apart : (is : List ImageRow) → apart_from [] is ≡ true
none_apart [] = refl
none_apart (i ∷ is) = none_apart is

group_rows-read :
    (db : Db) (is : List ImageRow) (done : List Image)
    → is_distinct (λ i. i.id) done ≡ true
    → is_distinct (λ i. i.id) is ≡ true
    → apart_from done is ≡ true
    → came (Grouped.group_rows (Grouped.rows_of db is) (grouping done))
      ≡ after done (read_images db is)
unfolding Grouped.group_rows read_images is_distinct grouping Images.get_partitions
    Images.read_image
group_rows-read db [] done hd hi ha = ap ok (taken-grouping done hd ∙ sym (append-nil done))
group_rows-read db (i ∷ is) done hd hi ha =
    let rows = Images.partition_rows i.id db in
    ap came (
      group_rows-append (Grouped.rows_of_image i rows) (Grouped.rows_of db is) (grouping done)
      ∙ ap (◌>>= Grouped.group_rows (Grouped.rows_of db is))
          (group_image i rows done (get-pairs i.id done (ground arith))))
    ∙ step (Images.sector_size i.sector_size) (λ size.
      let image = Images.image_with i (map Images.partition_of_row rows) size in
      let fresh : any (is_at (λ image. image.id) i.id) done ≡ false = ground arith in
      let others : any (is_at (λ i. i.id) i.id) is ≡ false = ground arith in
      group_rows-read db is (done ++ image ∷ []) (is_distinct-snoc done image hd fresh)
        (ground arith) (apart_from-snoc done image is (ground arith) others))
  where
    step :
        (r : Result ℕ)
        → ((size : ℕ)
            → came (
                Grouped.group_rows (Grouped.rows_of db is) (
                  grouping (done ++ Images.image_with i (Images.get_partitions i.id db) size ∷ [])))
              ≡ after
                  (done ++ Images.image_with i (Images.get_partitions i.id db) size ∷ [])
                  (read_images db is))
        → came (
            r
            >>= (λ size.
                ok (
                  grouping (done ++ Images.image_with i (Images.get_partitions i.id db) size ∷ [])))
            >>= Grouped.group_rows (Grouped.rows_of db is))
          ≡ after done (
              r
              >>= (λ size. ok (Images.image_with i (Images.get_partitions i.id db) size))
              >>= λ image. read_images db is >>= λ images. ok (image ∷ images))
    step (err e) ih = refl
    step (ok size) ih =
        ih size
        ∙ after-snoc done (Images.image_with i (Images.get_partitions i.id db) size)
            (read_images db is)

-- Where no two images share an id, the grouping of the join's rows gives what a read of each
-- undeleted image on its own gives, in the order of the ids, the first stored sector size out of
-- range ending both with the same error.
pub get_all-read_images :
    (db : Db)
    → is_distinct (λ i. i.id) db.images ≡ true
    → Grouped.get_all db ≡ read_images db (Grouped.present db)
unfolding Grouped.get_all grouping is_distinct pairs ids
get_all-read_images db h =
    let kept = is_distinct-keep (λ i. i.id) (λ i. not i.deleted) db.images h in
    group_rows-read db (Grouped.present db) [] refl
      (is_distinct-sort_by (λ i. i.id) (keep (λ (i : ImageRow). not i.deleted) db.images) kept)
      (none_apart (Grouped.present db))
    ∙ bind_ok-id (read_images db (Grouped.present db))
