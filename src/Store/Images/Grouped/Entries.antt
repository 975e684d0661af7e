-- ===== src/Store/Images/Grouped/Entries.antt =====
-- What the rows of one image make of a grouping (crates/core/src/repository/image.rs, `get_all`).
use imaged.Base.{ℕ, Option, none, some, List, [], ◌∷◌, ◌++◌, map, ◌≡◌, refl, sym, ap, ◌∙◌, arith}
use imaged.Base.Assoc.{Assoc}
use imaged.Base.Assoc
use mathlib.Core.List.{append-nil, append_assoc}
use imaged.Base.Distinct.{insert-absent, insert-last, get-snoc}
use imaged.Error.{Result, ok, err, ◌>>=◌}
use imaged.Image.{Image, ImagePartition}
use imaged.Store.{ImageRow, ImagePartitionRow}
use imaged.Store.Images
use imaged.Store.Images.Grouped

unfoldable pub pairs : List Image → Assoc Image
pairs [] = []
pairs (i ∷ is) = (i.id, i) ∷ pairs is

unfoldable pub ids : List Image → List ℕ
ids = map (λ i. i.id)

-- The grouping that has come upon these images.
unfoldable pub grouping : List Image → Grouped.Grouping
grouping done = record { images_map = pairs done; image_ids = ids done }

unfoldable pub snoc : List Image → Image → Grouped.Grouping
snoc done i = record {
  images_map = pairs done ++ (i.id, i) ∷ [];
  image_ids = ids done ++ i.id ∷ [];
}

pairs-append :
    (done : List Image) (i : Image) → pairs (done ++ i ∷ []) ≡ pairs done ++ (i.id, i) ∷ []
unfolding pairs
pairs-append [] i = refl
pairs-append (d ∷ done) i = ap (◌∷◌ (d.id, d)) (pairs-append done i)

ids-append : (done : List Image) (i : Image) → ids (done ++ i ∷ []) ≡ ids done ++ i.id ∷ []
unfolding ids
ids-append [] i = refl
ids-append (d ∷ done) i = ap (◌∷◌ d.id) (ids-append done i)

grouping-snoc : (done : List Image) (i : Image) → grouping (done ++ i ∷ []) ≡ snoc done i
unfolding grouping snoc
grouping-snoc done i = rw (pairs-append done i, ids-append done i) refl

-- One more partition of the image that came last.
group_row-last :
    (i : ImageRow) (p : ImagePartitionRow) (done : List Image) (ps : List ImagePartition) (size : ℕ)
    → Assoc.get i.id (pairs done) ≡ none
    → Grouped.group_row
        (record { image = i; partition = some p })
        (snoc done (Images.image_with i ps size))
      ≡ ok (snoc done (Images.image_with i (ps ++ Images.partition_of_row p ∷ []) size))
unfolding Grouped.group_row Grouped.entry Grouped.pushed snoc
group_row-last i p done ps size absent =
    let image = Images.image_with i ps size in
    let row : Grouped.JoinedRow = record { image = i; partition = some p } in
    let found : Assoc.get i.id (pairs done ++ (i.id, image) ∷ []) ≡ some image =
      get-snoc i.id i.id image (pairs done) absent ∙ ground arith in
    ap (λ o. Grouped.pushed row (Grouped.entry o row (snoc done image))) found
    ∙ ap (λ m. ok (record { images_map = m; image_ids = ids done ++ i.id ∷ [] }))
        (insert-last i.id (Grouped.push (some p) image) image (pairs done) absent)

group_rows-last :
    (i : ImageRow) (rows : List ImagePartitionRow) (done : List Image) (ps : List ImagePartition)
    (size : ℕ)
    → Assoc.get i.id (pairs done) ≡ none
    → Grouped.group_rows
        (map (λ p. record { image = i; partition = some p }) rows)
        (snoc done (Images.image_with i ps size))
      ≡ ok (snoc done (Images.image_with i (ps ++ map Images.partition_of_row rows) size))
unfolding Grouped.group_rows
group_rows-last i [] done ps size absent =
    ap (λ x. ok (snoc done (Images.image_with i x size))) (sym (append-nil ps))
group_rows-last i (p ∷ rows) done ps size absent = rw (group_row-last i p done ps size absent) (
    group_rows-last i rows done (ps ++ Images.partition_of_row p ∷ []) size absent
    ∙ ap (λ x. ok (snoc done (Images.image_with i x size))) (append_assoc ps _ _))

pub group_rows-append :
    (xs ys : List Grouped.JoinedRow) (g : Grouped.Grouping)
    → Grouped.group_rows (xs ++ ys) g ≡ (Grouped.group_rows xs g >>= Grouped.group_rows ys)
unfolding Grouped.group_rows
group_rows-append [] ys g = refl
group_rows-append (x ∷ xs) ys g = after (Grouped.group_row x g) (group_rows-append xs ys)
  where
    after :
        (r : Result Grouped.Grouping)
        → ((h : Grouped.Grouping)
            → Grouped.group_rows (xs ++ ys) h ≡ (Grouped.group_rows xs h >>= Grouped.group_rows ys))
        → (r >>= Grouped.group_rows (xs ++ ys))
          ≡ (r >>= Grouped.group_rows xs >>= Grouped.group_rows ys)
    after (err e) k = refl
    after (ok h) k = k h

-- The first row of an image.
group_row-first :
    (i : ImageRow) (p : Option ImagePartitionRow) (done : List Image)
    → Assoc.get i.id (pairs done) ≡ none
    → Grouped.group_row (record { image = i; partition = p }) (grouping done) ≡ (
        Images.sector_size i.sector_size >>= λ size.
        ok (snoc done (Grouped.push p (Images.image_with i [] size))))
unfolding Grouped.group_row Grouped.entry Grouped.pushed grouping snoc
group_row-first i p done absent =
    let row : Grouped.JoinedRow = record { image = i; partition = p } in
    ap (λ o. Grouped.pushed row (Grouped.entry o row (grouping done))) absent
    ∙ made p (Images.sector_size i.sector_size)
  where
    stored :
        (v w : Image)
        → ◌≡◌ {A = Result Grouped.Grouping}
            (ok (record {
              images_map = Assoc.insert i.id v (Assoc.insert i.id w (pairs done));
              image_ids = ids done ++ i.id ∷ [];
            }))
            (ok (record {
              images_map = pairs done ++ (i.id, v) ∷ [];
              image_ids = ids done ++ i.id ∷ [];
            }))
    stored v w =
        ap
          (λ m.
            ok (record { images_map = Assoc.insert i.id v m; image_ids = ids done ++ i.id ∷ [] }))
          (insert-absent i.id w (pairs done) absent)
        ∙ ap (λ m. ok (record { images_map = m; image_ids = ids done ++ i.id ∷ [] }))
            (insert-last i.id v w (pairs done) absent)

    made :
        (p : Option ImagePartitionRow) (r : Result ℕ)
        → Grouped.pushed
            (record { image = i; partition = p })
            (r >>= λ size. ok (
              Images.image_with i [] size,
              record {
                images_map = Assoc.insert i.id (Images.image_with i [] size) (pairs done);
                image_ids = ids done ++ i.id ∷ [];
              },
            ))
          ≡ (r >>= λ size. ok (snoc done (Grouped.push p (Images.image_with i [] size))))
    made none (err e) = refl
    made (some p) (err e) = refl
    made none (ok size) = stored (Images.image_with i [] size) (Images.image_with i [] size)
    made (some p) (ok size) =
        stored (Grouped.push (some p) (Images.image_with i [] size)) (Images.image_with i [] size)

-- The rows of one image add its entry with all its partitions.
pub group_image :
    (i : ImageRow) (rows : List ImagePartitionRow) (done : List Image)
    → Assoc.get i.id (pairs done) ≡ none
    → Grouped.group_rows (Grouped.rows_of_image i rows) (grouping done) ≡ (
        Images.sector_size i.sector_size >>= λ size.
        ok (grouping (done ++ Images.image_with i (map Images.partition_of_row rows) size ∷ [])))
unfolding Grouped.group_rows
group_image i [] done absent =
    ap (◌>>= λ g. ok g) (group_row-first i none done absent)
    ∙ added (Images.sector_size i.sector_size)
  where
    added :
        (r : Result ℕ)
        → (r >>= (λ size. ok (snoc done (Images.image_with i [] size))) >>= λ g. ok g)
          ≡ (r >>= λ size. ok (grouping (done ++ Images.image_with i [] size ∷ [])))
    added (err e) = refl
    added (ok size) = ap ok (sym (grouping-snoc done (Images.image_with i [] size)))
group_image i (p ∷ rows) done absent =
    ap (◌>>= Grouped.group_rows (map (λ p. record { image = i; partition = some p }) rows))
      (group_row-first i (some p) done absent)
    ∙ added (Images.sector_size i.sector_size)
  where
    added :
        (r : Result ℕ)
        → (r
            >>= (λ size. ok (snoc done (Grouped.push (some p) (Images.image_with i [] size))))
            >>= Grouped.group_rows (map (λ p. record { image = i; partition = some p }) rows))
          ≡ (r >>= λ size. ok (
              grouping
                (done ++ Images.image_with i (map Images.partition_of_row (p ∷ rows)) size ∷ [])))
    added (err e) = refl
    added (ok size) =
        group_rows-last i rows done (Images.partition_of_row p ∷ []) size absent
        ∙ ap ok (sym (grouping-snoc done _))
