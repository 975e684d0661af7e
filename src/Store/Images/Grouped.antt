-- ===== src/Store/Images/Grouped.antt =====
-- All images, from one join (crates/core/src/repository/image.rs, `get_all`).
mod Entries
pub mod Reads
use imaged.Base.{
  ℕ, Bool, true, false, not, ◌&&◌, Option, none, some, List, [], ◌∷◌, ◌++◌, ◌==◌, if◌then◌else◌,
  map, keep, is_some,
}
use imaged.Base.Assoc.{Assoc}
use imaged.Base.Assoc
use imaged.Base.Sorting.{sort_by}
use imaged.Error.{Result, ok, err, ◌>>=◌}
use imaged.Image.{Image, ImagePartition}
use imaged.Store.{ImageRow, ImagePartitionRow, Db}
use imaged.Store.Images

-- A row of the join: an image with one of its partitions, or with none when it has none.
pub record JoinedRow : Type 0 where
  pub image : ImageRow
  pub partition : Option ImagePartitionRow

abbrev pub rows_of_image : ImageRow → List ImagePartitionRow → List JoinedRow
rows_of_image i [] = record { image = i; partition = none } ∷ []
rows_of_image i (p ∷ ps) = map (λ p. record { image = i; partition = some p }) (p ∷ ps)

abbrev pub rows_of : Db → List ImageRow → List JoinedRow
rows_of db [] = []
rows_of db (i ∷ is) = rows_of_image i (Images.partition_rows i.id db) ++ rows_of db is

-- `FROM images i LEFT JOIN image_partitions p … WHERE i.deleted_at IS NULL ORDER BY i.id,
-- p.partition_number`.
abbrev pub present : Db → List ImageRow
present db = sort_by (λ i. i.id) (keep (λ i. not i.deleted) db.images)

-- `images_map` and `image_ids`.
pub record Grouping : Type 0 where
  pub images_map : Assoc Image
  pub image_ids : List ℕ

abbrev pub push : Option ImagePartitionRow → Image → Image
push none image = image
push (some p) image = record image {
  partitions = image.partitions ++ Images.partition_of_row p ∷ [];
}

-- The entry of a row's image, which is made where it is the first row of the image.
entry : Option Image → JoinedRow → Grouping → Result (Image × Grouping)
entry (some image) row g = ok (image, g)
entry none row g = Images.sector_size row.image.sector_size >>= λ size.
    let image = Images.image_with row.image [] size in
    ok (
      image,
      record {
        images_map = Assoc.insert row.image.id image g.images_map;
        image_ids = g.image_ids ++ row.image.id ∷ [];
      },
    )

pushed : JoinedRow → Result (Image × Grouping) → Result Grouping
pushed row found = found >>= λ (image, h).
    ok (record h { images_map = Assoc.insert row.image.id (push row.partition image) h.images_map })

unfoldable pub group_row : JoinedRow → Grouping → Result Grouping
unfolding entry pushed
group_row row g = pushed row (entry (Assoc.get row.image.id g.images_map) row g)

unfoldable pub group_rows : List JoinedRow → Grouping → Result Grouping
group_rows [] g = ok g
group_rows (row ∷ rows) g = group_row row g >>= group_rows rows

abbrev pub cons_some : Option Image → List Image → List Image
cons_some none images = images
cons_some (some image) images = image ∷ images

-- `image_ids.into_iter().filter_map(|id| images_map.remove(&id))`.
unfoldable pub taken : List ℕ → Assoc Image → List Image
taken [] m = []
taken (id ∷ ids) m = cons_some (Assoc.get id m) (taken ids (Assoc.remove id m))

unfoldable pub get_all : Db → Result (List Image)
unfolding group_rows taken
get_all db =
    group_rows (rows_of db (present db)) (record { images_map = []; image_ids = [] }) >>= λ g.
    ok (taken g.image_ids g.images_map)
