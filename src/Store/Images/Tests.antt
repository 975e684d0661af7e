-- ===== src/Store/Images/Tests.antt =====
-- A laboratory with two images, whose rows are not in the order of their ids.
use imaged.Base.{◌≡◌, refl, true, some, none, [], ◌∷◌, List, map}
use imaged.Base.Int.{pos}
use imaged.Base.Distinct.{is_distinct}
use imaged.Text.{text}
use imaged.Error.{ok}
use imaged.Image.{NewImagePartition}
use imaged.Task.{partition}
use imaged.Store.{ImageRow, ImagePartitionRow, Db}
use imaged.Store.Tests.{lab, windows, windows_partition}
use imaged.Store.Images
use imaged.Store.Images.Grouped
use imaged.Store.Images.Grouped.Reads.{read_images, get_all-read_images}
use imaged.Store.Images.Roots
use imaged.Store.Images.Roots.Invariant.{roots_stored-call_all}

abbrev linux : ImageRow
linux = record windows { id = 1; name = text "linux"; kind = partition; root_partition = none }

abbrev numbered : ImagePartitionRow
numbered = record windows_partition { id = 2; partition_number = 1 }

abbrev two_images : Db
two_images = record lab {
  images = windows ∷ linux ∷ [];
  image_partitions = windows_partition ∷ numbered ∷ [];
}

get_all-read_images_example :
    Grouped.get_all two_images ≡ read_images two_images (linux ∷ windows ∷ [])
unfolding is_distinct
get_all-read_images_example = get_all-read_images two_images refl

-- What is read has both partitions, by their numbers.
read_windows :
    Images.get 3 two_images
    ≡ ok (
        Images.image_with windows
          (map Images.partition_of_row (numbered ∷ windows_partition ∷ []))
          512)
unfolding Images.get Images.read_found Images.read_image Images.get_partitions Images.sector_size
read_windows = refl

abbrev one_partition : NewImagePartition
one_partition = record {
  partition_number = 1;
  fstype = text "ext4";
  size_bytes = 8192;
  fs_uuid = none;
  fs_label = none;
}

abbrev calls : List Roots.ImageCall
calls =
    Roots.set_root_partition 3 (some 1)
    ∷ Roots.start_capture 3 512
    ∷ Roots.save_partition 3 1 (text "ext4") (pos 4096) none none
    ∷ Roots.set_root_partition 3 (some 1)
    ∷ Roots.finish_import 1 none (one_partition ∷ []) (some 1) 512
    ∷ Roots.finish_import 1 none (one_partition ∷ []) (some 4) 512
    ∷ []

roots_stored-call_all_example :
    Roots.roots_stored (Roots.call_all (text "UNIQUE") (text "FOREIGN KEY") calls two_images) ≡ true
unfolding Roots.roots_stored
roots_stored-call_all_example =
    roots_stored-call_all (text "UNIQUE") (text "FOREIGN KEY") calls two_images refl
