-- ===== src/Store/Catalog/Links.antt =====
-- The scripts of an image (crates/core/src/repository/script.rs, crates/core/src/domain/script.rs).
pub mod Linked
use imaged.Base.{
  ℕ, zero, suc, ◌+◌, ◌-◌, Bool, true, false, not, ◌&&◌, ◌||◌, Option, none, some, List, [], ◌∷◌,
  ◌++◌, ◌==◌, ltb, if◌then◌else◌, map, any, elem, keep, find, take, length, update_where,
}
use imaged.Base.Assoc.{Assoc, or_default}
use imaged.Base.Assoc
use imaged.Base.Sorting.{sort_by}
use imaged.Text.{Text, text, decimal}
use imaged.Error.{
  Result, ok, err, AppError, invalid_argument, not_found, failed_precondition, ◌>>=◌, ◌>>◌, ensure,
  ok_or,
}
use imaged.Script.{
  InputKind, text_input, number, choice, secret, ScriptInput, same_text, max_script_name_len,
}
use imaged.Image.{Image}
use imaged.Store.{ImageRow, ImageScriptRow, ScriptRow, Db}
use imaged.Store.Catalog.{
  Script, NewScript, ImageScript, NewImageScript, load_inputs, assemble_scripts, write_script,
  validated, no_script,
}

abbrev image_script : ℕ → ℕ → ℕ → Option ℕ → ImageScriptRow
image_script image_id position script_id root_partition = record {
  image_id = image_id;
  position = position;
  script_id = script_id;
  root_partition = root_partition;
}

abbrev no_image_row : ℕ → AppError
no_image_row image_id = not_found (text "image " ++ decimal image_id)

abbrev listed_twice : ℕ → AppError
listed_twice script_id =
    invalid_argument (text "script " ++ (decimal script_id ++ text " is listed twice"))

-- The insertions, at the positions from `position` on; `earlier` are the scripts before that.
unfoldable pub link_rows :
    ℕ → List ScriptRow → ℕ → List ℕ → List (ℕ × Option ℕ) → Result (List ImageScriptRow)
link_rows image_id scripts position earlier [] = ok []
link_rows image_id scripts position earlier ((script_id, root_partition) ∷ rest) = do
  ensure (not (elem script_id earlier)) (listed_twice script_id)
  ensure (any (λ s. s.id == script_id) scripts) (no_script script_id)
  rows ← link_rows image_id scripts (suc position) (script_id ∷ earlier) rest
  ok (image_script image_id position script_id root_partition ∷ rows)

unfoldable pub link_scripts : ℕ → List (ℕ × Option ℕ) → Db → Result Db
unfolding link_rows
link_scripts image_id scripts db = do
  ensure (any (λ i. i.id == image_id && not i.deleted) db.images) (no_image_row image_id)
  rows ← link_rows image_id db.scripts 0 [] scripts
  ok (record db {
    image_scripts = keep (λ s. not (s.image_id == image_id)) db.image_scripts ++ rows;
  })

abbrev pub done_or_kept : Db → Result Db → Result (Unit {0}) × Db
done_or_kept db (err e) = (err e, db)
done_or_kept db (ok d) = (ok tt, d)

-- The map from an image's scripts to their root partitions.
unfoldable pub roots_of : List ImageScriptRow → Assoc (Option ℕ) → Assoc (Option ℕ)
roots_of [] m = m
roots_of (s ∷ rows) m = roots_of rows (Assoc.insert s.script_id s.root_partition m)

abbrev flatten : Option (Option ℕ) → Option ℕ
flatten none = none
flatten (some root) = root

-- Each script with the root partition that the image has for it, or with none when it does not have
-- the script.
abbrev pub kept_roots : ℕ → List ℕ → Db → List (ℕ × Option ℕ)
kept_roots image_id script_ids db =
    map
      (λ id. (
        id,
        flatten (Assoc.get id (roots_of (keep (λ s. s.image_id == image_id) db.image_scripts) [])),
      ))
      script_ids

unfoldable pub set_for_image : ℕ → List ℕ → Db → Result (Unit {0}) × Db
unfolding link_scripts roots_of
set_for_image image_id script_ids db =
    done_or_kept db (link_scripts image_id (kept_roots image_id script_ids db) db)

abbrev archived : ℕ → Option ℕ → Db → Bool
archived image_id none db = true
archived image_id (some n) db =
    any (λ p. p.image_id == image_id && p.partition_number == n) db.image_partitions

abbrev no_such_partition : ℕ → Option ℕ → AppError
no_such_partition image_id none = invalid_argument []
no_such_partition image_id (some n) =
    invalid_argument
      (text "image " ++ (decimal image_id ++ (text " has no partition " ++ decimal n)))

abbrev is_at_position : ℕ → ℕ → ImageScriptRow → Bool
is_at_position image_id position s = s.image_id == image_id && s.position == position

unfoldable pub set_root_for_image : ℕ → ℕ → Option ℕ → Db → Result (Unit {0}) × Db
set_root_for_image image_id position partition_number db = done_or_kept db (do
  ensure (archived image_id partition_number db) (no_such_partition image_id partition_number)
  ensure (any (is_at_position image_id position) db.image_scripts) (
      not_found (
        text "image "
        ++ (decimal image_id ++ (text " has no script at position " ++ decimal position))))
  ok (record db {
    image_scripts =
        update_where (is_at_position image_id position)
          (λ s. record s { root_partition = partition_number }) db.image_scripts;
  }))

abbrev join_script :
    Option ScriptRow → Option ℕ → List (ScriptRow × Option ℕ) → List (ScriptRow × Option ℕ)
join_script none root rest = rest
join_script (some r) root rest = (r, root) ∷ rest

-- `JOIN scripts s ON s.id = i.script_id`, for the rows of an image by their positions.
unfoldable pub join_scripts : List ScriptRow → List ImageScriptRow → List (ScriptRow × Option ℕ)
join_scripts scripts [] = []
join_scripts scripts (s ∷ rows) =
    join_script (find (λ r. r.id == s.script_id) scripts) s.root_partition
      (join_scripts scripts rows)

abbrev zip_roots : List Script → List (Option ℕ) → List ImageScript
zip_roots [] roots = []
zip_roots (s ∷ scripts) [] = []
zip_roots (s ∷ scripts) (root ∷ roots) =
    record { script = s; root_partition = root } ∷ zip_roots scripts roots

unfoldable pub get_for_image : ℕ → Db → List ImageScript
unfolding join_scripts
get_for_image image_id db =
    let rows =
      join_scripts db.scripts
        (sort_by (λ s. s.position) (keep (λ s. s.image_id == image_id) db.image_scripts)) in
    zip_roots (assemble_scripts (map (λ r. r.0) rows) db) (map (λ r. r.1) rows)

-- The root partition of each script: its own, or else the image's.
abbrev root_or : Option ℕ → Option ℕ → Option ℕ
root_or none root = root
root_or (some n) root = some n

unfoldable pub script_roots : Image → List ImageScript → Result (List ℕ)
script_roots image [] = ok []
script_roots image (s ∷ scripts) =
    ok_or (root_or s.root_partition image.root_partition) (
      failed_precondition (
        text "image "
        ++ (image.name
            ++ (text " has post-install script `"
                ++ (s.script.name ++ text "` but no root partition")))))
    >>= λ root. script_roots image scripts >>= λ roots. ok (root ∷ roots)
