-- ===== src/Store/Catalog.antt =====
-- The scripts and the scripts of each image (crates/core/src/repository/script.rs,
-- crates/core/src/domain/script.rs). The name of an input's kind parses, so that conversion does
-- not fail. `unique` and `foreign` are the messages of the constraints, and `is_number` is as in
-- Script.
pub mod Import
pub mod Inputs
pub mod Links
pub mod Tests
use imaged.Base.{
  ℕ, zero, suc, ◌+◌, ◌-◌, Bool, true, false, not, ◌&&◌, ◌||◌, Option, none, some, List, [], ◌∷◌,
  ◌++◌, ◌==◌, ltb, if◌then◌else◌, map, any, elem, keep, find, take, length, update_where,
}
use imaged.Base.Assoc.{Assoc, or_default}
use imaged.Base.Assoc
use imaged.Base.Sorting.{sort_by, sort_by_text}
use imaged.Text.{Text, text, decimal}
use imaged.Error.{
  Result, ok, err, AppError, invalid_argument, not_found, failed_precondition, ◌>>=◌, ◌>>◌, ensure,
  ok_or, from_sqlx, database_error, unique_violation, foreign_key_violation,
}
use imaged.Script.{
  InputKind, text_input, number, choice, secret, ScriptInput, same_text, max_script_name_len,
}
use imaged.Script.Validation.{validate_script}
use imaged.Image.{Image}
use imaged.Store.{ImageRow, ImageScriptRow, ScriptRow, ScriptInputRow, Db}

pub record Script : Type 0 where
  pub id : ℕ
  pub name : Text
  pub body : Text
  pub updated_at : ℕ
  pub inputs : List ScriptInput

pub record NewScript : Type 0 where
  pub name : Text
  pub body : Text
  pub inputs : List ScriptInput

pub record ImageScript : Type 0 where
  pub script : Script
  pub root_partition : Option ℕ

pub record NewImageScript : Type 0 where
  pub script : NewScript
  pub root_partition : Option ℕ

-- `WHERE script_id IN … ORDER BY script_id, position`.
abbrev input_rows_in : List ℕ → Db → List ScriptInputRow
input_rows_in ids db =
    sort_by (λ i. i.script_id)
      (sort_by (λ i. i.position) (keep (λ i. elem i.script_id ids) db.script_inputs))

unfoldable pub load_inputs : List ℕ → Db → Assoc (List ScriptInput)
load_inputs ids db = Assoc.push_all (λ i. i.script_id) (λ i. i.input) (input_rows_in ids db) []

abbrev script_of : ScriptRow → List ScriptInput → Script
script_of s inputs = record {
  id = s.id;
  name = s.name;
  body = s.body;
  updated_at = s.updated_at;
  inputs = inputs;
}

unfoldable pub into_scripts : List ScriptRow → Assoc (List ScriptInput) → List Script
into_scripts [] inputs = []
into_scripts (s ∷ rows) inputs =
    script_of s (or_default (Assoc.get s.id inputs)) ∷ into_scripts rows (Assoc.remove s.id inputs)

unfoldable pub assemble_scripts : List ScriptRow → Db → List Script
unfolding load_inputs into_scripts
assemble_scripts rows db = into_scripts rows (load_inputs (map (λ s. s.id) rows) db)

unfoldable pub get_all_scripts : Db → List Script
unfolding assemble_scripts
get_all_scripts db = assemble_scripts (sort_by_text (λ s. s.name) db.scripts) db

abbrev no_script : ℕ → AppError
no_script id = not_found (text "script " ++ decimal id)

unfoldable pub get_script : ℕ → Db → Result Script
unfolding load_inputs
get_script id db = ok_or (find (λ s. s.id == id) db.scripts) (no_script id) >>= λ s.
    ok (script_of s (or_default (Assoc.get s.id (load_inputs (s.id ∷ []) db))))

unfoldable pub insert_inputs :
    Text → ℕ → ℕ → List ScriptInput → List ScriptInputRow → Result (List ScriptInputRow)
insert_inputs unique script_id position [] rows = ok rows
insert_inputs unique script_id position (input ∷ inputs) rows = do
  ensure
      (not (
        any
          (λ i.
            i.script_id == script_id
            && (i.position == position || same_text i.input.name input.name))
          rows))
      (from_sqlx (database_error (unique_violation unique)))
  insert_inputs unique script_id (suc position) inputs
      (rows ++ record { script_id = script_id; position = position; input = input } ∷ [])

abbrev with_inputs : ℕ → Db → Result (List ScriptInputRow) → Result (ℕ × Db)
with_inputs id db rows = rows >>= λ rows. ok (id, record db { script_inputs = rows })

abbrev is_named : Text → ScriptRow → Bool
is_named name s = same_text s.name name

-- An insertion without an id, an update with one.
unfoldable pub write_script : Text → ℕ → Option ℕ → Text → NewScript → Db → Result (ℕ × Db)
unfolding insert_inputs
write_script unique now none name script db = do
  ensure (not (any (is_named name) db.scripts))
      (from_sqlx (database_error (unique_violation unique)))
  with_inputs db.next_script_id
      (record db {
        next_script_id = suc db.next_script_id;
        scripts =
            db.scripts
            ++ record { id = db.next_script_id; name = name; body = script.body; updated_at = now }
              ∷ [];
      })
      (insert_inputs unique db.next_script_id 0 script.inputs db.script_inputs)
write_script unique now (some id) name script db = do
  ensure
      (not (
        any (λ s. s.id == id) db.scripts
        && any (λ s. is_named name s && not (s.id == id)) db.scripts))
      (from_sqlx (database_error (unique_violation unique)))
  ensure (any (λ s. s.id == id) db.scripts) (no_script id)
  with_inputs id
      (record db {
        scripts =
            update_where (λ s. s.id == id)
              (λ s. record s { name = name; body = script.body; updated_at = now }) db.scripts;
      })
      (insert_inputs unique id 0 script.inputs
        (keep (λ i. not (i.script_id == id)) db.script_inputs))

abbrev written : Db → Result (ℕ × Db) → Result Script × Db
written db (err e) = (err e, db)
written db (ok (id, d)) = (get_script id d, d)

module _ (is_number : Text → Bool) (unique : Text) where
  abbrev validated : NewScript → Result (Unit {0})
  validated script = validate_script is_number script.name script.body script.inputs

  unfoldable pub create_script : ℕ → NewScript → Db → Result Script × Db
  unfolding write_script get_script
  create_script now script db =
      written db (validated script >> write_script unique now none script.name script db)

  unfoldable pub update_script : ℕ → ℕ → NewScript → Db → Result Script × Db
  unfolding write_script get_script
  update_script now id script db =
      written db (validated script >> write_script unique now (some id) script.name script db)

-- The names of the images that use a script, each once, in order.
abbrev distinct_texts : List Text → List Text
distinct_texts [] = []
distinct_texts (t ∷ ts) =
    let rest = distinct_texts ts in if any (same_text t) rest then rest else t ∷ rest

abbrev users_of : ℕ → Db → List Text
users_of id db =
    sort_by_text (λ t. t)
      (distinct_texts (
        map (λ i. i.name)
          (keep (λ i. any (λ s. s.script_id == id && s.image_id == i.id) db.image_scripts)
            db.images)))

abbrev commas : List Text → Text
commas [] = []
commas (t ∷ []) = t
commas (t ∷ ts) = t ++ (text ", " ++ commas ts)

abbrev is_nil : List Text → Bool
is_nil [] = true
is_nil (t ∷ ts) = false

abbrev deletable : ℕ → Db → Result (Unit {0})
deletable id db = do
  ensure (is_nil (users_of id db)) (
      failed_precondition
        (text "script " ++ (decimal id ++ (text " is used by image " ++ commas (users_of id db)))))
  ensure (any (λ s. s.id == id) db.scripts) (no_script id)

abbrev deleted_script : ℕ → Db → Result (Unit {0}) → Result (Unit {0}) × Db
deleted_script id db (err e) = (err e, db)
deleted_script id db (ok _) = (
  ok tt,
  record db {
    scripts = keep (λ s. not (s.id == id)) db.scripts;
    script_inputs = keep (λ i. not (i.script_id == id)) db.script_inputs;
  },
)

-- The reference of `image_scripts` to `scripts` has no cascade: a use by an image whose row is
-- gone cannot be.
unfoldable pub delete_script : ℕ → Db → Result (Unit {0}) × Db
delete_script id db = deleted_script id db (deletable id db)
