-- ===== src/Store/Catalog/Import.antt =====
-- Importing the scripts of an archive (crates/core/src/repository/script.rs).
use imaged.Base.{
  ℕ, zero, suc, Bool, true, false, not, ◌&&◌, Option, none, some, List, [], ◌∷◌, ◌++◌, ◌==◌,
  if◌then◌else◌, find, any, take, length, ◌-◌,
}
use imaged.Base.Assoc.{or_default}
use imaged.Base.Assoc
use imaged.Script.{
  InputKind, text_input, number, choice, secret, ScriptInput, same_text, max_script_name_len,
}
use imaged.Text.{Text, text, decimal}
use imaged.Error.{Result, ok, err, ◌>>=◌, ◌>>◌}
use imaged.Store.{ScriptRow, Db}
use imaged.Store.Catalog.{NewScript, NewImageScript, write_script, validated, is_named, load_inputs}
use imaged.Store.Catalog.Links.{link_scripts, done_or_kept}

-- `import_name`; names of scripts are ASCII.
unfoldable pub import_name : Text → ℕ → Text
import_name name attempt =
    let suffix = text "-" ++ decimal attempt in
    if attempt == 1 then name else take (max_script_name_len - length suffix) name ++ suffix

abbrev rank_of_input : InputKind → ℕ
rank_of_input text_input = 0
rank_of_input number = 1
rank_of_input choice = 2
rank_of_input secret = 3

abbrev same_option : Option Text → Option Text → Bool
same_option none none = true
same_option (some a) (some b) = same_text a b
same_option _ _ = false

abbrev same_bool : Bool → Bool → Bool
same_bool true b = b
same_bool false b = not b

abbrev same_texts : List Text → List Text → Bool
same_texts [] [] = true
same_texts (a ∷ as_) (b ∷ bs) = same_text a b && same_texts as_ bs
same_texts _ _ = false

-- The derived `PartialEq` of inputs.
abbrev same_input : ScriptInput → ScriptInput → Bool
same_input a b =
    same_text a.name b.name
    && (same_text a.label b.label
        && (same_option a.description b.description
            && (rank_of_input a.kind == rank_of_input b.kind
                && (same_bool a.required b.required
                    && (same_option a.default_value b.default_value
                        && (same_bool a.per_machine b.per_machine
                            && same_texts a.choices b.choices))))))

abbrev same_inputs : List ScriptInput → List ScriptInput → Bool
same_inputs [] [] = true
same_inputs (a ∷ as_) (b ∷ bs) = same_input a b && same_inputs as_ bs
same_inputs _ _ = false

abbrev used_by_other_images : ℕ → ℕ → Db → Bool
used_by_other_images script_id image_id db =
    any (λ s. s.script_id == script_id && not (s.image_id == image_id)) db.image_scripts

abbrev has_content : NewScript → ScriptRow → Db → Bool
has_content script existing db =
    same_text existing.body script.body
    && same_inputs (or_default (Assoc.get existing.id (load_inputs (existing.id ∷ []) db)))
        script.inputs

-- One attempt: the script of that name, if there is one, is taken, replaced, or left for the next
-- name. `rest` is what the later attempts give.
abbrev attempted :
    Text
    → ℕ
    → ℕ
    → Text
    → ℕ
    → NewScript
    → Db
    → Option (Result (ℕ × Db))
    → Option ScriptRow
    → Option (Result (ℕ × Db))
attempted unique now image_id name attempt script db rest none =
    some (write_script unique now none name script db)
attempted unique now image_id name attempt script db rest (some existing) =
    if has_content script existing db
    then some (ok (existing.id, db))
    else if attempt == 1 && not (used_by_other_images existing.id image_id db)
    then some (write_script unique now (some existing.id) name script db)
    else rest

-- None when the attempts run out; the code's own count is a `u32`.
unfoldable pub import_script : Text → ℕ → ℕ → ℕ → ℕ → NewScript → Db → Option (Result (ℕ × Db))
import_script unique now zero attempt image_id script db = none
import_script unique now (suc fuel) attempt image_id script db =
    let name = import_name script.name attempt in
    let rest = import_script unique now fuel (suc attempt) image_id script db in
    attempted unique now image_id name attempt script db rest (find (is_named name) db.scripts)

abbrev linked_after :
    Option ℕ
    → (Db → Option (Result (List (ℕ × Option ℕ) × Db)))
    → Option (Result (ℕ × Db))
    → Option (Result (List (ℕ × Option ℕ) × Db))
linked_after root continue none = none
linked_after root continue (some (err e)) = some (err e)
linked_after root continue (some (ok (id, d))) = elim (continue d) [
  | none ↦ none
  | some r ↦ some (r >>= λ (linked, d). ok ((id, root) ∷ linked, d))
]

unfoldable pub import_scripts :
    Text → ℕ → ℕ → ℕ → List NewImageScript → Db → Option (Result (List (ℕ × Option ℕ) × Db))
unfolding import_script
import_scripts unique now fuel image_id [] db = some (ok ([], db))
import_scripts unique now fuel image_id (i ∷ is) db =
    linked_after i.root_partition (import_scripts unique now fuel image_id is)
      (import_script unique now fuel 1 image_id i.script db)

abbrev all_validated : (Text → Bool) → Text → List NewImageScript → Result (Unit {0})
all_validated is_number unique [] = ok tt
all_validated is_number unique (i ∷ is) =
    validated is_number unique i.script >> all_validated is_number unique is

abbrev imported_into :
    Text
    → ℕ
    → ℕ
    → ℕ
    → List NewImageScript
    → Db
    → Result (Unit {0})
    → Option (Result (Unit {0}) × Db)
imported_into unique now fuel image_id scripts db (err e) = some (err e, db)
imported_into unique now fuel image_id scripts db (ok _) =
    elim (import_scripts unique now fuel image_id scripts db) [
      | none ↦ none
      | some r ↦ some (done_or_kept db (r >>= λ (linked, d). link_scripts image_id linked d))
    ]

unfoldable pub import_for_image :
    (Text → Bool) → Text → ℕ → ℕ → ℕ → List NewImageScript → Db → Option (Result (Unit {0}) × Db)
unfolding import_scripts
import_for_image is_number unique now fuel image_id scripts db =
    imported_into unique now fuel image_id scripts db (all_validated is_number unique scripts)
