-- ===== src/Store/Catalog/Tests.antt =====
-- A catalog of two scripts, one of which an image has already.
use imaged.Base.{ℕ, ◌≡◌, refl, true, false, some, none, [], ◌∷◌, map}
use imaged.Base.Assoc
use imaged.Text.{Text, text, decimal}
use imaged.Error.{ok, err, invalid_argument}
use imaged.Script.{ScriptInput, text_input}
use imaged.Store.{ScriptRow, Db}
use imaged.Store.Tests.{lab}
use imaged.Store.Catalog
use imaged.Store.Catalog.Links
use imaged.Store.Catalog.Import
use imaged.Store.Catalog.Links.Linked.{link_in, get_for_image-set_for_image}

abbrev named : ℕ → Text → ScriptRow
named id name = record { id = id; name = name; body = text "exit 0"; updated_at = 1 }

abbrev pub domain_input : ScriptInput
domain_input = record {
  name = text "DOMAIN";
  label = text "Domain";
  description = none;
  kind = text_input;
  required = true;
  default_value = none;
  per_machine = false;
  choices = [];
}

abbrev catalog : Db
catalog = record lab {
  next_script_id = 3;
  scripts = named 1 (text "join") ∷ named 2 (text "fix") ∷ [];
  script_inputs = record { script_id = 1; position = 0; input = domain_input } ∷ [];
  image_scripts =
      record { image_id = 3; position = 0; script_id = 2; root_partition = some 2 } ∷ [];
}

get_for_image-set_for_image_example :
    map link_in (Links.get_for_image 3 (Links.set_for_image 3 (1 ∷ 2 ∷ []) catalog).1)
    ≡ (1, none) ∷ (2, some 2) ∷ []
unfolding Links.set_for_image Links.link_scripts Links.link_rows Links.roots_of Assoc.get
    Assoc.insert
get_for_image-set_for_image_example = get_for_image-set_for_image 3 (1 ∷ 2 ∷ []) catalog refl

-- A script that is listed twice leaves the image as it was.
repeated :
    Links.set_for_image 3 (1 ∷ 1 ∷ []) catalog
    ≡ (err (invalid_argument (text "script 1 is listed twice")), catalog)
unfolding Links.set_for_image Links.link_scripts Links.link_rows Links.roots_of Assoc.get
    Assoc.insert text decimal
repeated = refl

abbrev imported : Catalog.NewScript
imported = record { name = text "fix"; body = text "exit 1"; inputs = [] }

-- A script of another image is left alone: the import takes the next free name.
next_name :
    Import.import_script (text "UNIQUE") 9 3 1 4 imported catalog
    ≡ some (
        ok (
          3,
          record catalog {
            next_script_id = 4;
            scripts =
                named 1 (text "join")
                ∷ named 2 (text "fix")
                ∷ record { id = 3; name = text "fix-2"; body = text "exit 1"; updated_at = 9 }
                ∷ [];
          },
        ))
unfolding Import.import_script Import.import_name Catalog.write_script Catalog.insert_inputs
    Catalog.load_inputs text decimal
next_name = refl
