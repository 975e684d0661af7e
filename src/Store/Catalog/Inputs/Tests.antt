-- ===== src/Store/Catalog/Inputs/Tests.antt =====
-- A deployment of one script to one host, and two scripts whose defaults differ.
use mathlib.Core.List.{Memᴰ}
use imaged.Base.{ℕ, ◌≡◌, refl, true, false, some, none, [], ◌∷◌, List}
use imaged.Base.Assoc.{get, insert}
use imaged.Text.{Text, text}
use imaged.Error.{ok, err, failed_precondition}
use imaged.Script.{ScriptInput, InputValues, ResolvedInputs, choice}
use imaged.Script.Validation.{check, value_from, check_message}
use imaged.Store.Hosts.{Host, size_of_disk}
use imaged.Store.Catalog.{Script}
use imaged.Store.Catalog.Tests.{domain_input}
use imaged.Store.Catalog.Inputs
use imaged.Store.Catalog.Inputs.Resolved.{script_inputs-resolve_inputs}

abbrev join : Script
join = record {
  id = 1;
  name = text "join";
  body = text "exit 0";
  updated_at = 1;
  inputs = domain_input ∷ [];
}

abbrev atlas : Host
atlas = record {
  id = 7;
  name = text "atlas";
  mac_address = text "02:ab:00:ff:10:01";
  disk = size_of_disk 1000;
  ip = none;
  partitions = [];
}

abbrev entered : ResolvedInputs
entered = record { shared = (text "DOMAIN", text "lab") ∷ []; per_machine = [] }

abbrev numberless : Text → imaged.Base.Bool
numberless t = false

script_inputs-resolve_inputs_example :
    (values : InputValues) × (get 7 ((7, (text "DOMAIN", text "lab") ∷ []) ∷ []) ≡ some values)
    × ((found : InputValues) × (Inputs.script_inputs numberless join values ≡ ok found))
unfolding Inputs.resolve_inputs Inputs.resolve_hosts Inputs.add_values Inputs.insert_value check
    value_from get insert text
script_inputs-resolve_inputs_example =
    script_inputs-resolve_inputs numberless (join ∷ []) (atlas ∷ []) entered
      ((7, (text "DOMAIN", text "lab") ∷ []) ∷ []) atlas join refl refl (Memᴰ.head refl)
      (Memᴰ.head refl)

abbrev defaulted : ScriptInput
defaulted = record domain_input { required = false; default_value = some (text "home") }

abbrev chosen : ScriptInput
chosen = record defaulted {
  kind = choice;
  choices = text "lab" ∷ [];
  default_value = some (text "lab");
}

abbrev choosing : Script
choosing = record join { inputs = chosen ∷ [] }

-- Of two scripts that declare an input of one name, the default of the last is stored for both, and
-- the first script refuses it.
last_default :
    Inputs.resolve_inputs numberless
      (choosing ∷ record join { inputs = defaulted ∷ [] } ∷ [])
      (atlas ∷ [])
      (record { shared = []; per_machine = [] })
    ≡ ok ((7, (text "DOMAIN", text "home") ∷ []) ∷ [])
unfolding Inputs.resolve_inputs Inputs.resolve_hosts Inputs.add_values Inputs.insert_value check
    value_from insert text
last_default = refl

refused :
    Inputs.script_inputs numberless choosing ((text "DOMAIN", text "home") ∷ [])
    ≡ err (
        failed_precondition (
          text
            "script `join` no longer fits the inputs stored with this task: input `DOMAIN` must be one of lab; start a new deployment"))
unfolding Inputs.script_inputs Inputs.give_inputs check check_message value_from text
refused = refl
