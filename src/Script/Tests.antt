-- ===== src/Script/Tests.antt =====
-- A script with a choice, where a number is a text of digits.
use imaged.Base.{◌≡◌, ◌&&◌, not, all, map, Bool, leb, true, false, some, none, [], ◌∷◌}
use imaged.Text.{Text}
use imaged.Error.{is_ok}
use imaged.Script.{ScriptInput, choice, is_blank}
use imaged.Script.Validation.{validate_script}
use imaged.Script.Expected.{names_script}
use imaged.Script.Accepted.{distinct, is_valid_input, is_ok-validate_script}

abbrev digits : Text → Bool
digits t = all (λ b. leb 48 b && leb b 57) t

-- "site", and its choices "a" and "b".
abbrev site : ScriptInput
site = record {
  name = 115 ∷ 105 ∷ 116 ∷ 101 ∷ [];
  label = [];
  description = none;
  kind = choice;
  required = true;
  default_value = some (97 ∷ []);
  per_machine = false;
  choices = (97 ∷ []) ∷ (98 ∷ []) ∷ [];
}

-- "join", and its body "ls".
abbrev name : Text
name = 106 ∷ 111 ∷ 105 ∷ 110 ∷ []

abbrev body : Text
body = 108 ∷ 115 ∷ []

is_ok-validate_script_example : is_ok (validate_script digits name body (site ∷ site ∷ [])) ≡ (
    names_script name
    && (not (is_blank body)
        && (all (is_valid_input digits) (site ∷ site ∷ [])
            && distinct (map (λ i. i.name) (site ∷ site ∷ [])))))
is_ok-validate_script_example = is_ok-validate_script digits name body (site ∷ site ∷ [])
