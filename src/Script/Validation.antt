-- ===== src/Script/Validation.antt =====
-- When a script is accepted (`ScriptInput::validate`, `validate_script` in
-- crates/model/src/script.rs).
use imaged.Base.{
  Bool, true, false, not, ◌&&◌, Option, none, some, List, [], ◌∷◌, ◌++◌, map, leb, if◌then◌else◌,
  is_some,
}
use imaged.Text.{Text, text}
use imaged.Error.{Result, ok, err, AppError, invalid_argument, ◌>>◌, ensure}
use imaged.Script.{
  InputKind, text_input, number, choice, secret, ScriptInput, InputValues, lookup,
  max_input_description_len, has_nul, count_chars, is_input_name, is_script_name, contains,
  first_duplicate, is_blank,
}

abbrev pub is_secret : InputKind → Bool
is_secret secret = true
is_secret _ = false

-- The messages of `check`, of which callers show one behind a prefix.
pub data CheckError : Type 0 where
  contains_nul not_a_number : Text → CheckError
  not_a_choice : Text → List Text → CheckError

abbrev join : List Text → Text
join [] = []
join (t ∷ []) = t
join (t ∷ (u ∷ ts)) = t ++ text ", " ++ join (u ∷ ts)

unfoldable pub check_message : CheckError → Text
check_message (contains_nul name) = text "input `" ++ name ++ text "` cannot contain NUL bytes"
check_message (not_a_number name) = text "input `" ++ name ++ text "` must be a number"
check_message (not_a_choice name choices) =
    text "input `" ++ name ++ text "` must be one of " ++ join choices

-- A message with one text in it.
abbrev refusal : Text → Text → Text → AppError
refusal before name after = invalid_argument (before ++ name ++ after)

abbrev repeated : Text → Text → Text → Text → AppError
repeated before name between duplicate =
    invalid_argument (before ++ name ++ between ++ duplicate ++ text "` twice")

-- `if let Some(duplicate) = … { return Err(…) }`.
abbrev pub unrepeated : Text → Text → Text → Option Text → Result (Unit {0})
unrepeated before name between none = ok tt
unrepeated before name between (some duplicate) = err (repeated before name between duplicate)

abbrev kind_name : InputKind → Text
kind_name text_input = text "text"
kind_name number = text "number"
kind_name choice = text "choice"
kind_name secret = text "secret"

abbrev choices_error : InputKind → Text → AppError
choices_error choice name =
    refusal (text "choice input `") name (text "` needs at least one choice")
choices_error kind name =
    refusal (kind_name kind ++ text " input `") name (text "` cannot have choices")

-- `value_from`: an empty value counts as none.
abbrev pub given : Option Text → Option Text
given none = none
given (some []) = none
given (some (b ∷ bs)) = some (b ∷ bs)

abbrev pub or_else : Option Text → Option Text → Option Text
or_else none other = other
or_else (some t) other = some t

unfoldable pub value_from : ScriptInput → InputValues → Option Text
value_from input values = or_else (given (lookup input.name values)) input.default_value

abbrev pub choices_fit : InputKind → List Text → Bool
choices_fit choice [] = false
choices_fit choice (t ∷ ts) = true
choices_fit _ [] = true
choices_fit _ (t ∷ ts) = false

abbrev pub fits_length : Option Text → Bool
fits_length none = true
fits_length (some d) = leb (count_chars d) max_input_description_len

abbrev pub free_of_nul : Option Text → Bool
free_of_nul none = true
free_of_nul (some d) = not (has_nul d)

module _ (is_number : Text → Bool) where
  abbrev pub is_of_kind : InputKind → List Text → Text → Bool
  is_of_kind text_input choices value = true
  is_of_kind secret choices value = true
  is_of_kind number choices value = is_number value
  is_of_kind choice choices value = contains choices value

  abbrev kind_error : InputKind → Text → List Text → CheckError
  kind_error choice name choices = not_a_choice name choices
  kind_error _ name choices = not_a_number name

  -- The error of `check`, if there is one.
  unfoldable pub check : ScriptInput → Text → Option CheckError
  check input value =
      if has_nul value
      then some (contains_nul input.name)
      else if is_of_kind input.kind input.choices value
      then none
      else some (kind_error input.kind input.name input.choices)

  unfoldable pub default_result : Option CheckError → Result (Unit {0})
  unfolding check_message
  default_result none = ok tt
  default_result (some e) =
      err (invalid_argument (text "default value is invalid: " ++ check_message e))

  unfoldable pub check_default : ScriptInput → Option Text → Result (Unit {0})
  unfolding check default_result
  check_default input none = ok tt
  check_default input (some value) = default_result (check input value)

  unfoldable pub validate : ScriptInput → Result (Unit {0})
  unfolding check_default first_duplicate
  validate input = do
    ensure (is_input_name input.name)
        (refusal (text "input name `") input.name (text "` may only contain a-z, 0-9 and _"))
    ensure (choices_fit input.kind input.choices) (choices_error input.kind input.name)
    unrepeated (text "input `") input.name (text "` lists choice `") (first_duplicate input.choices)
    ensure (fits_length input.description)
        (refusal (text "input `") input.name (text "` description is longer than 1000 characters"))
    ensure (free_of_nul input.description)
        (refusal (text "input `") input.name (text "` description cannot contain NUL bytes"))
    ensure (not (is_secret input.kind && is_some input.default_value))
        (refusal (text "secret input `") input.name (text "` cannot have a default value"))
    check_default input input.default_value

  unfoldable pub validate_script_name : Text → Result (Unit {0})
  validate_script_name name = ensure (is_script_name name) (
      refusal (text "script name `") name
        (text "` must be 1 to 64 letters, digits, -, _ or . and cannot start with ."))

  unfoldable pub validate_all : List ScriptInput → Result (Unit {0})
  unfolding validate
  validate_all [] = ok tt
  validate_all (input ∷ inputs) = validate input >> validate_all inputs

  unfoldable pub validate_script : Text → Text → List ScriptInput → Result (Unit {0})
  unfolding validate_script_name validate_all first_duplicate
  validate_script name body inputs = do
    validate_script_name name
    ensure (not (is_blank body)) (refusal (text "script `") name (text "` has an empty body"))
    validate_all inputs
    unrepeated (text "script `") name (text "` declares input `")
        (first_duplicate (map (λ i. i.name) inputs))
