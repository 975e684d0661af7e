-- ===== src/Script/Accepted.antt =====
-- Which scripts are accepted (`validate_script` in crates/model/src/script.rs).
use imaged.Base.{
  Bool, true, false, not, ◌&&◌, ◌||◌, ◌≡◌, refl, arith, ◌∙◌, ap, Option, none, some, List, [], ◌∷◌,
  map, any, all, is_some,
}
use imaged.Text.{Text, text}
use imaged.Error.{Result, ok, err, ◌>>◌, is_ok}
use imaged.Script.{
  InputKind, text_input, number, choice, secret, ScriptInput, same_text, has_nul, contains,
  first_duplicate_after, first_duplicate, is_blank,
}
use imaged.Script.Expected.{
  names_input, names_script, without_nul, lists, describes, defaults, names_input_lem,
  names_script_lem, lists_lem, describes_lem, without_nul_lem,
}
use imaged.Script.Validation.{
  is_secret, unrepeated, is_of_kind, check, default_result, check_default, validate,
  validate_script_name, validate_all, validate_script,
}

same_text_sym : (a b : Text) → same_text a b ≡ same_text b a
same_text_sym [] [] = refl
same_text_sym [] (b ∷ bs) = refl
same_text_sym (a ∷ as_) [] = refl
same_text_sym (a ∷ as_) (b ∷ bs) = ground (arith, same_text_sym as_ bs)

-- No text of the list comes again behind itself.
abbrev pub distinct : List Text → Bool
distinct [] = true
distinct (t ∷ ts) = not (any (same_text t) ts) && distinct ts

any_or : (p q : Text → Bool) (ts : List Text) → any (λ t. p t || q t) ts ≡ (any p ts || any q ts)
any_or p q [] = refl
any_or p q (t ∷ ts) = ground (arith, any_or p q ts)

first_duplicate_after-distinct :
    (seen ts : List Text)
    → is_some (first_duplicate_after seen ts) ≡ (any (contains seen) ts || not (distinct ts))
unfolding first_duplicate_after
first_duplicate_after-distinct seen [] = refl
first_duplicate_after-distinct seen (t ∷ ts) =
    ground
      (arith, first_duplicate_after-distinct (t ∷ seen) ts, any_or (same_text t) (contains seen) ts)

no_duplicate : (ts : List Text) → is_some (first_duplicate ts) ≡ not (distinct ts)
unfolding first_duplicate
no_duplicate ts =
    first_duplicate_after-distinct [] ts ∙ ap (λ b. b || not (distinct ts)) (none_seen ts)
  where
    none_seen : (ts : List Text) → any (contains []) ts ≡ false
    none_seen [] = refl
    none_seen (t ∷ ts) = none_seen ts

module _ (is_number : Text → Bool) where
  abbrev default_fits : ScriptInput → Option Text → Bool
  default_fits input none = true
  default_fits input (some v) = not (has_nul v) && is_of_kind is_number input.kind input.choices v

  -- What an input must be, in terms of its fields.
  unfoldable pub is_valid_input : ScriptInput → Bool
  is_valid_input input =
      names_input input.name
      && (lists input.kind input.choices
          && (distinct input.choices
              && (describes input.description
                  && defaults is_number input.kind input.choices input.default_value)))

  defaults_lem :
      (kind : InputKind) (choices : List Text) (v : Text)
      → (not (is_secret kind) && (without_nul v && is_of_kind is_number kind choices v))
        ≡ defaults is_number kind choices (some v)
  defaults_lem secret choices v = refl
  defaults_lem text_input choices v = ground arith
  defaults_lem number choices v = refl
  defaults_lem choice choices v = refl

  default_fits_lem :
      (input : ScriptInput) (o : Option Text)
      → (not (is_secret input.kind && is_some o) && default_fits input o)
        ≡ defaults is_number input.kind input.choices o
  default_fits_lem input none = ground arith
  default_fits_lem input (some v) =
      ground (arith, without_nul_lem v, defaults_lem input.kind input.choices v)

  is_ok-check_default :
      (input : ScriptInput) (v : Option Text)
      → is_ok (check_default is_number input v) ≡ default_fits input v
  unfolding check_default default_result check
  is_ok-check_default input none = refl
  is_ok-check_default input (some v) = ground arith

  is_ok-unrepeated :
      (before name between : Text) (d : Option Text)
      → is_ok (unrepeated before name between d) ≡ not (is_some d)
  is_ok-unrepeated before name between none = refl
  is_ok-unrepeated before name between (some d) = refl

  is_ok-bind : (m k : Result (Unit {0})) → is_ok (m >> k) ≡ (is_ok m && is_ok k)
  is_ok-bind (ok x) k = refl
  is_ok-bind (err e) k = refl

  is_ok-validate : (input : ScriptInput) → is_ok (validate is_number input) ≡ is_valid_input input
  unfolding validate is_valid_input
  is_ok-validate input = ground (
    arith,
    names_input_lem input.name,
    lists_lem input.kind input.choices,
    describes_lem input.description,
    default_fits_lem input input.default_value,
    no_duplicate input.choices,
    is_ok-unrepeated (text "input `") input.name (text "` lists choice `")
        (first_duplicate input.choices),
    is_ok-check_default input input.default_value,
  )

  is_ok-validate_all :
      (inputs : List ScriptInput)
      → is_ok (validate_all is_number inputs) ≡ all is_valid_input inputs
  unfolding validate_all
  is_ok-validate_all [] = refl
  is_ok-validate_all (input ∷ inputs) =
      is_ok-bind (validate is_number input) (validate_all is_number inputs)
      ∙ ap (λ b. b && is_ok (validate_all is_number inputs)) (is_ok-validate input)
      ∙ ap (λ b. is_valid_input input && b) (is_ok-validate_all inputs)

  -- A script is accepted exactly if its name has 1 to 64 letters, digits, `-`, `_` and `.` and does
  -- not begin with a dot, its body is not blank, no two of its inputs have the same name, and each
  -- input is valid: its name has lower case letters, digits and `_`; a choice has choices, another
  -- kind has none, and none comes twice; a description has at most 1000 characters and no NUL; and
  -- a default is none of a secret, is free of NUL, and is a number or one of the choices where the
  -- kind says so.
  pub is_ok-validate_script :
      (name body : Text) (inputs : List ScriptInput)
      → is_ok (validate_script is_number name body inputs) ≡ (
          names_script name
          && (not (is_blank body)
              && (all is_valid_input inputs && distinct (map (λ i. i.name) inputs))))
  unfolding validate_script validate_script_name
  is_ok-validate_script name body inputs = ground (
    arith,
    names_script_lem name,
    no_duplicate (map (λ i. i.name) inputs),
    is_ok-unrepeated (text "script `") name (text "` declares input `")
        (first_duplicate (map (λ i. i.name) inputs)),
    is_ok-validate_all inputs,
  )
