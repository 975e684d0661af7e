-- ===== src/Script/Expected.antt =====
-- What `validate_script` expects of names, choices, descriptions and defaults, written out
-- (crates/model/src/script.rs), and that its tests agree with it.
use imaged.Base.{
  Bool, true, false, not, ◌&&◌, ◌||◌, ◌≡◌, refl, arith, Option, none, some, List, [], ◌∷◌, any, all,
  leb, ◌==◌, length,
}
use imaged.Text.{Text}
use imaged.Script.{
  InputKind, text_input, number, choice, secret, count_chars, same_text, has_nul, is_input_name,
  is_script_name,
}
use imaged.Script.Validation.{choices_fit, fits_length, free_of_nul}

-- `a` to `z`, `0` to `9` and `_`.
abbrev pub of_input_name : Text → Bool
of_input_name [] = true
of_input_name (b ∷ bs) =
    ((leb b'a' b && leb b b'z') || ((leb b'0' b && leb b b'9') || b == b'_')) && of_input_name bs

-- The same with `A` to `Z`, `-` and `.`.
abbrev pub of_script_name : Text → Bool
of_script_name [] = true
of_script_name (b ∷ bs) =
    ((leb b'a' b && leb b b'z')
      || ((leb b'A' b && leb b b'Z')
          || ((leb b'0' b && leb b b'9') || (b == b'-' || (b == b'_' || b == b'.')))))
    && of_script_name bs

abbrev pub names_input : Text → Bool
names_input [] = false
names_input (b ∷ bs) = of_input_name (b ∷ bs)

-- 1 to 64 bytes, the first of which is not a dot.
abbrev pub names_script : Text → Bool
names_script [] = false
names_script (b ∷ bs) = not (b == b'.') && (leb (length (b ∷ bs)) 64 && of_script_name (b ∷ bs))

abbrev pub without_nul : Text → Bool
without_nul [] = true
without_nul (b ∷ bs) = not (b == 0) && without_nul bs

-- Choices are listed for a choice, and for nothing else.
abbrev pub lists : InputKind → List Text → Bool
lists choice [] = false
lists choice (c ∷ cs) = true
lists text_input [] = true
lists text_input (c ∷ cs) = false
lists number [] = true
lists number (c ∷ cs) = false
lists secret [] = true
lists secret (c ∷ cs) = false

-- At most 1000 characters, and none of them is NUL.
abbrev pub describes : Option Text → Bool
describes none = true
describes (some d) = leb (count_chars d) 1000 && without_nul d

-- A secret has no default; any other is free of NUL and of the input's kind.
abbrev pub defaults : (Text → Bool) → InputKind → List Text → Option Text → Bool
defaults is_number kind choices none = true
defaults is_number secret choices (some v) = false
defaults is_number text_input choices (some v) = without_nul v
defaults is_number number choices (some v) = without_nul v && is_number v
defaults is_number choice choices (some v) = without_nul v && any (λ c. same_text c v) choices

of_input_name_lem :
    (t : Text)
    → all (λ b. (leb 97 b && leb b 122) || ((leb 48 b && leb b 57) || b == 95)) t ≡ of_input_name t
of_input_name_lem [] = refl
of_input_name_lem (b ∷ bs) = rw (of_input_name_lem bs) refl

of_script_name_lem :
    (t : Text)
    → all
        (λ b.
          (leb 97 b && leb b 122)
          || ((leb 65 b && leb b 90)
              || ((leb 48 b && leb b 57) || (b == 45 || (b == 95 || b == 46)))))
        t
      ≡ of_script_name t
of_script_name_lem [] = refl
of_script_name_lem (b ∷ bs) = rw (of_script_name_lem bs) refl

pub without_nul_lem : (t : Text) → not (has_nul t) ≡ without_nul t
without_nul_lem [] = refl
without_nul_lem (b ∷ bs) = ground (arith, without_nul_lem bs)

pub names_input_lem : (t : Text) → is_input_name t ≡ names_input t
names_input_lem [] = refl
names_input_lem (b ∷ bs) = of_input_name_lem (b ∷ bs)

pub names_script_lem : (t : Text) → is_script_name t ≡ names_script t
names_script_lem [] = refl
names_script_lem (b ∷ bs) =
    rw (of_script_name_lem (b ∷ bs)) (and_swap (leb (length (b ∷ bs)) 64) (not (b == 46)) _)
  where
    and_swap : (p q r : Bool) → (p && (q && r)) ≡ (q && (p && r))
    and_swap true q r = refl
    and_swap false true r = refl
    and_swap false false r = refl

pub lists_lem :
    (kind : InputKind) (choices : List Text) → choices_fit kind choices ≡ lists kind choices
lists_lem choice [] = refl
lists_lem choice (c ∷ cs) = refl
lists_lem text_input [] = refl
lists_lem text_input (c ∷ cs) = refl
lists_lem number [] = refl
lists_lem number (c ∷ cs) = refl
lists_lem secret [] = refl
lists_lem secret (c ∷ cs) = refl

pub describes_lem : (d : Option Text) → (fits_length d && free_of_nul d) ≡ describes d
describes_lem none = refl
describes_lem (some d) = rw (without_nul_lem d) refl
