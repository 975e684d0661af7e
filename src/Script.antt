-- ===== src/Script.antt =====
-- Scripts and their inputs (crates/model/src/script.rs).
-- Whether a text is a finite number, by `trim().parse::<f64>()`, is an argument `is_number`, since
-- floating point is not modelled. A map is the list of its entries, in the order of its names.
mod Expected
pub mod Accepted
pub mod Validation
mod Tests
use imaged.Base.{
  ℕ, zero, suc, ◌+◌, Bool, true, false, not, ◌&&◌, ◌||◌, Option, none, some, List, [], ◌∷◌, ◌++◌,
  map, ◌==◌, ltb, leb, if◌then◌else◌, any, all, keep, length, is_some,
}
use imaged.Base.Assoc.{Assoc}
use imaged.Text.{Text, text, decimal}
use imaged.Error.{Result, ok, err, AppError, invalid_argument, ◌>>=◌, ◌>>◌, ensure, ok_or}

pub data InputKind : Type 0 where
  text_input number choice secret : InputKind

pub record ScriptInput : Type 0 where
  pub name : Text
  pub label : Text
  pub description : Option Text
  pub kind : InputKind
  pub required : Bool
  pub default_value : Option Text
  pub per_machine : Bool
  pub choices : List Text

abbrev pub InputValues : Type 0
InputValues = List (Text × Text)

pub data InputSource : Type 0 where
  value variable : Text → InputSource

abbrev pub InputSources : Type 0
InputSources = List (Text × InputSource)

pub record DeployInputs : Type 0 where
  pub shared : InputSources
  pub per_machine : Assoc InputSources

pub record ResolvedInputs : Type 0 where
  pub shared : InputValues
  pub per_machine : Assoc InputValues

abbrev pub max_script_name_len : ℕ
max_script_name_len = 64

abbrev pub max_input_description_len : ℕ
max_input_description_len = 1000

abbrev pub same_text : Text → Text → Bool
same_text [] [] = true
same_text [] (b ∷ bs) = false
same_text (a ∷ as_) [] = false
same_text (a ∷ as_) (b ∷ bs) = a == b && same_text as_ bs

abbrev pub lookup : Text → InputValues → Option Text
lookup name [] = none
lookup name (entry ∷ entries) =
    let rest = lookup name entries in if same_text entry.0 name then some entry.1 else rest

not_configured : Text → Text → AppError
not_configured name variable_name = invalid_argument (
    text "input `"
    ++ name
    ++ text "` uses script variable `"
    ++ variable_name
    ++ text "`, which is not configured")

resolve_source : InputValues → Text → InputSource → Result Text
unfolding not_configured
resolve_source variables name (value v) = ok v
resolve_source variables name (variable v) = ok_or (lookup v variables) (not_configured name v)

unfoldable pub resolve_sources : InputValues → InputSources → Result InputValues
unfolding resolve_source
resolve_sources variables [] = ok []
resolve_sources variables (source ∷ sources) = resolve_source variables source.0 source.1 >>= λ v.
    resolve_sources variables sources >>= λ rest. ok ((source.0, v) ∷ rest)

resolve_machines : InputValues → Assoc InputSources → Result (Assoc InputValues)
unfolding resolve_sources
resolve_machines variables [] = ok []
resolve_machines variables (machine ∷ machines) = resolve_sources variables machine.1 >>= λ values.
    resolve_machines variables machines >>= λ rest. ok ((machine.0, values) ∷ rest)

unfoldable pub resolve : DeployInputs → InputValues → Result ResolvedInputs
unfolding resolve_machines
resolve inputs variables = resolve_sources variables inputs.shared >>= λ shared.
    resolve_machines variables inputs.per_machine >>= λ machines.
    ok record { shared = shared; per_machine = machines }

abbrev pub has_nul : Text → Bool
has_nul t = any (λ b. b == 0) t

-- `chars().count()`: each character has one byte that does not go on another.
abbrev pub count_chars : Text → ℕ
count_chars t = length (keep (λ b. not (leb 128 b && ltb b 192)) t)

abbrev is_lower : ℕ → Bool
is_lower b = leb 97 b && leb b 122

abbrev is_upper : ℕ → Bool
is_upper b = leb 65 b && leb b 90

abbrev is_digit : ℕ → Bool
is_digit b = leb 48 b && leb b 57

abbrev is_empty : Text → Bool
is_empty [] = true
is_empty (b ∷ bs) = false

abbrev starts_with_dot : Text → Bool
starts_with_dot [] = false
starts_with_dot (b ∷ bs) = b == 46

abbrev pub is_input_name : Text → Bool
is_input_name name = not (is_empty name) && all (λ b. is_lower b || (is_digit b || b == 95)) name

abbrev pub is_script_name : Text → Bool
is_script_name name =
    not (is_empty name)
    && (leb (length name) max_script_name_len
        && (not (starts_with_dot name)
            && all
                (λ b.
                  is_lower b || (is_upper b || (is_digit b || (b == 45 || (b == 95 || b == 46)))))
                name))

abbrev pub contains : List Text → Text → Bool
contains seen t = any (λ s. same_text s t) seen

unfoldable pub first_duplicate_after : List Text → List Text → Option Text
first_duplicate_after seen [] = none
first_duplicate_after seen (t ∷ ts) =
    let rest = first_duplicate_after (t ∷ seen) ts in if contains seen t then some t else rest

unfoldable pub first_duplicate : List Text → Option Text
unfolding first_duplicate_after
first_duplicate = first_duplicate_after []

-- White space by its UTF-8 bytes.
abbrev white1 : ℕ → Bool
white1 a = (leb 9 a && leb a 13) || a == 32

abbrev white2 : ℕ → ℕ → Bool
white2 a b = a == 194 && (b == 133 || b == 160)

abbrev white3 : ℕ → ℕ → ℕ → Bool
white3 a b c =
    (a == 225 && (b == 154 && c == 128))
    || ((a == 226
          && (b == 128 && ((leb 128 c && leb c 138) || (c == 168 || (c == 169 || c == 175)))))
        || ((a == 226 && (b == 129 && c == 159)) || (a == 227 && (b == 128 && c == 128))))

-- `trim().is_empty()`.
abbrev pub is_blank : Text → Bool
is_blank [] = true
is_blank (a ∷ []) = white1 a
is_blank (a ∷ (b ∷ [])) = (white1 a && white1 b) || white2 a b
is_blank (a ∷ (b ∷ (c ∷ rest))) =
    (white1 a && is_blank (b ∷ (c ∷ rest)))
    || ((white2 a b && is_blank (c ∷ rest)) || (white3 a b c && is_blank rest))
