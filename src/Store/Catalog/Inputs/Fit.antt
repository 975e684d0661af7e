-- ===== src/Store/Catalog/Inputs/Fit.antt =====
-- The inputs that a deployment accepts are those that its scripts find on the host
-- (crates/core/src/domain/script.rs, crates/api/agent/src/scripts.rs).
use mathlib.Core.Path.{subst}
use imaged.Base.{
  Bool, true, false, not, ◌&&◌, Option, none, some, List, All, [], ◌∷◌, any, if◌then◌else◌, ◌≡◌,
  refl, sym, ap, ◌∙◌, arith, inl, inr, Bool-cases, Option-cases,
}
use imaged.Base.Sorting.{less_text}
use imaged.Text.{Text}
use imaged.Error.{ok, AppError, ◌>>=◌, ◌>>◌, bind_ok, ok_injective, ensure_ok}
use imaged.Script.{ScriptInput, InputValues, same_text, lookup}
use imaged.Script.Validation.{CheckError, check, value_from}
use imaged.Store.Catalog.Inputs

same_text-eq : (a b : Text) → same_text a b ≡ true → a ≡ b
same_text-eq [] [] e = refl
same_text-eq [] (b ∷ bs) e = cc
same_text-eq (a ∷ as_) [] e = cc
same_text-eq (a ∷ as_) (b ∷ bs) e =
    let head : a ≡ b = ground arith in
    let tail = same_text-eq as_ bs (ground arith) in ap (◌∷ as_) head ∙ ap (◌∷◌ b) tail

same_text_refl : (a : Text) → same_text a a ≡ true
same_text_refl [] = refl
same_text_refl (a ∷ as_) = let rest = same_text_refl as_ in ground arith

same_text_sym : (a b : Text) → same_text a b ≡ same_text b a
same_text_sym [] [] = refl
same_text_sym [] (b ∷ bs) = refl
same_text_sym (a ∷ as_) [] = refl
same_text_sym (a ∷ as_) (b ∷ bs) = let rest = same_text_sym as_ bs in ground arith

lookup-insert_value :
    (m : Text) (v : Text) (values : InputValues)
    → lookup m (Inputs.insert_value m v values) ≡ some v
unfolding Inputs.insert_value
lookup-insert_value m v [] = rw (same_text_refl m) refl
lookup-insert_value m v ((n, w) ∷ values) =
    let rest = lookup-insert_value m v values in let here = same_text_refl m in ground arith

lookup-insert_other :
    (m n : Text) (v : Text) (values : InputValues)
    → same_text m n ≡ false
    → lookup n (Inputs.insert_value m v values) ≡ lookup n values
unfolding Inputs.insert_value
lookup-insert_other m n v [] e = rw e refl
lookup-insert_other m n v ((k, w) ∷ values) e =
    let rest = lookup-insert_other m n v values e in
    elim (Bool-cases (same_text k m)) [
      | inl h ↦
          let other : same_text k n ≡ false =
            subst (λ x. same_text x n ≡ false) (sym (same_text-eq k m h)) e in
          rw (h, e, other) refl
      | inr h ↦ elim (Bool-cases (less_text m k)) [
        | inl l ↦ rw (h, l, e) refl
        | inr l ↦ rw (h, l) (ap (λ o. if same_text k n then some w else o) rest)
      ]
    ]

abbrev pub unrepeated_names : List ScriptInput → Bool
unrepeated_names [] = true
unrepeated_names (i ∷ inputs) =
    not (any (λ j. same_text j.name i.name) inputs) && unrepeated_names inputs

-- What the loop does not refuse of an input.
pub record IsFit (is_number : Text → Bool) (i : ScriptInput) (o : Option Text) : Type 0 where
  pub accepted : (v : Text) → o ≡ some v → check is_number i v ≡ none
  pub given : o ≡ none → i.required ≡ false

stored : ScriptInput → Option Text → InputValues → InputValues
stored i none values = values
stored i (some v) values = Inputs.insert_value i.name v values

record IsAdded (is_number : Text → Bool) (i : ScriptInput) (o : Option Text)
    (values after : InputValues) : Type 0 where
  fit : IsFit is_number i o
  same : after ≡ stored i o values

add_value-IsAdded :
    (is_number : Text → Bool) (refuse : Text → AppError) (i : ScriptInput) (o : Option Text)
    (values after : InputValues)
    → Inputs.add_value is_number refuse i o values ≡ ok after
    → IsAdded is_number i o values after
unfolding stored
add_value-IsAdded is_number refuse i none values after e =
    let (h, f) = ensure_ok (not i.required) _ (ok values) e in
    record {
      fit = record { accepted = λ v q. cc; given = λ q. ground arith };
      same = sym (ok_injective values after f);
    }
add_value-IsAdded is_number refuse i (some w) values after e =
    elim (Option-cases (check is_number i w)) [
      | inl c ↦
          let f =
            ap (λ o. Inputs.checked is_number refuse o >> ok (Inputs.insert_value i.name w values))
              (sym c)
            ∙ e in
          record {
            fit = record {
              accepted =
                  λ v q. let same : w ≡ v = cc in subst (λ x. check is_number i x ≡ none) same c;
              given = λ q. cc;
            };
            same = sym (ok_injective (Inputs.insert_value i.name w values) after f);
          }
      | inr (x, c) ↦ absurd (
          never x (
            ap (λ o. Inputs.checked is_number refuse o >> ok (Inputs.insert_value i.name w values))
              (sym c)
            ∙ e))
    ]
  where
    never :
        (x : CheckError)
        → (Inputs.checked is_number refuse (some x) >> ok (Inputs.insert_value i.name w values))
          ≡ ok after
        → ⊥
    never x q = cc

-- An input that fits is not refused, whatever was added before.
add_value-ok :
    (is_number : Text → Bool) (refuse : Text → AppError) (i : ScriptInput) (o : Option Text)
    (values : InputValues)
    → IsFit is_number i o
    → Inputs.add_value is_number refuse i o values ≡ ok (stored i o values)
unfolding stored
add_value-ok is_number refuse i none values f = let h = f.given refl in rw h refl
add_value-ok is_number refuse i (some v) values f =
    ap (λ o. Inputs.checked is_number refuse o >> ok (Inputs.insert_value i.name v values))
      (f.accepted v refl)

lookup-stored_other :
    (i : ScriptInput) (o : Option Text) (n : Text) (values : InputValues)
    → same_text i.name n ≡ false
    → lookup n (stored i o values) ≡ lookup n values
unfolding stored
lookup-stored_other i none n values e = refl
lookup-stored_other i (some v) n values e = lookup-insert_other i.name n v values e

lookup-stored :
    (i : ScriptInput) (o : Option Text) (values : InputValues)
    → lookup i.name values ≡ none
    → lookup i.name (stored i o values) ≡ o
unfolding stored
lookup-stored i none values e = e
lookup-stored i (some v) values e = lookup-insert_value i.name v values

module _ (is_number : Text → Bool) (refuse : Text → AppError)
    (source : ScriptInput → InputValues) where
  abbrev pub own : ScriptInput → Option Text
  own i = value_from i (source i)

  -- What the loop makes of one input and of the others.
  add_values-cons :
      (i : ScriptInput) (inputs : List ScriptInput) (values after : InputValues)
      → Inputs.add_values is_number refuse source (i ∷ inputs) values ≡ ok after
      → IsFit is_number i (own i)
        × (Inputs.add_values is_number refuse source inputs (stored i (own i) values) ≡ ok after)
  unfolding Inputs.add_values
  add_values-cons i inputs values after e =
      let (next, e1, e2) =
        bind_ok (Inputs.add_value is_number refuse i (own i) values)
          (Inputs.add_values is_number refuse source inputs) after e in
      let added = add_value-IsAdded is_number refuse i (own i) values next e1 in
      (added.fit, ap (Inputs.add_values is_number refuse source inputs) (sym added.same) ∙ e2)

  add_values-others :
      (inputs : List ScriptInput) (values after : InputValues) (n : Text)
      → Inputs.add_values is_number refuse source inputs values ≡ ok after
      → any (λ j. same_text j.name n) inputs ≡ false
      → lookup n after ≡ lookup n values
  unfolding Inputs.add_values
  add_values-others [] values after n e h = ap (lookup n) (sym (ok_injective values after e))
  add_values-others (i ∷ inputs) values after n e h =
      let (_, e1) = add_values-cons i inputs values after e in
      add_values-others inputs (stored i (own i) values) after n e1 (ground arith)
      ∙ lookup-stored_other i (own i) n values (ground arith)

  abbrev pub Found : InputValues → ScriptInput → Type 0
  Found after i = IsFit is_number i (own i) × (lookup i.name after ≡ own i)

  fresh-stored :
      (i : ScriptInput) (o : Option Text) (values : InputValues) (inputs : List ScriptInput)
      → any (λ j. same_text j.name i.name) inputs ≡ false
      → All (λ j. lookup j.name values ≡ none) inputs
      → All (λ j. lookup j.name (stored i o values) ≡ none) inputs
  fresh-stored i o values [] h v = tt
  fresh-stored i o values (j ∷ inputs) h v = (
    lookup-stored_other i o j.name values (same_text_sym i.name j.name ∙ ground arith) ∙ v.0,
    fresh-stored i o values inputs (ground arith) v.1,
  )

  pub add_values-Found :
      (inputs : List ScriptInput) (values after : InputValues)
      → unrepeated_names inputs ≡ true
      → All (λ j. lookup j.name values ≡ none) inputs
      → Inputs.add_values is_number refuse source inputs values ≡ ok after
      → All (Found after) inputs
  add_values-Found [] values after u v e = tt
  add_values-Found (i ∷ inputs) values after u v e =
      let (fit, e1) = add_values-cons i inputs values after e in
      let alone : any (λ j. same_text j.name i.name) inputs ≡ false = ground arith in
      (
        (
          fit,
          add_values-others inputs (stored i (own i) values) after i.name e1 alone
              ∙ lookup-stored i (own i) values v.0,
        ),
        add_values-Found inputs (stored i (own i) values) after (ground arith)
            (fresh-stored i (own i) values inputs alone v.1) e1,
      )

  pub add_values-ok :
      (inputs : List ScriptInput) (values : InputValues)
      → All (λ i. IsFit is_number i (own i)) inputs
      → (after : InputValues) × (Inputs.add_values is_number refuse source inputs values ≡ ok after)
  unfolding Inputs.add_values
  add_values-ok [] values v = (values, refl)
  add_values-ok (i ∷ inputs) values v =
      let (after, e) = add_values-ok inputs (stored i (own i) values) v.1 in
      (
        after,
        ap (◌>>= Inputs.add_values is_number refuse source inputs)
              (add_value-ok is_number refuse i (own i) values v.0)
            ∙ e,
      )
