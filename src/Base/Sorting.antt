-- ===== src/Base/Sorting.antt =====
-- Sorting by a key that is a number, or a text in the order of its bytes (SQLite's `BINARY`). Equal
-- keys keep their order.
use Prim.Native.Nat.{ℕ}
use mathlib.Core.Bool.{Bool, true, false, ◌&&◌, ◌||◌}
use mathlib.Core.List.{List, [], ◌∷◌}
use mathlib.Core.Path.{◌≡◌, refl, ap, ◌∙◌}
use native.Mathlib.Omega.{arith}
use imaged.Base.Tests.{ltb, ◌==◌, if◌then◌else◌}
use imaged.Base.Lists.{any}

-- `ORDER BY`, on a key.
module _ {ℓ} {A : Type ℓ} (key : A → ℕ) where
  abbrev pub insert_by : A → List A → List A
  insert_by a [] = a ∷ []
  insert_by a (b ∷ bs) =
      let rest = insert_by a bs in if ltb (key b) (key a) then b ∷ rest else a ∷ b ∷ bs

  abbrev pub sort_by : List A → List A
  sort_by [] = []
  sort_by (a ∷ rest) = insert_by a (sort_by rest)

abbrev pub less_text : List ℕ → List ℕ → Bool
less_text as_ [] = false
less_text [] (b ∷ bs) = true
less_text (a ∷ as_) (b ∷ bs) = ltb a b || (a == b && less_text as_ bs)

module _ {ℓ} {A : Type ℓ} (key : A → List ℕ) where
  abbrev pub insert_by_text : A → List A → List A
  insert_by_text a [] = a ∷ []
  insert_by_text a (b ∷ bs) =
      let rest = insert_by_text a bs in if less_text (key b) (key a) then b ∷ rest else a ∷ b ∷ bs

  abbrev pub sort_by_text : List A → List A
  sort_by_text [] = []
  sort_by_text (a ∷ rest) = insert_by_text a (sort_by_text rest)

pub any-insert_by {ℓ} :
    {A : Type ℓ} (key : A → ℕ) (p : A → Bool) (a : A) (l : List A)
    → any p (insert_by key a l) ≡ (p a || any p l)
any-insert_by key p a [] = refl
any-insert_by key p a (b ∷ bs) = ground (arith, any-insert_by key p a bs)

-- Sorting loses and adds nothing.
pub any-sort_by {ℓ} :
    {A : Type ℓ} (key : A → ℕ) (p : A → Bool) (l : List A) → any p (sort_by key l) ≡ any p l
any-sort_by key p [] = refl
any-sort_by key p (a ∷ l) =
    any-insert_by key p a (sort_by key l) ∙ ap (p a ||◌) (any-sort_by key p l)
