-- ===== src/Base/Distinct.antt =====
-- Lists whose elements differ in a key that is a number, such as the rows of a table with a primary
-- key; and association lists at a key that they lack.
use Prim.Native.Nat.{ℕ}
use mathlib.Core.Path.{◌≡◌, refl, ◌∙◌}
use mathlib.Core.Bool.{Bool, true, false, not, ◌&&◌}
use mathlib.Core.Option.{none, some}
use mathlib.Core.List.{List, [], ◌∷◌, ◌++◌}
use mathlib.Core.Logic.{inl, inr}
use native.Mathlib.Omega.{arith}
use imaged.Base.Tests.{◌==◌, if◌then◌else◌, Bool-cases}
use imaged.Base.Lists.{any, keep}
use imaged.Base.Sorting.{insert_by, sort_by, any-insert_by, any-sort_by}
use imaged.Base.Assoc.{Assoc}
use imaged.Base.Assoc

module _ {A : Type 0} (key : A → ℕ) where
  abbrev pub is_at : ℕ → A → Bool
  is_at k a = key a == k

  unfoldable pub is_distinct : List A → Bool
  is_distinct [] = true
  is_distinct (a ∷ l) = not (any (is_at (key a)) l) && is_distinct l

  pub any-keep-false : (q p : A → Bool) (l : List A) → any q l ≡ false → any q (keep p l) ≡ false
  any-keep-false q p [] h = refl
  any-keep-false q p (a ∷ l) h = ground (arith, any-keep-false q p l)

  pub is_distinct-keep :
      (p : A → Bool) (l : List A) → is_distinct l ≡ true → is_distinct (keep p l) ≡ true
  unfolding is_distinct
  is_distinct-keep p [] h = refl
  is_distinct-keep p (a ∷ l) h =
      let rest = is_distinct-keep p l (ground arith) in
      let apart = any-keep-false (is_at (key a)) p l (ground arith) in
      elim (Bool-cases (p a)) [ inl e ↦ rw e (ground arith) | inr e ↦ rw e rest ]

  is_distinct-insert_by :
      (a : A) (l : List A)
      → any (is_at (key a)) l ≡ false
      → is_distinct l ≡ true
      → is_distinct (insert_by key a l) ≡ true
  unfolding is_distinct
  is_distinct-insert_by a [] n h = refl
  is_distinct-insert_by a (b ∷ l) n h =
      let rest = is_distinct-insert_by a l (ground arith) (ground arith) in
      let same = any-insert_by key (is_at (key b)) a l in ground arith

  pub is_distinct-sort_by : (l : List A) → is_distinct l ≡ true → is_distinct (sort_by key l) ≡ true
  unfolding is_distinct
  is_distinct-sort_by [] h = refl
  is_distinct-sort_by (a ∷ l) h =
      is_distinct-insert_by a (sort_by key l) (any-sort_by key (is_at (key a)) l ∙ ground arith)
        (is_distinct-sort_by l (ground arith))

module _ {ℓ} {V : Type ℓ} where
  pub insert-absent :
      (k : ℕ) (v : V) (m : Assoc V) → Assoc.get k m ≡ none → Assoc.insert k v m ≡ m ++ (k, v) ∷ []
  unfolding Assoc.get Assoc.insert
  insert-absent k v [] h = refl
  insert-absent k v ((j, w) ∷ m) h = ground (arith, insert-absent k v m)

  pub insert-last :
      (k : ℕ) (v w : V) (m : Assoc V)
      → Assoc.get k m ≡ none
      → Assoc.insert k v (m ++ (k, w) ∷ []) ≡ m ++ (k, v) ∷ []
  unfolding Assoc.get Assoc.insert
  insert-last k v w [] h = ground arith
  insert-last k v w ((j, x) ∷ m) h = ground (arith, insert-last k v w m)

  pub get-snoc :
      (k j : ℕ) (v : V) (m : Assoc V)
      → Assoc.get k m ≡ none
      → Assoc.get k (m ++ (j, v) ∷ []) ≡ (if j == k then some v else none)
  unfolding Assoc.get
  get-snoc k j v [] h = refl
  get-snoc k j v ((i, w) ∷ m) h = ground (arith, get-snoc k j v m)

  pub remove-absent : (k : ℕ) (m : Assoc V) → Assoc.get k m ≡ none → Assoc.remove k m ≡ m
  unfolding Assoc.get Assoc.remove
  remove-absent k [] h = refl
  remove-absent k ((j, w) ∷ m) h = ground (arith, remove-absent k m)
