-- ===== src/Base/Assoc.antt =====
-- The program's maps as association lists. The order of the list stands for the order in which
-- the map is iterated; no lemma depends on it.
use Prim.Native.Nat.{ℕ}
use mathlib.Core.Path.{◌≡◌, refl}
use mathlib.Core.Bool.{Bool}
use mathlib.Core.Option.{Option, none, some}
use mathlib.Core.List.{List, [], ◌∷◌, ◌++◌}
use native.Mathlib.Omega.{arith}
use imaged.Base.Tests.{◌==◌, if◌then◌else◌, is_some}

abbrev pub Assoc {ℓ} : Type ℓ → Type ℓ
Assoc V = List (ℕ × V)

module _ {ℓ} {V : Type ℓ} where
  unfoldable pub get : ℕ → Assoc V → Option V
  get k [] = none
  get k ((j, v) ∷ m) = if j == k then some v else get k m

  unfoldable pub insert : ℕ → V → Assoc V → Assoc V
  insert k v [] = (k, v) ∷ []
  insert k v ((j, w) ∷ m) = if j == k then (k, v) ∷ m else (j, w) ∷ insert k v m

  unfoldable pub remove : ℕ → Assoc V → Assoc V
  remove k [] = []
  remove k ((j, v) ∷ m) = let rest = remove k m in if j == k then rest else (j, v) ∷ rest

  unfoldable pub keys : Assoc V → List ℕ
  keys [] = []
  keys ((j, v) ∷ m) = j ∷ keys m

  pub get-insert :
      (k j : ℕ) (v : V) (m : Assoc V) → get j (insert k v m) ≡ (if k == j then some v else get j m)
  unfolding get insert
  get-insert k j v [] = refl
  get-insert k j v ((i, w) ∷ m) = ground (arith, get-insert k j v m)

  pub get-remove : (k j : ℕ) (m : Assoc V) → get j (remove k m) ≡ (if k == j then none else get j m)
  unfolding get remove
  get-remove k j [] = ground arith
  get-remove k j ((i, w) ∷ m) = ground (arith, get-remove k j m)

pub get-nil {ℓ} : {V : Type ℓ} (k : ℕ) → get {V = V} k [] ≡ none
unfolding get
get-nil k = refl

abbrev pub has {ℓ} : {V : Type ℓ} → ℕ → Assoc V → Bool
has k m = is_some (get k m)

abbrev pub or_default {ℓ} : {V : Type ℓ} → Option (List V) → List V
or_default none = []
or_default (some vs) = vs

-- `map.entry(key).or_default().push(value)`, for each element of a list.
unfoldable pub push_all {ℓ κ} :
    {A : Type κ} {V : Type ℓ} → (A → ℕ) → (A → V) → List A → Assoc (List V) → Assoc (List V)
push_all key value [] m = m
push_all key value (a ∷ l) m =
    push_all key value l (insert (key a) (or_default (get (key a) m) ++ value a ∷ []) m)
