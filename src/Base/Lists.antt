-- ===== src/Base/Lists.antt =====
-- Lists over the native numbers.
use Prim.Native.Nat.{ℕ, zero, suc, ◌+◌}
use mathlib.Core.Path.{◌≡◌, refl, ap}
use mathlib.Core.Bool.{Bool, true, false, ◌&&◌, ◌||◌}
use mathlib.Core.Option.{Option, none, some}
use mathlib.Core.List.{List, [], ◌∷◌, ◌++◌, map}
use native.Mathlib.Omega.{arith}
use mathlib.Core.Logic.{inl, inr}
use imaged.Base.Tests.{if◌then◌else◌, Bool-cases, ◌==◌}

module _ {ℓ} {A : Type ℓ} where
  abbrev pub length : List A → ℕ
  length [] = 0
  length (x ∷ xs) = suc (length xs)

  abbrev pub take : ℕ → List A → List A
  take zero xs = []
  take (suc n) [] = []
  take (suc n) (x ∷ xs) = x ∷ take n xs

  abbrev pub drop : ℕ → List A → List A
  drop zero xs = xs
  drop (suc n) [] = []
  drop (suc n) (x ∷ xs) = drop n xs

  -- `iter().any(p)`, `iter().all(p)`, `iter().filter(p)`, `iter().find(p)`.
  abbrev pub any : (A → Bool) → List A → Bool
  any p [] = false
  any p (x ∷ xs) = p x || any p xs

  abbrev pub all : (A → Bool) → List A → Bool
  all p [] = true
  all p (x ∷ xs) = p x && all p xs

  abbrev pub keep : (A → Bool) → List A → List A
  keep p [] = []
  keep p (x ∷ xs) = let rest = keep p xs in if p x then x ∷ rest else rest

  abbrev pub find : (A → Bool) → List A → Option A
  find p [] = none
  find p (x ∷ xs) = let rest = find p xs in if p x then some x else rest

  -- An SQL `UPDATE … WHERE`: `f` on the rows that `p` selects.
  abbrev pub update_where : (A → Bool) → (A → A) → List A → List A
  update_where p f [] = []
  update_where p f (x ∷ xs) = (if p x then f x else x) ∷ update_where p f xs

  -- A predicate on every element.
  abbrev pub All {κ} : (A → Type κ) → List A → Type κ
  All P [] = Unit
  All P (x ∷ xs) = P x × All P xs

  pub length-append : (xs ys : List A) → length (xs ++ ys) ≡ length xs + length ys
  length-append [] ys = omega arith
  length-append (x ∷ xs) ys = omega (arith, length-append xs ys)

  pub take-drop : (n : ℕ) (xs : List A) → take n xs ++ drop n xs ≡ xs
  take-drop zero xs = refl
  take-drop (suc n) [] = refl
  take-drop (suc n) (x ∷ xs) = ap (◌∷◌ x) (take-drop n xs)

  pub drop-append_length : (xs ys : List A) → drop (length xs) (xs ++ ys) ≡ ys
  drop-append_length [] ys = refl
  drop-append_length (x ∷ xs) ys = drop-append_length xs ys

  -- Where no element passes `q`, none passes `q'` after the update.
  pub any-update_where :
      (q q' p : A → Bool) (f : A → A)
      → ((x : A) → q x ≡ false → q' (if p x then f x else x) ≡ false)
      → (xs : List A) → any q xs ≡ false
      → any q' (update_where p f xs) ≡ false
  any-update_where q q' p f h [] e = refl
  any-update_where q q' p f h (x ∷ xs) e = ground (arith, h x, any-update_where q q' p f h xs)

  pub any-update_where_none :
      (q p : A → Bool) (f : A → A)
      → ((x : A) → q (if p x then f x else x) ≡ false)
      → (xs : List A) → any q (update_where p f xs) ≡ false
  any-update_where_none q p f h [] = refl
  any-update_where_none q p f h (x ∷ xs) = ground (arith, h x, any-update_where_none q p f h xs)

  pub any_mono :
      (p q : A → Bool)
      → ((x : A) → p x ≡ true → q x ≡ true)
      → (xs : List A) → any p xs ≡ true
      → any q xs ≡ true
  any_mono p q h [] e = e
  any_mono p q h (x ∷ xs) e = ground (arith, h x, any_mono p q h xs)

  pub All-update_where {κ} :
      (P : A → Type κ) (p : A → Bool) (f : A → A)
      → ((x : A) → p x ≡ true → P x → P (f x))
      → (xs : List A) → All P xs
      → All P (update_where p f xs)
  All-update_where P p f keeps [] h = tt
  All-update_where P p f keeps (x ∷ xs) h =
      let rest = All-update_where P p f keeps xs h.1 in
      elim (Bool-cases (p x)) [ inl e ↦ rw e (keeps x e h.0, rest) | inr e ↦ rw e (h.0, rest) ]

pub any-map-keep {ℓ κ} :
    {A : Type ℓ} {B : Type κ} (q : B → Bool) (f : A → B) (p : A → Bool) (xs : List A)
    → any q (map f (keep p xs)) ≡ any (λ x. p x && q (f x)) xs
any-map-keep q f p [] = refl
any-map-keep q f p (x ∷ xs) = ground (arith, any-map-keep q f p xs)

-- `contains`.
abbrev pub elem : ℕ → List ℕ → Bool
elem h hs = any (λ k. k == h) hs
