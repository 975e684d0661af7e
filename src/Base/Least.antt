-- ===== src/Base/Least.antt =====
-- `ORDER BY … LIMIT 1`: the first of the elements that no other one precedes.
use mathlib.Core.Path.{◌≡◌, refl, sym, subst}
use mathlib.Core.Logic.{◌⊎◌, inl, inr}
use mathlib.Core.Bool.{Bool, true, false}
use mathlib.Core.Option.{Option, none, some}
use mathlib.Core.List.{List, [], ◌∷◌, Memᴰ}
use native.Mathlib.Omega.{arith}
use imaged.Base.Tests.{if◌then◌else◌, Bool-cases, Option-cases}
use imaged.Base.Lists.{All}

module _ {ℓ} {A : Type ℓ} (precedes : A → A → Bool) where
  unfoldable pub better : A → Option A → A
  better a none = a
  better a (some b) = if precedes b a then b else a

  unfoldable pub least : List A → Option A
  unfolding better
  least [] = none
  least (a ∷ l) = some (better a (least l))

  pub least-nil : (l : List A) → least l ≡ none → l ≡ []
  unfolding least
  least-nil [] e = refl
  least-nil (a ∷ l) e = cc

  least-cons :
      (a : A) (l : List A) (c : A)
      → least (a ∷ l) ≡ some c
      → ((c ≡ a) × (l ≡ []))
        ⊎ ((b : A) × (least l ≡ some b) × (c ≡ (if precedes b a then b else a)))
  unfolding least
  least-cons a l c e = elim (Option-cases (least l)) [
    | inl n ↦ inl (ground arith, least-nil l n)
    | inr (b, s) ↦ inr (b, s, ground arith)
  ]

  pub least-mem : (l : List A) (c : A) → least l ≡ some c → Memᴰ c l
  unfolding least
  least-mem [] c e = cc
  least-mem (a ∷ l) c e = elim (least-cons a l c e) [
    | inl (ca, _) ↦ Memᴰ.head ca
    | inr (b, s, cb) ↦ elim (Bool-cases (precedes b a)) [
      | inl t ↦ Memᴰ.tail (least-mem l c (ground arith))
      | inr f ↦ Memᴰ.head (ground arith)
    ]
  ]

-- A strict order in which two elements may be level.
pub record IsOrder {ℓ} {A : Type ℓ} (precedes : A → A → Bool) : Type ℓ where
  pub irrefl : (a : A) → precedes a a ≡ false
  pub asym : (a b : A) → precedes a b ≡ true → precedes b a ≡ false
  pub neg_trans : (a b c : A) → precedes a b ≡ false → precedes b c ≡ false → precedes a c ≡ false

module _ {ℓ} {A : Type ℓ} (precedes : A → A → Bool) (order : IsOrder precedes) where
  All-unbeaten :
      (b c : A) (l : List A)
      → precedes b c ≡ false
      → All (λ d. precedes d b ≡ false) l
      → All (λ d. precedes d c ≡ false) l
  All-unbeaten b c [] e h = tt
  All-unbeaten b c (d ∷ l) e h = (order.neg_trans d b c h.0 e, All-unbeaten b c l e h.1)

  -- No element precedes the one that is chosen.
  pub least-unbeaten :
      (l : List A) (c : A) → least precedes l ≡ some c → All (λ d. precedes d c ≡ false) l
  unfolding least
  least-unbeaten [] c e = cc
  least-unbeaten (a ∷ l) c e = elim (least-cons precedes a l c e) [
    | inl (ca, ln) ↦ rw (ca, ln) (order.irrefl a, tt)
    | inr (b, s, cb) ↦ elim (Bool-cases (precedes b a)) [
      | inl t ↦
          let cb' : c ≡ b = ground arith in
          subst (λ x. All (λ d. precedes d x ≡ false) (a ∷ l)) (sym cb')
            (order.asym b a t, least-unbeaten l b s)
      | inr f ↦
          let ca : c ≡ a = ground arith in
          subst (λ x. All (λ d. precedes d x ≡ false) (a ∷ l)) (sym ca)
            (order.irrefl a, All-unbeaten b a l f (least-unbeaten l b s))
    ]
  ]
