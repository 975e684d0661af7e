-- ===== src/Base/Members.antt =====
-- Membership with its position, and what filters, maps and `++` make of it.
use mathlib.Core.Path.{◌≡◌, refl, ap, sym, subst, ◌∙◌}
use mathlib.Core.Logic.{◌⊎◌, inl, inr}
use mathlib.Core.Bool.{Bool, true, false}
use mathlib.Core.List.{List, [], ◌∷◌, ◌++◌, map, Memᴰ}
use imaged.Base.Tests.{if◌then◌else◌, Bool-cases}
use imaged.Base.Lists.{keep, All}

pub All-mem {ℓ κ} : {A : Type ℓ} (P : A → Type κ) {a : A} (xs : List A) → All P xs → Memᴰ a xs → P a
All-mem P [] h m = elim m [ ]
All-mem P (x ∷ xs) h (Memᴰ.head e) = subst P (sym e) h.0
All-mem P (x ∷ xs) h (Memᴰ.tail m) = All-mem P xs h.1 m

kept_or {ℓ} :
    {A : Type ℓ} (p : A → Bool) {a : A} (x : A) (xs : List A) (b : Bool)
    → p x ≡ b
    → Memᴰ a (if b then x ∷ keep p xs else keep p xs)
    → (Memᴰ a (keep p xs) → Memᴰ a xs × (p a ≡ true))
    → Memᴰ a (x ∷ xs) × (p a ≡ true)
kept_or p x xs true e (Memᴰ.head q) rest = (Memᴰ.head q, ap p q ∙ e)
kept_or p x xs true e (Memᴰ.tail m) rest = let (n, h) = rest m in (Memᴰ.tail n, h)
kept_or p x xs false e m rest = let (n, h) = rest m in (Memᴰ.tail n, h)

-- A kept element is one of the list, and passes the test.
pub mem-keep {ℓ} :
    {A : Type ℓ} (p : A → Bool) {a : A} (xs : List A)
    → Memᴰ a (keep p xs)
    → Memᴰ a xs × (p a ≡ true)
mem-keep p [] m = elim m [ ]
mem-keep p (x ∷ xs) m = kept_or p x xs (p x) refl m (mem-keep p xs)

pub keep-mem {ℓ} :
    {A : Type ℓ} (p : A → Bool) {a : A} (xs : List A) → Memᴰ a xs → p a ≡ true → Memᴰ a (keep p xs)
keep-mem p [] m h = elim m [ ]
keep-mem p (x ∷ xs) (Memᴰ.head e) h = rw (ap p (sym e) ∙ h) (Memᴰ.head e)
keep-mem p (x ∷ xs) (Memᴰ.tail m) h = elim (Bool-cases (p x)) [
  | inl e ↦ rw e (Memᴰ.tail (keep-mem p xs m h))
  | inr e ↦ rw e (keep-mem p xs m h)
]

pub Memᴰ-append_left {ℓ} : {A : Type ℓ} {a : A} (xs ys : List A) → Memᴰ a xs → Memᴰ a (xs ++ ys)
Memᴰ-append_left [] ys m = elim m [ ]
Memᴰ-append_left (x ∷ xs) ys (Memᴰ.head e) = Memᴰ.head e
Memᴰ-append_left (x ∷ xs) ys (Memᴰ.tail m) = Memᴰ.tail (Memᴰ-append_left xs ys m)

pub Memᴰ-append_right {ℓ} : {A : Type ℓ} {a : A} (xs ys : List A) → Memᴰ a ys → Memᴰ a (xs ++ ys)
Memᴰ-append_right [] ys m = m
Memᴰ-append_right (x ∷ xs) ys m = Memᴰ.tail (Memᴰ-append_right xs ys m)

pub Memᴰ-append {ℓ} :
    {A : Type ℓ} {a : A} (xs ys : List A) → Memᴰ a (xs ++ ys) → Memᴰ a xs ⊎ Memᴰ a ys
Memᴰ-append [] ys m = inr m
Memᴰ-append (x ∷ xs) ys (Memᴰ.head e) = inl (Memᴰ.head e)
Memᴰ-append (x ∷ xs) ys (Memᴰ.tail m) = elim (Memᴰ-append xs ys m) [
  | inl l ↦ inl (Memᴰ.tail l)
  | inr r ↦ inr r
]

pub Memᴰ-map {ℓ κ} :
    {A : Type ℓ} {B : Type κ} (f : A → B) {a : A} (xs : List A) → Memᴰ a xs → Memᴰ (f a) (map f xs)
Memᴰ-map f [] m = elim m [ ]
Memᴰ-map f (x ∷ xs) (Memᴰ.head e) = Memᴰ.head (ap f e)
Memᴰ-map f (x ∷ xs) (Memᴰ.tail m) = Memᴰ.tail (Memᴰ-map f xs m)

pub map-Memᴰ {ℓ κ} :
    {A : Type ℓ} {B : Type κ} (f : A → B) {b : B} (xs : List A)
    → Memᴰ b (map f xs)
    → (a : A) × Memᴰ a xs × (b ≡ f a)
map-Memᴰ f [] m = elim m [ ]
map-Memᴰ f (x ∷ xs) (Memᴰ.head e) = (x, Memᴰ.head refl, e)
map-Memᴰ f (x ∷ xs) (Memᴰ.tail m) = let (a, n, e) = map-Memᴰ f xs m in (a, Memᴰ.tail n, e)
