-- ===== src/Base/Sublists.antt =====
-- `All` and `any` over lists that are put together, mapped and filtered.
use mathlib.Core.Path.{◌≡◌, refl, ap}
use mathlib.Core.Option.{some}
use mathlib.Core.Bool.{Bool, true, false, ◌||◌, ◌&&◌}
use mathlib.Core.Logic.{inl, inr}
use mathlib.Core.List.{List, [], ◌∷◌, ◌++◌, map}
use native.Mathlib.Omega.{arith}
use imaged.Base.Tests.{Bool-cases, if◌then◌else◌}
use imaged.Base.Lists.{All, any, all, keep, find, update_where}

pub All_mono :
    {A : Type 0} {P Q : A → Type 0} (xs : List A) → ((x : A) → P x → Q x) → All P xs → All Q xs
All_mono [] f v = tt
All_mono (x ∷ xs) f v = (f x v.0, All_mono xs f v.1)

pub All-append :
    {A : Type 0} (P : A → Type 0) (xs ys : List A) → All P xs → All P ys → All P (xs ++ ys)
All-append P [] ys v w = w
All-append P (x ∷ xs) ys v w = (v.0, All-append P xs ys v.1 w)

pub All-map :
    {A B : Type 0} (P : B → Type 0) (f : A → B) (xs : List A)
    → All (λ x. P (f x)) xs
    → All P (map f xs)
All-map P f [] v = tt
All-map P f (x ∷ xs) v = (v.0, All-map P f xs v.1)

pub All-keep :
    {A : Type 0} (P : A → Type 0) (p : A → Bool) (xs : List A) → All P xs → All P (keep p xs)
All-keep P p [] v = tt
All-keep P p (x ∷ xs) v = elim (Bool-cases (p x)) [
  | inl e ↦ rw e (v.0, All-keep P p xs v.1)
  | inr e ↦ rw e (All-keep P p xs v.1)
]

pub any-keep :
    {A : Type 0} (p q : A → Bool) (xs : List A)
    → ((x : A) → p x ≡ true → q x ≡ true)
    → any p xs ≡ true
    → any p (keep q xs) ≡ true
any-keep p q [] h e = e
any-keep p q (x ∷ xs) h e = ground (arith, h x, any-keep p q xs h)

pub any-append :
    {A : Type 0} (p : A → Bool) (xs ys : List A) → any p (xs ++ ys) ≡ (any p xs || any p ys)
any-append p [] ys = refl
any-append p (x ∷ xs) ys = ground (arith, any-append p xs ys)

pub all-append :
    {A : Type 0} (p : A → Bool) (xs ys : List A) → all p (xs ++ ys) ≡ (all p xs && all p ys)
all-append p [] ys = refl
all-append p (x ∷ xs) ys = ground (arith, all-append p xs ys)

pub all_mono :
    {A : Type 0} (p q : A → Bool)
    → ((x : A) → p x ≡ true → q x ≡ true)
    → (xs : List A) → all p xs ≡ true
    → all q xs ≡ true
all_mono p q h [] e = refl
all_mono p q h (x ∷ xs) e = ground (arith, h x, all_mono p q h xs)

-- Where every element passes `q`, every one passes `q'` after the update.
pub all-update_where :
    {A : Type 0} (q q' p : A → Bool) (f : A → A)
    → ((x : A) → q x ≡ true → q' (if p x then f x else x) ≡ true)
    → (xs : List A) → all q xs ≡ true
    → all q' (update_where p f xs) ≡ true
all-update_where q q' p f h [] e = refl
all-update_where q q' p f h (x ∷ xs) e = ground (arith, h x, all-update_where q q' p f h xs)

pub any-map :
    {A B : Type 0} (q : B → Bool) (f : A → B) (xs : List A)
    → any q (map f xs) ≡ any (λ x. q (f x)) xs
any-map q f [] = refl
any-map q f (x ∷ xs) = ap (q (f x) ||◌) (any-map q f xs)

pub any-keep_and :
    {A : Type 0} (q p : A → Bool) (xs : List A) → any q (keep p xs) ≡ any (λ x. p x && q x) xs
any-keep_and q p [] = refl
any-keep_and q p (x ∷ xs) = ground (arith, any-keep_and q p xs)

pub find-holds : {A : Type 0} (p : A → Bool) (xs : List A) (x : A) → find p xs ≡ some x → p x ≡ true
find-holds p [] x e = cc
find-holds p (y ∷ ys) x e = ground (arith, find-holds p ys x)

pub keep-append :
    {A : Type 0} (p : A → Bool) (xs ys : List A) → keep p (xs ++ ys) ≡ keep p xs ++ keep p ys
keep-append p [] ys = refl
keep-append p (x ∷ xs) ys = ground (arith, keep-append p xs ys)

pub keep-nothing :
    {A : Type 0} (p q : A → Bool)
    → ((a : A) → q a ≡ true → p a ≡ false)
    → (l : List A) → keep p (keep q l) ≡ []
keep-nothing p q h [] = refl
keep-nothing p q h (a ∷ l) =
    let rest = keep-nothing p q h l in
    elim (Bool-cases (q a)) [ inl e ↦ rw (e, h a e) rest | inr e ↦ rw e rest ]

pub All-left : {A : Type 0} (P : A → Type 0) (xs ys : List A) → All P (xs ++ ys) → All P xs
All-left P [] ys v = tt
All-left P (x ∷ xs) ys v = (v.0, All-left P xs ys v.1)

pub All-right : {A : Type 0} (P : A → Type 0) (xs ys : List A) → All P (xs ++ ys) → All P ys
All-right P [] ys v = v
All-right P (x ∷ xs) ys v = All-right P xs ys v.1
