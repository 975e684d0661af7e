-- ===== src/Store/Paging/Complete.antt =====
-- A client that follows the cursors sees every task of its query once.
use imaged.Base.{
  ℕ, zero, suc, ◌+◌, Bool, true, false, ◌&&◌, ◌≡◌, ◌≤◌, ◌<◌, ◌⊎◌, inl, inr, refl, sym, ap, ◌∙◌,
  arith, Option, none, some, List, [], ◌∷◌, ◌++◌, ◌==◌, ltb, leb, if◌then◌else◌, map, any, keep,
  take, drop, length, take-drop, Bool-cases, All,
}
use mathlib.Core.Path.{subst}
use mathlib.Core.Option.{some-injective}
use mathlib.Core.List.{map-append}
use native.Mathlib.Numerals.{add-one}
use imaged.Error.{ok, ok_injective, ensure_ok}
use imaged.Store.{TaskRow, Db}
use imaged.Store.Views.{to_task}
use imaged.Store.Paging.{
  max_task_page_size, TaskQuery, TaskPage, is_before, selected, insert_desc, sort_desc, listing,
  last_id, page_of, list,
}

-- Ids fall along the list.
abbrev Falls : List TaskRow → Type 0
Falls [] = Unit
Falls (t ∷ ts) = All (λ u. u.id < t.id) ts × Falls ts

-- `id` is the primary key of `tasks`.
abbrev pub Distinct : List TaskRow → Type 0
Distinct [] = Unit
Distinct (t ∷ ts) = (any (λ u. u.id == t.id) ts ≡ false) × Distinct ts

All-insert_desc :
    (P : TaskRow → Type 0) (t : TaskRow) (ts : List TaskRow)
    → P t
    → All P ts
    → All P (insert_desc t ts)
unfolding insert_desc
All-insert_desc P t [] h v = (h, tt)
All-insert_desc P t (u ∷ us) h v = elim (Bool-cases (ltb t.id u.id)) [
  | inl e ↦ rw e (v.0, All-insert_desc P t us h v.1)
  | inr e ↦ rw e (h, v)
]

All-sort_desc : (P : TaskRow → Type 0) (ts : List TaskRow) → All P ts → All P (sort_desc ts)
unfolding sort_desc
All-sort_desc P [] v = tt
All-sort_desc P (t ∷ ts) v = All-insert_desc P t (sort_desc ts) v.0 (All-sort_desc P ts v.1)

All-lower : (m n : ℕ) (ts : List TaskRow) → m < n → All (λ u. u.id < m) ts → All (λ u. u.id < n) ts
All-lower m n [] h v = tt
All-lower m n (t ∷ ts) h v = (omega arith, All-lower m n ts h v.1)

insert_desc-Falls :
    (t : TaskRow) (ts : List TaskRow)
    → All (λ u. (u.id == t.id) ≡ false) ts
    → Falls ts
    → Falls (insert_desc t ts)
unfolding insert_desc
insert_desc-Falls t [] d v = (tt, tt)
insert_desc-Falls t (u ∷ us) d v = elim (Bool-cases (ltb t.id u.id)) [
  | inl e ↦
      rw e
        (All-insert_desc (λ w. w.id < u.id) t us (ground arith) v.0, insert_desc-Falls t us d.1 v.1)
  | inr e ↦ let h : u.id < t.id = ground (arith, d.0) in rw e ((h, All-lower u.id t.id us h v.0), v)
]

any-All :
    (t : TaskRow) (ts : List TaskRow)
    → any (λ u. u.id == t.id) ts ≡ false
    → All (λ u. (u.id == t.id) ≡ false) ts
any-All t [] e = tt
any-All t (u ∷ us) e = (ground arith, any-All t us (ground arith))

sort_desc-Falls : (ts : List TaskRow) → Distinct ts → Falls (sort_desc ts)
unfolding sort_desc
sort_desc-Falls [] d = tt
sort_desc-Falls (t ∷ ts) d =
    insert_desc-Falls t (sort_desc ts)
      (All-sort_desc (λ u. (u.id == t.id) ≡ false) ts (any-All t ts d.0)) (sort_desc-Falls ts d.1)

Distinct-keep : (p : TaskRow → Bool) (ts : List TaskRow) → Distinct ts → Distinct (keep p ts)
Distinct-keep p [] d = tt
Distinct-keep p (t ∷ ts) d = ground (arith, any-keep t ts d.0, Distinct-keep p ts d.1)
  where
    any-keep :
        (t : TaskRow) (ts : List TaskRow)
        → any (λ u. u.id == t.id) ts ≡ false
        → any (λ u. u.id == t.id) (keep p ts) ≡ false
    any-keep t [] e = refl
    any-keep t (u ∷ us) e = ground (arith, any-keep t us)

-- Filtering a falling list by an upper bound drops its head part.
keep-insert_desc :
    (c : ℕ) (t : TaskRow) (ts : List TaskRow)
    → Falls ts
    → keep (λ u. ltb u.id c) (insert_desc t ts) ≡ (
        if ltb t.id c then insert_desc t (keep (λ u. ltb u.id c) ts) else keep (λ u. ltb u.id c) ts)
unfolding insert_desc
keep-insert_desc c t [] v = ground arith
keep-insert_desc c t (u ∷ us) v = ground (arith, keep-insert_desc c t us v.1)

keep-sort_desc :
    (c : ℕ) (ts : List TaskRow)
    → Distinct ts
    → keep (λ u. ltb u.id c) (sort_desc ts) ≡ sort_desc (keep (λ u. ltb u.id c) ts)
unfolding sort_desc
keep-sort_desc c [] d = refl
keep-sort_desc c (t ∷ ts) d =
    keep-insert_desc c t (sort_desc ts) (sort_desc-Falls ts d.1)
    ∙ ground (arith, keep-sort_desc c ts d.1)

keep-below : (c : ℕ) (ts : List TaskRow) → All (λ u. u.id < c) ts → keep (λ u. ltb u.id c) ts ≡ ts
keep-below c [] v = refl
keep-below c (t ∷ ts) v = ground (arith, keep-below c ts v.1)

last_id-lt :
    (m n c : ℕ) (ts : List TaskRow) → All (λ u. u.id < m) ts → last_id (take n ts) ≡ some c → c < m
unfolding last_id
last_id-lt m zero c ts v e = cc
last_id-lt m (suc n) c [] v e = cc
last_id-lt m (suc zero) c (t ∷ ts) v e = ground arith
last_id-lt m (suc (suc n)) c (t ∷ []) v e = ground arith
last_id-lt m (suc (suc n)) c (t ∷ (u ∷ us)) v e = last_id-lt m (suc n) c (u ∷ us) v.1 e

-- What is left below the last id of a page is what follows the page.
keep-last_id :
    (n c : ℕ) (ts : List TaskRow)
    → Falls ts
    → n < length ts
    → last_id (take n ts) ≡ some c
    → keep (λ u. ltb u.id c) ts ≡ drop n ts
unfolding last_id
keep-last_id zero c ts v h e = cc
keep-last_id (suc n) c [] v h e = elim h [ ]
keep-last_id (suc zero) c (t ∷ ts) v h e =
    let same : t.id ≡ c = ground arith in ground (arith, keep-below t.id ts v.0)
keep-last_id (suc (suc n)) c (t ∷ []) v h e = absurd (omega arith)
keep-last_id (suc (suc n)) c (t ∷ (u ∷ us)) v h e =
    let lower : c < t.id = last_id-lt t.id (suc n) c (u ∷ us) v.0 e in
    let rest : keep (λ w. ltb w.id c) (u ∷ us) ≡ drop (suc n) (u ∷ us) =
      keep-last_id (suc n) c (u ∷ us) v.1 (omega arith) e in
    let skip : ltb t.id c ≡ false = ground arith in rw skip rest

keep-keep :
    (p b s : TaskRow → Bool) (ts : List TaskRow)
    → ((t : TaskRow) → p t ≡ true → b t ≡ true)
    → keep (λ t. p t && s t) ts ≡ keep p (keep (λ t. b t && s t) ts)
keep-keep p b s [] h = refl
keep-keep p b s (t ∷ ts) h = ground (arith, h t, keep-keep p b s ts h)

last_id-All :
    (P : ℕ → Type 0) (n c : ℕ) (ts : List TaskRow)
    → All (λ u. P u.id) ts
    → last_id (take n ts) ≡ some c
    → P c
unfolding last_id
last_id-All P zero c ts v e = cc
last_id-All P (suc n) c [] v e = cc
last_id-All P (suc zero) c (t ∷ ts) v e = subst P (some-injective _ _ e) v.0
last_id-All P (suc (suc n)) c (t ∷ []) v e = subst P (some-injective _ _ e) v.0
last_id-All P (suc (suc n)) c (t ∷ (u ∷ us)) v e = last_id-All P (suc n) c (u ∷ us) v.1 e

last_id-take :
    (n : ℕ) (ts : List TaskRow) → 0 < n → n < length ts → (c : ℕ) × (last_id (take n ts) ≡ some c)
unfolding last_id
last_id-take zero ts z h = elim z [ ]
last_id-take (suc n) [] z h = elim h [ ]
last_id-take (suc zero) (t ∷ ts) z h = (t.id, refl)
last_id-take (suc (suc n)) (t ∷ []) z h = absurd (omega arith)
last_id-take (suc (suc n)) (t ∷ (u ∷ us)) z h =
    last_id-take (suc n) (u ∷ us) (omega arith) (omega arith)

abbrev in_range : Option ℕ → ℕ → Bool
in_range none id = true
in_range (some c) id = ltb id c

is_before-in_range : (b : Option ℕ) (t : TaskRow) → is_before b t ≡ in_range b t.id
is_before-in_range none t = refl
is_before-in_range (some c) t = refl

in_range-lt :
    (b : Option ℕ) (c id : ℕ) → in_range b c ≡ true → ltb id c ≡ true → in_range b id ≡ true
in_range-lt none c id h e = refl
in_range-lt (some d) c id h e = ground arith

keep-in_range :
    (b : Option ℕ) (s : TaskRow → Bool) (ts : List TaskRow)
    → All (λ u. in_range b u.id ≡ true) (keep (λ t. is_before b t && s t) ts)
keep-in_range b s [] = tt
keep-in_range b s (t ∷ ts) = ground (arith, is_before-in_range b t, keep-in_range b s ts)

module _ (q : TaskQuery) (db : Db) (distinct : Distinct db.tasks) where
  abbrev rows : List TaskRow
  rows = keep (λ t. is_before q.before t && selected q db t) db.tasks

  listing-Falls : Falls (listing q db)
  unfolding listing
  listing-Falls = sort_desc-Falls rows (Distinct-keep _ db.tasks distinct)

  -- The query that goes on at a cursor lists what this one lists below it.
  listing-cursor :
      (c : ℕ)
      → in_range q.before c ≡ true
      → listing (record q { before = some c }) db ≡ keep (λ u. ltb u.id c) (listing q db)
  unfolding listing selected
  listing-cursor c h =
      ap sort_desc (
        keep-keep (λ u. ltb u.id c) (is_before q.before) (selected q db) db.tasks
          (λ t e. is_before-in_range q.before t ∙ in_range-lt q.before c t.id h e))
      ∙ sym (keep-sort_desc c rows (Distinct-keep _ db.tasks distinct))

  last_id-in_range :
      (n c : ℕ) → last_id (take n (listing q db)) ≡ some c → in_range q.before c ≡ true
  unfolding listing
  last_id-in_range n c e =
      last_id-All (λ id. in_range q.before id ≡ true) n c (listing q db)
        (All-sort_desc (λ u. in_range q.before u.id ≡ true) rows
          (keep-in_range q.before (selected q db) db.tasks))
        e

-- Whether a page is the last of its query, or where the next one goes on.
abbrev pub PageOf : TaskQuery → Db → TaskPage → Type 0
PageOf q db page =
    ((page.next_cursor ≡ none) × (page.tasks ≡ map (to_task db) (listing q db)))
    ⊎ ((c : ℕ) × (page.next_cursor ≡ some c)
        × (length page.tasks ≡ q.limit)
        × (map (to_task db) (listing q db)
            ≡ page.tasks ++ map (to_task db) (listing (record q { before = some c }) db)))

take-take : {A : Type 0} (n : ℕ) (xs : List A) → take n (take (suc n) xs) ≡ take n xs
take-take zero xs = refl
take-take (suc n) [] = refl
take-take (suc n) (x ∷ xs) = ap (◌∷◌ x) (take-take n xs)

take_all : {A : Type 0} (n : ℕ) (xs : List A) → length xs ≤ n → take n xs ≡ xs
take_all zero [] h = refl
take_all zero (x ∷ xs) h = elim h [ ]
take_all (suc n) [] h = refl
take_all (suc n) (x ∷ xs) h = ap (◌∷◌ x) (take_all n xs (omega arith))

length-take_lt : {A : Type 0} (n : ℕ) (xs : List A) → n ≤ length xs → length (take n xs) ≡ n
length-take_lt zero xs h = refl
length-take_lt (suc n) [] h = elim h [ ]
length-take_lt (suc n) (x ∷ xs) h = ap suc (length-take_lt n xs (omega arith))

length-map : {A B : Type 0} (f : A → B) (xs : List A) → length (map f xs) ≡ length xs
length-map f [] = refl
length-map f (x ∷ xs) = ap suc (length-map f xs)

page_of-PageOf :
    (q : TaskQuery) (db : Db)
    → Distinct db.tasks
    → 0 < q.limit
    → PageOf q db (page_of q.limit db (take (suc q.limit) (listing q db)))
unfolding page_of
page_of-PageOf q db d h =
    let full = listing q db in
    let n = q.limit in
    elim (Bool-cases (ltb n (length full))) [
      | inl more ↦
          let (c, e) = last_id-take n full h (ground arith) in
          let long : ltb n (length (take (suc n) full)) ≡ true =
            rw (length-take_lt (suc n) full (ground arith)) (ground arith) in
          let tail : listing (record q { before = some c }) db ≡ drop n full =
            listing-cursor q db d c (last_id-in_range q db d n c e)
            ∙ keep-last_id n c full (listing-Falls q db d) (ground arith) e in
          inr (
            c,
            rw (long, take-take n full) e,
            rw (long, take-take n full)
                (length-map (to_task db) (take n full) ∙ length-take_lt n full (ground arith)),
            rw (long, take-take n full, tail)
                (ap (map (to_task db)) (sym (take-drop n full))
                  ∙ map-append (to_task db) (take n full) (drop n full)),
          )
      | inr last ↦
          let whole : take (suc n) full ≡ full = take_all (suc n) full (ground arith) in
          inl (rw (whole, last), rw (whole, last))
    ]

-- In a database whose tasks have distinct ids, a page that comes with no cursor holds all tasks
-- of its query; one that comes with a cursor holds `limit` of them, and the query that goes on at
-- the cursor lists exactly the others, in the same order.
pub list-PageOf :
    (q : TaskQuery) (db : Db) (page : TaskPage)
    → Distinct db.tasks
    → list q db ≡ ok page
    → PageOf q db page
unfolding list
list-PageOf q db page d e =
    let (test, same) =
      ensure_ok (leb 1 q.limit && leb q.limit max_task_page_size) _
        (ok (page_of q.limit db (take (q.limit + 1) (listing q db)))) e in
    subst (PageOf q db) (ok_injective _ _ same)
      (rw (add-one q.limit) (page_of-PageOf q db d (ground arith)))
