-- ===== src/Disk/Parse.antt =====
-- The entries of a parsed backup.
use mathlib.Core.Path.{subst}
use imaged.Base.{
  ℕ, zero, suc, ◌*◌, ◌≤◌, ◌≡◌, refl, arith, Bool, true, false, not, Option, none, some, List, [],
  ◌∷◌, leb, if◌then◌else◌, length, take, drop, Option-cases, inl, inr, sym, ap, ◌∙◌,
}
use imaged.Disk.{
  GptError, no_header, entry_size, ends_before_start, Checked, passed, refused, Entry, Backup,
  slice, le_u32, le_u64, checked, signature, starts_with, is_used, entry_of, cons, collect_entries,
  backup_of, parse_array, array_in, parse_with, parse,
}

-- The entries are numbered upward from `n` on, and none ends before it starts.
abbrev pub Numbered : ℕ → List Entry → Type 0
Numbered n [] = Unit
Numbered n (e ∷ es) = (n ≤ e.number) × (e.first_lba ≤ e.last_lba) × Numbered (suc e.number) es

Numbered-le : (n m : ℕ) (es : List Entry) → n ≤ m → Numbered m es → Numbered n es
Numbered-le n m [] h v = tt
Numbered-le n m (e ∷ es) h v = (omega (arith, v.0), v.1, v.2)

cons-passed :
    (e : Entry) (rest : Checked (List Entry)) (es : List Entry)
    → cons e rest ≡ passed es
    → (fs : List Entry) × (rest ≡ passed fs) × (es ≡ e ∷ fs)
cons-passed e (passed fs) es h = (fs, refl, cc)
cons-passed e (refused x) es h = cc

-- One piece of the array, whatever the three tests on it say.
piece-Numbered :
    (long used fits : Bool) (e : Entry) (rest : Checked (List Entry)) (es : List Entry)
    → (fits ≡ true → e.first_lba ≤ e.last_lba)
    → ((fs : List Entry) → rest ≡ passed fs → Numbered (suc e.number) fs)
    → (if not long
        then passed []
        else if not used
        then rest
        else if not fits
        then refused (ends_before_start e.number)
        else cons e rest)
      ≡ passed es
    → Numbered e.number es
piece-Numbered false used fits e rest [] b ih h = tt
piece-Numbered false used fits e rest (f ∷ fs) b ih h = cc
piece-Numbered true false fits e rest es b ih h =
    Numbered-le e.number (suc e.number) es (omega arith) (ih es h)
piece-Numbered true true false e rest es b ih h = cc
piece-Numbered true true true e rest es b ih h =
    let (fs, r, same) = cons-passed e rest es h in
    subst (Numbered e.number) (sym same) (omega arith, b refl, ih fs r)

collect_entries-Numbered :
    (fuel size n : ℕ) (array : List ℕ) (es : List Entry)
    → collect_entries fuel size n array ≡ passed es
    → Numbered n es
collect_entries-Numbered zero size n array [] h = tt
collect_entries-Numbered zero size n array (e ∷ es) h = cc
collect_entries-Numbered (suc fuel) size n array es h =
    let chunk = take size array in
    piece-Numbered (leb size (length array)) (is_used chunk)
      (leb (le_u64 chunk 32) (le_u64 chunk 40)) (entry_of n chunk)
      (collect_entries fuel size (suc n) (drop size array)) es (λ b. ground (arith, b))
      (collect_entries-Numbered fuel size (suc n) (drop size array)) h

backup_of-passed :
    (bytes : ℕ) (c : Checked (List Entry)) (b : Backup)
    → backup_of bytes c ≡ passed b
    → (es : List Entry) × (c ≡ passed es) × (b.entries ≡ es)
unfolding backup_of
backup_of-passed bytes (passed es) b h = (es, refl, sym (ap entries_or h))
  where
    entries_or : Checked Backup → List Entry
    entries_or (passed b) = b.entries
    entries_or (refused e) = es
backup_of-passed bytes (refused e) b h = cc

parse_array-Numbered :
    (size : ℕ) (array : Option (List ℕ)) (b : Backup)
    → parse_array size array ≡ passed b
    → Numbered 1 b.entries
unfolding parse_array
parse_array-Numbered size none b h = cc
parse_array-Numbered size (some array) b h =
    let (es, c, same) =
      backup_of-passed (length array) (collect_entries (length array) size 1 array) b h in
    subst (Numbered 1) (sym same) (collect_entries-Numbered (length array) size 1 array es c)

guards-Numbered :
    (signed wide : Bool) (e : GptError) (c : Checked Backup) (b : Backup)
    → (c ≡ passed b → Numbered 1 b.entries)
    → (if not signed then refused no_header else if not wide then refused e else c) ≡ passed b
    → Numbered 1 b.entries
guards-Numbered false wide e c b k h = cc
guards-Numbered true false e c b k h = cc
guards-Numbered true true e c b k h = k h

-- The entries of a backup that parses bear ascending numbers, from 1 on, and none of them ends
-- before it starts.
pub parse-Numbered : (bytes : List ℕ) (b : Backup) → parse bytes ≡ passed b → Numbered 1 b.entries
unfolding parse parse_with
parse-Numbered bytes b h = elim (Option-cases (slice 512 92 bytes)) [
  | inl e ↦ let q = sym (ap (parse_with bytes) e) ∙ h in cc
  | inr (header, e) ↦
      guards-Numbered (starts_with signature header) (leb 128 (le_u32 header 84))
        (entry_size (le_u32 header 84))
        (parse_array (le_u32 header 84)
          (array_in bytes (checked (le_u32 header 80 * le_u32 header 84))))
        b (parse_array-Numbered (le_u32 header 84) _ b) (sym (ap (parse_with bytes) e) ∙ h)
]
