-- ===== src/Disk/Sectors.antt =====
-- Where a backup's partitions lie, and the disks that hold them.
use mathlib.Core.Path.{subst}
use native.Mathlib.Omega.{div_any}
use native.Mathlib.Nat.{mod-lt, mul-le-mul_right, mul-le-mul_left}
use mathlib.Core.Option.{some-injective}
use imaged.Base.{
  ℕ, suc, ◌+◌, ◌*◌, ◌%◌, ◌≤◌, ◌<◌, ◌≡◌, refl, arith, Bool, not, Option, none, some, List, [], ◌∷◌,
  ltb, ◌==◌, if◌then◌else◌, All, Bool-cases, Option-cases, inl, inr, sym, ap, ◌∙◌, ==→eq,
}
use imaged.Disk.{
  other_sectors, Checked, passed, refused, Entry, Backup, Partition, u64_limit, checked, saturated,
  parse, div_ceil, max_last, larger, holds, scaled, required_after, required_sectors, end_of,
  partition_of, prepend, partitions_of, partitions, check_target,
}
use imaged.Disk.Parse.{Numbered, parse-Numbered}

-- The partition of an entry, in bytes.
abbrev pub IsPartition : ℕ → Entry → Partition → Type 0
IsPartition ss e p =
    (p.number ≡ e.number)
    × (p.offset ≡ e.first_lba * ss)
    × (p.offset + p.size_bytes ≡ (e.last_lba + 1) * ss)

abbrev pub Placed : ℕ → List Entry → List Partition → Type 0
Placed ss [] [] = Unit
Placed ss [] (p ∷ ps) = ⊥
Placed ss (e ∷ es) [] = ⊥
Placed ss (e ∷ es) (p ∷ ps) = IsPartition ss e p × Placed ss es ps

scale : (a b ss : ℕ) → a ≤ b → a * ss ≤ b * ss
scale a b ss h = mul-le-mul_right ss h

div_ceil-covers : (n m : ℕ) → 0 < m → n ≤ div_ceil n m * m
div_ceil-covers n m h =
    let d = div_any n m in
    let r = mod-lt n h in
    elim (Bool-cases (ltb 0 (n % m))) [
      | inl some_left ↦ rw some_left (omega (arith, d, r))
      | inr none_left ↦ rw none_left (ground (arith, d, none_left))
    ]

larger-bounds : (n k : ℕ) (o : Option ℕ) → (n ≤ larger n o) × (o ≡ some k → k ≤ larger n o)
larger-bounds n k none = (omega arith, λ h. cc)
larger-bounds n k (some m) = (ground arith, λ h. ground (arith, some-injective _ _ h))

max_last-All :
    (es : List Entry) (m : ℕ)
    → ((k : ℕ) → max_last es ≡ some k → k ≤ m)
    → All (λ e. e.last_lba ≤ m) es
max_last-All [] m h = tt
max_last-All (e ∷ es) m h =
    let top = h (larger e.last_lba (max_last es)) refl in
    (
      omega (arith, (larger-bounds e.last_lba 0 (max_last es)).0, top),
      max_last-All es m λ k q. omega (arith, (larger-bounds e.last_lba k (max_last es)).1 q, top),
    )

checked-some : (n m : ℕ) → checked n ≡ some m → (m ≡ n) × (n < u64_limit)
checked-some n m h = ground (arith, h, some-injective n m)

end_of-some :
    (ss : ℕ) (e : Entry) (n : ℕ)
    → end_of ss e ≡ some n
    → (n ≡ (e.last_lba + 1) * ss) × (n < u64_limit)
end_of-some ss e n h = elim (Option-cases (checked (e.last_lba + 1))) [
  | inl q ↦ let r = sym (ap (scaled ss) q) ∙ h in cc
  | inr (k, q) ↦
      let a = checked-some (e.last_lba + 1) k q in
      let b = checked-some (k * ss) n (sym (ap (scaled ss) q) ∙ h) in
      let c = ap (λ x. x * ss) a.0 in (b.0 ∙ c, omega (arith, b.0, b.1))
]

partition_of-IsPartition :
    (ss : ℕ) (e : Entry) (end : ℕ)
    → e.first_lba ≤ e.last_lba
    → end ≡ (e.last_lba + 1) * ss
    → end < u64_limit
    → (p : Partition) × (partition_of ss e (some end) ≡ passed p) × IsPartition ss e p
partition_of-IsPartition ss e end b x h =
    let less = scale e.first_lba e.last_lba ss b in
    (_, refl, (refl, omega (arith, less, x, h), omega (arith, less, x, h)))

Pairs : Checked Partition → Checked (List Partition) → List Partition → Type 0
Pairs c rest ps =
    (p : Partition) × (qs : List Partition) × (c ≡ passed p) × (rest ≡ passed qs) × (ps ≡ p ∷ qs)

prepend-passed :
    (c : Checked Partition) (rest : Checked (List Partition)) (ps : List Partition)
    → prepend c rest ≡ passed ps
    → Pairs c rest ps
unfolding Pairs
prepend-passed (refused e) rest ps h = cc
prepend-passed (passed p) (refused e) ps h = cc
prepend-passed (passed p) (passed qs) ps h = (p, qs, refl, refl, cc)

partition_of-passed :
    (ss : ℕ) (e : Entry) (p : Partition)
    → e.first_lba ≤ e.last_lba
    → partition_of ss e (end_of ss e) ≡ passed p
    → IsPartition ss e p
partition_of-passed ss e p b h = elim (Option-cases (end_of ss e)) [
  | inl q ↦ let r = sym (ap (partition_of ss e) q) ∙ h in cc
  | inr (n, q) ↦
      let (x, f) = end_of-some ss e n q in
      let (p', c, v) = partition_of-IsPartition ss e n b x f in
      let same = sym c ∙ sym (ap (partition_of ss e) q) ∙ h in
      subst (IsPartition ss e) (passed-injective p' p same) v
]
  where
    passed-injective : (p q : Partition) → ◌≡◌ {A = Checked Partition} (passed p) (passed q) → p ≡ q
    passed-injective p q h = cc

partitions_of-Placed :
    (ss n : ℕ) (es : List Entry) (ps : List Partition)
    → Numbered n es
    → partitions_of ss es ≡ passed ps
    → Placed ss es ps
unfolding Pairs
partitions_of-Placed ss n [] [] v h = tt
partitions_of-Placed ss n [] (p ∷ ps) v h = cc
partitions_of-Placed ss n (e ∷ es) ps v h =
    let (p, qs, c, r, same) =
      prepend-passed (partition_of ss e (end_of ss e)) (partitions_of ss es) ps h in
    subst (Placed ss (e ∷ es)) (sym same)
      (partition_of-passed ss e p v.1 c, partitions_of-Placed ss (suc e.number) es qs v.2 r)

-- If a backup parses and its partitions can be given in bytes, then there is one partition for each
-- entry, in the entries' order: it bears the entry's number, begins at the entry's first sector and
-- reaches to the end of its last sector. No multiplication wraps around.
pub partitions-Placed :
    (bytes : List ℕ) (b : Backup) (ss : ℕ) (ps : List Partition)
    → parse bytes ≡ passed b
    → partitions ss b ≡ passed ps
    → Placed ss b.entries ps
unfolding partitions
partitions-Placed bytes b ss ps h k =
    partitions_of-Placed ss 1 b.entries ps (parse-Numbered bytes b h) k

saturated-below : (n size : ℕ) → saturated n ≤ size → size < 9223372036854775808 → n ≤ size
saturated-below n size h k = ground (arith, h)

required_exact :
    (q m : ℕ)
    → required_after q (some m) < 9223372036854775808
    → required_after q (some m) ≡ m + 1 + q + 1
unfolding required_after
required_exact q m h = ground (arith, h)

-- A disk no shorter than the sectors required has room behind each entry.
required_after-room :
    (array ss q m last size : ℕ)
    → array ≤ q * ss
    → saturated (required_after q (some m) * ss) ≤ size
    → 0 < ss
    → size < 9223372036854775808
    → last ≤ m
    → (last + 1) * ss + array + ss ≤ size
required_after-room array ss q m last size c h z k l =
    let s = saturated-below (required_after q (some m) * ss) size h k in
    let few = mul-le-mul_left (required_after q (some m)) z in
    let exact = required_exact q m (omega (arith, s, few)) in
    let s' = subst (λ x. x * ss ≤ size) exact s in
    let less = scale last m ss l in omega (arith, s', less)

entries-room :
    (array ss q size : ℕ) (es : List Entry)
    → array ≤ q * ss
    → saturated (required_after q (max_last es) * ss) ≤ size
    → 0 < ss
    → size < 9223372036854775808
    → All (λ e. (e.last_lba + 1) * ss + array + ss ≤ size) es
entries-room array ss q size [] c h z k = tt
entries-room array ss q size (e ∷ es) c h z k =
    let m = larger e.last_lba (max_last es) in
    All-imp (e ∷ es) (λ x l. required_after-room array ss q m x.last_lba size c h z k l)
      (max_last-All (e ∷ es) m λ j q. omega (arith, some-injective m j q))
  where
    All-imp :
        {P Q : Entry → Type 0} (es : List Entry) → ((e : Entry) → P e → Q e) → All P es → All Q es
    All-imp [] f v = tt
    All-imp (e ∷ es) f v = (f e v.0, All-imp es f v.1)

holds-room :
    (size ss : ℕ) (b : Backup)
    → holds size ss (passed b) ≡ passed tt
    → saturated (required_sectors ss b * ss) ≤ size
holds-room size ss b h = ground (arith, h)

-- A disk that passes the test, of fewer than 2 ^ 63 bytes, has the image's sector size, and room
-- for each of its partitions and behind them for the secondary entry array and the secondary
-- header, if the sectors are not of length 0.
pub check_target-room :
    (target size ss : ℕ) (bytes : List ℕ) (b : Backup)
    → 0 < ss
    → size < 9223372036854775808
    → parse bytes ≡ passed b
    → check_target target size ss bytes ≡ passed tt
    → (target ≡ ss) × All (λ e. (e.last_lba + 1) * ss + b.entry_array_bytes + ss ≤ size) b.entries
unfolding check_target required_sectors
check_target-room target size ss bytes b z k p h = elim (Bool-cases (target == ss)) [
  | inl same ↦
      let h' =
        sym (
          ap
            (λ (x : Bool).
              if not x then refused (other_sectors ss target) else holds size ss (parse bytes))
            same)
        ∙ h in
      (
        ==→eq target ss same,
        entries-room b.entry_array_bytes ss (div_ceil b.entry_array_bytes ss) size b.entries
            (div_ceil-covers b.entry_array_bytes ss z)
            (holds-room size ss b (sym (ap (holds size ss) p) ∙ h')) z k,
      )
  | inr other ↦
      let h' =
        sym (
          ap
            (λ (x : Bool).
              if not x then refused (other_sectors ss target) else holds size ss (parse bytes))
            other)
        ∙ h in
      cc
]
