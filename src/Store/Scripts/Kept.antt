-- ===== src/Store/Scripts/Kept.antt =====
-- The bytes of a run's output that are kept: its head, and its tail but for a split character.
use mathlib.Core.Path.{subst}
use imaged.Base.{
  ℕ, zero, suc, ◌+◌, ◌-◌, ◌≤◌, ◌<◌, ◌≡◌, ◌⊎◌, refl, sym, ap, ◌∙◌, arith, Bool, true, ◌&&◌, [], ◌∷◌,
  ltb, leb, any, length, take, drop, All, Bool-cases, inl, inr,
}
use imaged.Base.Sublists.{All_mono}
use imaged.Text.{Text}
use imaged.Store.{ChunkRow}
use imaged.Store.Scripts.{
  script_output_head_bytes, script_output_tail_bytes, is_chunk, continuations, ceil_char_boundary,
  keep_tail, kept_output,
}

-- At most three bytes in a row go on a character.
abbrev pub IsUtf8 : Text → Type 0
IsUtf8 text = (n : ℕ) → continuations (drop n text) ≤ 3

-- A byte that is written, and lies in the head, or in the tail without its first three bytes.
abbrev pub Protected : ℕ → ℕ → Type 0
Protected total i =
    (i < total) × ((i < script_output_head_bytes) ⊎ (total + 3 ≤ i + script_output_tail_bytes))

-- Whether a chunk holds the byte at `i`.
abbrev pub holds_byte : ℕ → ℕ × Text → Bool
holds_byte i k = leb k.0 i && ltb i (k.0 + length k.1)

abbrev pub holds_byte_of : ℕ → ℕ → ℕ → ℕ → ChunkRow → Bool
holds_byte_of t h p i c = is_chunk t h p c && holds_byte i (c.start, c.text)

length-drop : (n : ℕ) (xs : Text) → length (drop n xs) ≡ length xs - n
length-drop zero xs = omega arith
length-drop (suc n) [] = omega arith
length-drop (suc n) (x ∷ xs) = length-drop n xs ∙ omega arith

length-take : (n : ℕ) (xs : Text) → n ≤ length xs → length (take n xs) ≡ n
length-take zero xs h = refl
length-take (suc n) [] h = ground arith
length-take (suc n) (x ∷ xs) h = ap suc (length-take n xs (omega arith))

drop-drop : (m n : ℕ) (xs : Text) → drop n (drop m xs) ≡ drop (m + n) xs
drop-drop zero n xs = let e : n ≡ 0 + n = omega arith in ap (λ k. drop k xs) e
drop-drop (suc m) zero [] = let e : suc (m + 0) ≡ suc m + 0 = omega arith in ap (λ k. drop k []) e
drop-drop (suc m) (suc n) [] =
    let e : suc (m + suc n) ≡ suc m + suc n = omega arith in ap (λ k. drop k []) e
drop-drop (suc m) n (x ∷ xs) =
    let e : suc (m + n) ≡ suc m + n = omega arith in drop-drop m n xs ∙ ap (λ k. drop k (x ∷ xs)) e

continuations-le : (xs : Text) → continuations xs ≤ length xs
continuations-le [] = omega arith
continuations-le (b ∷ bs) = ground (arith, continuations-le bs)

record Boundary (text : Text) (index c : ℕ) : Type 0 where
  within : c ≤ length text
  near : c ≤ index + 3
  none_skipped : index ≡ 0 → c ≡ 0
  after : index ≤ length text → index ≤ c
  end : length text ≤ index → c ≡ length text

ceil_char_boundary-Boundary :
    (text : Text) (index : ℕ) → IsUtf8 text → Boundary text index (ceil_char_boundary text index)
unfolding ceil_char_boundary
ceil_char_boundary-Boundary text index u = elim (Bool-cases (leb index (length text))) [
  | inl inside ↦
      let d = length-drop index text in
      let c = continuations-le (drop index text) in
      rw inside record {
        within = ground (arith, d, c);
        near = ground (arith, u index);
        none_skipped = ground arith;
        after = ground arith;
        end = ground (arith, d, c);
      }
  | inr outside ↦
      let d = length-drop (length text) text in
      let c = continuations-le (drop (length text) text) in
      rw outside record {
        within = ground (arith, d, c);
        near = ground (arith, d, c);
        none_skipped = ground arith;
        after = ground arith;
        end = ground (arith, d, c);
      }
]

IsUtf8-drop : (m : ℕ) (text : Text) → IsUtf8 text → IsUtf8 (drop m text)
IsUtf8-drop m text u n = subst (λ xs. continuations xs ≤ 3) (sym (drop-drop m n text)) (u (m + n))

-- The tail of a text holds its last bytes, but for the rest of a character that is split.
keep_tail-holds :
    (start i : ℕ) (rest : Text)
    → IsUtf8 rest
    → start ≤ i
    → i < start + length rest
    → start + length rest + 3 ≤ i + script_output_tail_bytes
    → any (holds_byte i) (keep_tail start rest) ≡ true
unfolding keep_tail
keep_tail-holds start i [] u a b c = ground arith
keep_tail-holds start i (x ∷ xs) u a b c =
    let rest = x ∷ xs in
    let index = length rest - script_output_tail_bytes in
    let skip = ceil_char_boundary rest index in
    let bound = ceil_char_boundary-Boundary rest index u in
    let d = length-drop skip rest in ground (arith, bound.within, bound.near, bound.none_skipped, d)

pub kept_output-holds :
    (before i : ℕ) (output : Text)
    → IsUtf8 output
    → before ≤ i
    → Protected (before + length output) i
    → any (holds_byte i) (kept_output before output) ≡ true
unfolding kept_output
kept_output-holds before i output u a v = elim (Bool-cases (ltb before script_output_head_bytes)) [
  | inl early ↦
      let index = script_output_head_bytes - before in
      let cut = ceil_char_boundary output index in
      let bound = ceil_char_boundary-Boundary output index u in
      let head = length-take cut output bound.within in
      let rest = length-drop cut output in
      elim (Bool-cases (ltb i (before + cut))) [
        | inl first ↦ rw early (ground (arith, head, first))
        | inr last ↦
            let tail =
              keep_tail-holds (before + cut) i (drop cut output) (IsUtf8-drop cut output u)
                (ground (arith, last)) (ground (arith, rest, v.0, last, bound.within))
                (ground (arith, rest, v, last, bound.within, bound.after, bound.end)) in
            rw early (ground (arith, tail))
      ]
  | inr late ↦ rw late (keep_tail-holds before i output u a v.0 (ground (arith, v, late)))
]

-- Where the chunks of a piece of output begin.
keep_tail-starts :
    (start : ℕ) (rest : Text)
    → IsUtf8 rest
    → All (λ k. (start ≤ k.0) × (k.0 < start + length rest)) (keep_tail start rest)
unfolding keep_tail
keep_tail-starts start [] u = tt
keep_tail-starts start (x ∷ xs) u =
    let rest = x ∷ xs in
    let index = length rest - script_output_tail_bytes in
    let bound = ceil_char_boundary-Boundary rest index u in
    ((omega arith, ground (arith, bound.near, bound.none_skipped)), tt)

pub kept_output-starts :
    (before : ℕ) (output : Text)
    → IsUtf8 output
    → 0 < length output
    → All (λ k. (before ≤ k.0) × (k.0 < before + length output)) (kept_output before output)
unfolding kept_output
kept_output-starts before output u z = elim (Bool-cases (ltb before script_output_head_bytes)) [
  | inl early ↦
      let cut = ceil_char_boundary output (script_output_head_bytes - before) in
      let bound = ceil_char_boundary-Boundary output (script_output_head_bytes - before) u in
      let rest = length-drop cut output in
      rw early (
        (omega arith, omega (arith, z)),
        All_mono (keep_tail (before + cut) (drop cut output))
            (λ k s. (omega (arith, s.0), omega (arith, s.1, rest, bound.within)))
            (keep_tail-starts (before + cut) (drop cut output) (IsUtf8-drop cut output u)),
      )
  | inr late ↦ rw late (keep_tail-starts before output u)
]
