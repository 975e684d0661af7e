-- ===== src/Text.antt =====
-- Texts as their UTF-8 bytes, and the decimal numbers that `format!` prints into them.
use Prim.Native.Char.{code}
use Prim.Native.String.{String}
use imaged.Base.{ℕ, zero, suc, ◌+◌, ◌/◌, ◌%◌, List, [], ◌∷◌, ltb, if◌then◌else◌}

abbrev pub Text : Type 0
Text = List ℕ

-- The bytes of a literal, all of which are ASCII here.
unfoldable pub text : String → Text
text String.[] = []
text (String.◌∷◌ c s) = code c ∷ text s

decimal_within : ℕ → ℕ → Text → Text
decimal_within zero n rest = rest
decimal_within (suc fuel) n rest =
    let more = decimal_within fuel (n / 10) ((48 + n % 10) ∷ rest) in
    if ltb n 10 then (48 + n) ∷ rest else more

-- `n.to_string()`; `n + 1` rounds are more than the digits of `n`.
unfoldable pub decimal : ℕ → Text
unfolding decimal_within
decimal n = decimal_within (suc n) n []
