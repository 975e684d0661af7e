-- ===== src/Mac.antt =====
-- MAC addresses (crates/model/src/agent.rs). A text is its UTF-8 bytes, and the separators are
-- ASCII, so a split of the text is a split of its bytes.
pub mod RoundTrip
mod Tests
use imaged.Base.{
  ℕ, suc, ◌+◌, ◌-◌, ◌*◌, ◌/◌, ◌%◌, Bool, true, false, ◌&&◌, ◌||◌, List, [], ◌∷◌, ◌++◌, ◌==◌, leb,
  ltb, if◌then◌else◌, any, all, length,
}
use imaged.Text.{Text, text}
use imaged.Error.{Result, ok, err, AppError, invalid_argument, ◌>>=◌, ◌>>◌, ensure}

-- `[u8; 6]`.
pub record MacAddress : Type 0 where
  pub a : ℕ
  pub b : ℕ
  pub c : ℕ
  pub d : ℕ
  pub e : ℕ
  pub g : ℕ

abbrev cons_first : ℕ → List Text → List Text
cons_first c [] = (c ∷ []) ∷ []
cons_first c (part ∷ parts) = (c ∷ part) ∷ parts

-- `str::split`.
abbrev split : ℕ → Text → List Text
split separator [] = [] ∷ []
split separator (c ∷ cs) =
    let rest = split separator cs in if c == separator then [] ∷ rest else cons_first c rest

abbrev is_ascii_hexdigit : ℕ → Bool
is_ascii_hexdigit c = (leb 48 c && leb c 57) || ((leb 65 c && leb c 70) || (leb 97 c && leb c 102))

-- The value of a hexadecimal digit, of either case.
abbrev hex_value : ℕ → ℕ
hex_value c = if leb c 57 then c - 48 else if leb c 70 then c - 55 else c - 87

abbrev hex_digit : ℕ → ℕ
hex_digit d = if ltb d 10 then 48 + d else 87 + d

-- `{:02x}`.
abbrev two_digits : ℕ → Text
two_digits byte = hex_digit (byte / 16) ∷ hex_digit (byte % 16) ∷ []

unfoldable pub display : MacAddress → Text
display m =
    two_digits m.a
    ++ 58
      ∷ (two_digits m.b
          ++ 58
            ∷ (two_digits m.c
                ++ 58 ∷ (two_digits m.d ++ 58 ∷ (two_digits m.e ++ 58 ∷ two_digits m.g))))

-- The value of two hexadecimal digits, when the part is that.
next_byte : AppError → List Text → Result (ℕ × List Text)
next_byte invalid ((x ∷ y ∷ []) ∷ parts) = do
  ensure (is_ascii_hexdigit x && is_ascii_hexdigit y) invalid
  ok (16 * hex_value x + hex_value y, parts)
next_byte invalid _ = err invalid

no_more : AppError → List Text → Result (Unit {0})
no_more invalid [] = ok tt
no_more invalid (part ∷ parts) = err invalid

six_bytes : AppError → List Text → Result MacAddress
unfolding next_byte no_more
six_bytes invalid parts = next_byte invalid parts >>= λ (a, parts).
    next_byte invalid parts >>= λ (b, parts). next_byte invalid parts >>= λ (c, parts).
    next_byte invalid parts >>= λ (d, parts). next_byte invalid parts >>= λ (e, parts).
    next_byte invalid parts >>= λ (g, parts).
    no_more invalid parts >> ok (record { a = a; b = b; c = c; d = d; e = e; g = g })

-- `quoted` is Rust's `{:?}` of a text.
module _ (quoted : Text → Text) where
  unfoldable pub from_str : Text → Result MacAddress
  unfolding six_bytes
  from_str input =
      let separator = if any (λ c. c == 45) input then 45 else 58 in
      six_bytes (invalid_argument (text "invalid MAC address " ++ quoted input))
        (split separator input)

  -- crates/core/src/repository/host.rs
  unfoldable pub canonical_mac : Text → Result Text
  unfolding from_str display
  canonical_mac mac = from_str mac >>= λ m. ok (display m)
