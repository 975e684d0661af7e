-- ===== src/Mac/RoundTrip.antt =====
-- Printing and reading a MAC address (crates/model/src/agent.rs).
use imaged.Base.{
  ℕ, ◌+◌, ◌*◌, ◌/◌, ◌%◌, ◌<◌, true, false, List, [], ◌∷◌, ◌++◌, ◌==◌, any, All, map, ◌≡◌, refl, ap,
  ◌∙◌, arith,
}
use imaged.Text.{Text}
use imaged.Error.{ok, AppError}
use imaged.Mac

-- The bytes of an address fit in a `u8`.
pub record IsMac (m : Mac.MacAddress) : Type 0 where
  pub a : m.a < 256
  pub b : m.b < 256
  pub c : m.c < 256
  pub d : m.d < 256
  pub e : m.e < 256
  pub g : m.g < 256

-- A digit is one, is neither separator, and has its value.
record IsDigit (c d : ℕ) : Type 0 where
  hex : Mac.is_ascii_hexdigit c ≡ true
  dash : (c == 45) ≡ false
  colon : (c == 58) ≡ false
  value : Mac.hex_value c ≡ d

hex_digit-IsDigit : (d : ℕ) → d < 16 → IsDigit (Mac.hex_digit d) d
hex_digit-IsDigit d h = record {
  hex = ground arith;
  dash = ground arith;
  colon = ground arith;
  value = ground arith;
}

next_byte-IsDigit :
    (invalid : AppError) (x y byte : ℕ) (parts : List Text)
    → IsDigit x (byte / 16)
    → IsDigit y (byte % 16)
    → Mac.next_byte invalid ((x ∷ y ∷ []) ∷ parts) ≡ ok (byte, parts)
unfolding Mac.next_byte
next_byte-IsDigit invalid x y byte parts u v =
    let h = u.hex in
    let k = v.hex in
    let same : 16 * Mac.hex_value x + Mac.hex_value y ≡ byte =
      rw (u.value, v.value) (omega arith) in
    rw (h, k) (ap (λ n. ok (n, parts)) same)

split-byte :
    (x y dx dy : ℕ) (rest : Text)
    → IsDigit x dx
    → IsDigit y dy
    → Mac.split 58 (x ∷ y ∷ 58 ∷ rest) ≡ (x ∷ y ∷ []) ∷ Mac.split 58 rest
split-byte x y dx dy rest u v = rw (u.colon, v.colon) refl

split-last :
    (x y dx dy : ℕ) → IsDigit x dx → IsDigit y dy → Mac.split 58 (x ∷ y ∷ []) ≡ (x ∷ y ∷ []) ∷ []
split-last x y dx dy u v = rw (u.colon, v.colon) refl

record IsPair (byte : ℕ) : Type 0 where
  high : IsDigit (Mac.hex_digit (byte / 16)) (byte / 16)
  low : IsDigit (Mac.hex_digit (byte % 16)) (byte % 16)

two_digits-IsPair : (byte : ℕ) → byte < 256 → IsPair byte
two_digits-IsPair byte h = record {
  high = hex_digit-IsDigit (byte / 16) (omega arith);
  low = hex_digit-IsDigit (byte % 16) (omega arith);
}

split-two_digits :
    (byte : ℕ) (rest : Text)
    → byte < 256
    → Mac.split 58 (Mac.two_digits byte ++ 58 ∷ rest) ≡ Mac.two_digits byte ∷ Mac.split 58 rest
split-two_digits byte rest h =
    let p = two_digits-IsPair byte h in
    split-byte (Mac.hex_digit (byte / 16)) (Mac.hex_digit (byte % 16)) (byte / 16) (byte % 16) rest
      p.high p.low

-- The digits of bytes, with colons between them.
printed : ℕ → List ℕ → Text
printed b [] = Mac.two_digits b
printed b (c ∷ cs) = Mac.two_digits b ++ 58 ∷ printed c cs

split-printed :
    (b : ℕ) (bs : List ℕ)
    → All (λ n. n < 256) (b ∷ bs)
    → Mac.split 58 (printed b bs) ≡ map Mac.two_digits (b ∷ bs)
unfolding printed
split-printed b [] v =
    let p = two_digits-IsPair b v.0 in
    split-last (Mac.hex_digit (b / 16)) (Mac.hex_digit (b % 16)) (b / 16) (b % 16) p.high p.low
split-printed b (c ∷ cs) v =
    split-two_digits b (printed c cs) v.0 ∙ ap (◌∷◌ (Mac.two_digits b)) (split-printed c cs v.1)

dashes-printed :
    (b : ℕ) (bs : List ℕ) → All (λ n. n < 256) (b ∷ bs) → any (λ c. c == 45) (printed b bs) ≡ false
unfolding printed
dashes-printed b [] v =
    let p = two_digits-IsPair b v.0 in let q = p.high.dash in let r = p.low.dash in rw (q, r) refl
dashes-printed b (c ∷ cs) v =
    let p = two_digits-IsPair b v.0 in
    let q = p.high.dash in let r = p.low.dash in rw (q, r) (dashes-printed c cs v.1)

others : Mac.MacAddress → List ℕ
others m = m.b ∷ m.c ∷ m.d ∷ m.e ∷ m.g ∷ []

bytes-IsMac : (m : Mac.MacAddress) → IsMac m → All (λ n. n < 256) (m.a ∷ others m)
unfolding others
bytes-IsMac m v = (v.a, (v.b, (v.c, (v.d, (v.e, (v.g, tt))))))

display-printed : (m : Mac.MacAddress) → Mac.display m ≡ printed m.a (others m)
unfolding Mac.display printed others
display-printed m = refl

next_byte-pair :
    (invalid : AppError) (byte : ℕ) (parts : List Text)
    → byte < 256
    → Mac.next_byte invalid (Mac.two_digits byte ∷ parts) ≡ ok (byte, parts)
next_byte-pair invalid byte parts h =
    let p = two_digits-IsPair byte h in
    next_byte-IsDigit invalid (Mac.hex_digit (byte / 16)) (Mac.hex_digit (byte % 16)) byte parts
      p.high p.low

six_bytes-two_digits :
    (invalid : AppError) (m : Mac.MacAddress)
    → IsMac m
    → Mac.six_bytes invalid (map Mac.two_digits (m.a ∷ others m)) ≡ ok m
unfolding Mac.six_bytes Mac.no_more others
six_bytes-two_digits invalid m v =
    let left : List ℕ → List Text = map Mac.two_digits in
    rw
      (
        next_byte-pair invalid m.a (left (m.b ∷ m.c ∷ m.d ∷ m.e ∷ m.g ∷ [])) v.a,
        next_byte-pair invalid m.b (left (m.c ∷ m.d ∷ m.e ∷ m.g ∷ [])) v.b,
        next_byte-pair invalid m.c (left (m.d ∷ m.e ∷ m.g ∷ [])) v.c,
        next_byte-pair invalid m.d (left (m.e ∷ m.g ∷ [])) v.d,
        next_byte-pair invalid m.e (left (m.g ∷ [])) v.e,
        next_byte-pair invalid m.g [] v.g,
      )
      refl

-- Reading what an address prints as gives that address, whatever the rendering of a text in errors.
pub from_str-display :
    (quoted : Text → Text) (m : Mac.MacAddress)
    → IsMac m
    → Mac.from_str quoted (Mac.display m) ≡ ok m
unfolding Mac.from_str
from_str-display quoted m v =
    let bytes = bytes-IsMac m v in
    rw (display-printed m, dashes-printed m.a (others m) bytes, split-printed m.a (others m) bytes)
      (six_bytes-two_digits _ m v)
