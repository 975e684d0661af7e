-- ===== src/Ports.antt =====
-- The ports and the group address of a multicast transfer (crates/model/src/multicast.rs).
-- A `u16` and a `u32` are numbers below 2 ^ 16 and 2 ^ 32, and their arithmetic wraps around.
mod Tests
use mathlib.Core.Path.{subst}
use imaged.Base.{
  ℕ, zero, suc, ◌+◌, ◌-◌, ◌*◌, ◌/◌, ◌%◌, ◌^◌, ◌≤◌, ◌<◌, ◌≡◌, ◌≢◌, refl, arith, Bool, true, false,
  ◌||◌, ◌==◌, leb, if◌then◌else◌, sym, ap, ◌∙◌, Bool-cases, inl, inr,
}
use imaged.Base.Int.{ℤ, pos, negsuc}

abbrev pub multicast_port_base : ℕ
multicast_port_base = 50000

-- `(u16::MAX - MULTICAST_PORT_BASE - 2) / 2`.
abbrev pub max_multicast_slot : ℕ
max_multicast_slot = (65535 - multicast_port_base - 2) / 2

abbrev pub as_u16 : ℕ → ℕ
as_u16 n = n % 65536

abbrev pub is_slot : ℤ → Bool
is_slot (pos n) = leb n max_multicast_slot
is_slot (negsuc n) = false

unfoldable pub get_multicast_port : ℤ → ℕ
get_multicast_port (pos n) =
    if is_slot (pos n) then as_u16 (multicast_port_base + as_u16 (as_u16 n * 2)) else 65535
get_multicast_port (negsuc n) = 65535

-- `239.192.0.0`.
abbrev pub organization_local_scope : ℕ
organization_local_scope = 4022337536

-- `1 << 18`.
abbrev pub groups_in_scope : ℕ
groups_in_scope = 262144

-- `as u32` of an `i64`: the low 32 bits of its two's complement.
abbrev pub as_u32 : ℤ → ℕ
as_u32 (pos n) = n % 4294967296
as_u32 (negsuc n) = 4294967295 - n % 4294967296

-- `|` on numbers of `w` bits.
unfoldable pub bit_or : ℕ → ℕ → ℕ → ℕ
bit_or zero x y = 0
bit_or (suc w) x y = (if x % 2 == 1 || y % 2 == 1 then 1 else 0) + 2 * bit_or w (x / 2) (y / 2)

unfoldable pub multicast_group : ℤ → ℕ
multicast_group task_id = bit_or 32 organization_local_scope (as_u32 task_id % groups_in_scope)

valid_port :
    (n : ℕ) → is_slot (pos n) ≡ true → get_multicast_port (pos n) ≡ multicast_port_base + 2 * n
unfolding get_multicast_port
valid_port n h = ground (arith, h)

-- A slot from 0 to the greatest one has two ports, of which the second is below 65535. Neither is
-- the port of any other slot, valid or not, and the first is not the group port of any.
pub get_multicast_port-apart :
    (a b : ℤ)
    → is_slot a ≡ true
    → a ≢ b
    → (get_multicast_port a + 1 < 65535)
      × (get_multicast_port a ≢ get_multicast_port b)
      × (get_multicast_port a + 1 ≢ get_multicast_port b)
      × (get_multicast_port a ≢ get_multicast_port b + 1)
unfolding get_multicast_port
get_multicast_port-apart (pos m) (pos n) v d = ground (arith, v, λ (e : m ≡ n). d (ap pos e))
get_multicast_port-apart (pos m) (negsuc n) v d = ground (arith, v)
get_multicast_port-apart (negsuc m) b v d = cc

two-power : (k : ℕ) → 2 ^ suc k ≡ 2 * 2 ^ k
two-power k = omega arith

bit_or-doubled :
    (w a p y : ℕ) → bit_or (suc w) (a * (2 * p)) y ≡ y % 2 + 2 * bit_or w (a * p) (y / 2)
unfolding bit_or
bit_or-doubled w a p y =
    let even : (a * (2 * p)) % 2 ≡ 0 = omega arith in
    let half : (a * (2 * p)) / 2 ≡ a * p = omega arith in
    rw (even, half)
      (elim (Bool-cases (y % 2 == 1)) [
        | inl odd ↦ rw odd (ground (arith, odd))
        | inr even_y ↦ rw even_y (ground (arith, even_y))
      ])

-- The low bits of the scope are 0, so the bits of a number below them are put in their place.
bit_or-high : (k w a y : ℕ) → y < 2 ^ k → bit_or (k + w) (a * 2 ^ k) y ≡ bit_or w a 0 * 2 ^ k + y
bit_or-high zero w a y h =
    let none_low : y ≡ 0 = ground (arith, h) in
    let same : a * 2 ^ 0 ≡ a = omega arith in
    let width : 0 + w ≡ w = omega arith in
    rw none_low (ap (λ x. bit_or x (a * 2 ^ 0) 0) width ∙ ap (λ x. bit_or w x 0) same ∙ omega arith)
bit_or-high (suc k) w a y h =
    let ih = bit_or-high k w a (y / 2) (omega (arith, h, two-power k)) in
    let width : suc k + w ≡ suc (k + w) = omega arith in
    subst (λ p. bit_or (suc k + w) (a * p) y ≡ bit_or w a 0 * p + y) (sym (two-power k))
      (ap (λ x. bit_or x (a * (2 * 2 ^ k)) y) width
        ∙ bit_or-doubled (k + w) a (2 ^ k) y
        ∙ omega (arith, ih))

scope-bits : bit_or 14 15344 0 ≡ 15344
unfolding bit_or
scope-bits = refl

-- A task's group is an address of 239.192.0.0/14, and the low 18 bits of the task's id tell it from
-- the others.
pub multicast_group_lem :
    (task_id : ℤ)
    → multicast_group task_id ≡ organization_local_scope + as_u32 task_id % groups_in_scope
unfolding multicast_group
multicast_group_lem task_id =
    let low = as_u32 task_id % groups_in_scope in
    bit_or-high 18 14 15344 low (omega arith) ∙ ap (λ x. x * groups_in_scope + low) scope-bits

-- Two tasks whose ids are not negative share a group only if their ids differ by a multiple of 2
-- ^ 18, and the group is an address of 239.192.0.0/14.
pub multicast_group-same :
    (a b : ℕ)
    → multicast_group (pos a) ≡ multicast_group (pos b)
    → (a % 262144 ≡ b % 262144)
      × (4022337536 ≤ multicast_group (pos a))
      × (multicast_group (pos a) < 4022599680)
multicast_group-same a b h =
    let f = multicast_group_lem (pos a) in
    let g = multicast_group_lem (pos b) in
    (omega (arith, f, g, h), omega (arith, f), omega (arith, f))
