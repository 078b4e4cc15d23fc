-- ===== src/Ids/Text.antt =====
-- The printed id is a UUIDv7, and its first twelve digits give its time stamp back
-- (uuid7OccurredAt in apps/mcp/src/router.ts).
use neuromem.Prelude.{ℕ, zero, suc, ◌/◌, ◌%◌, ◌^◌, ◌≤◌, ◌<◌, true, ◌≡◌, refl, arith}
use neuromem.Uuid.{seven, variant, in_class, is_hex, matches, uuid7_pattern}
use neuromem.Ids.{IdState, layout, uuid7, hex_char, uuid_text}

is_hex-hex_char : (n : ℕ) → is_hex (hex_char (n % 16)) ≡ true
unfolding is_hex hex_char
is_hex-hex_char n = ground arith

seven_digit : (n : ℕ) → n % 16 ≡ 7 → in_class seven (hex_char (n % 16)) ≡ true
unfolding in_class hex_char
seven_digit n h = rw h

variant_digit : (n : ℕ) → 8 ≤ n % 16 → n % 16 < 12 → in_class variant (hex_char (n % 16)) ≡ true
unfolding in_class hex_char
variant_digit n h k = ground arith

-- The value without its last `k` digits.
abbrev pub shift : ℕ → ℕ → ℕ
shift zero v = v
shift (suc k) v = shift k v / 16

uuid_text-matches :
    (v : ℕ)
    → shift 19 v % 16 ≡ 7
    → 8 ≤ shift 15 v % 16
    → shift 15 v % 16 < 12
    → matches uuid7_pattern (uuid_text v) ≡ true
unfolding matches uuid_text
uuid_text-matches v a b c =
    simp is_hex-hex_char (rw (seven_digit (shift 19 v) a, variant_digit (shift 15 v) b c) refl)

shift_15 : (v : ℕ) → shift 15 v ≡ v / 2 ^ 60
shift_15 v = omega arith

shift_19 : (v : ℕ) → shift 19 v ≡ v / 2 ^ 76
shift_19 v = omega arith

layout_digits :
    (t r : ℕ)
    → (layout t r / 2 ^ 76 % 16 ≡ 7)
      × (8 ≤ layout t r / 2 ^ 60 % 16)
      × (layout t r / 2 ^ 60 % 16 < 12)
unfolding layout
layout_digits t r = omega arith

-- Every id that the generator prints passes the UUIDv7 test of the router and the tools.
pub uuid7-matches :
    (s : IdState) (now entropy : ℕ)
    → matches uuid7_pattern (uuid_text (uuid7 s now entropy).0) ≡ true
unfolding uuid7
uuid7-matches s now entropy =
    let v = (uuid7 s now entropy).0 in
    let (a, b, c) = layout_digits _ _ in
    uuid_text-matches v (rw (shift_19 v) a) (rw (shift_15 v) b) (rw (shift_15 v) c)
