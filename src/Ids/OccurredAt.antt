-- ===== src/Ids/OccurredAt.antt =====
-- uuid7OccurredAt (apps/mcp/src/router.ts): the time stamp in the first twelve digits of an id.
use neuromem.Prelude.{
  ℕ, ◌+◌, ◌-◌, ◌*◌, ◌/◌, ◌%◌, ◌^◌, false, not, ◌≡◌, ◌∙◌, arith, leb, ◌==◌, if◌then◌else◌, List, [],
  ◌∷◌, take, keep,
}
use neuromem.Ids.{IdState, advance, layout, value_of, time_of, uuid7, hex_char, uuid_text}
use neuromem.Ids.Text.{shift}

-- `recordId.replaceAll("-", "")`
unfoldable pub strip_dashes : List ℕ → List ℕ
unfolding keep
strip_dashes text = keep (λ c. not (c == b'-')) text

digit_value : ℕ → ℕ
digit_value c = if leb c b'9' then c - b'0' else if leb c b'F' then c - 55 else c - 87

-- `Number(BigInt("0x…"))`
hex_value : ℕ → List ℕ → ℕ
unfolding digit_value
hex_value acc [] = acc
hex_value acc (c ∷ cs) = hex_value (acc * 16 + digit_value c) cs

unfoldable pub uuid7_occurred_at : List ℕ → ℕ
unfolding strip_dashes hex_value
uuid7_occurred_at text = hex_value 0 (take 12 (strip_dashes text))

hex_char-ne-dash : (n : ℕ) → (hex_char (n % 16) == b'-') ≡ false
unfolding hex_char
hex_char-ne-dash n = ground arith

digit_value-hex_char : (n : ℕ) → digit_value (hex_char (n % 16)) ≡ n % 16
unfolding digit_value hex_char
digit_value-hex_char n = ground arith

-- Twelve hexadecimal digits of a number are its value below 16 ^ 12.
twelve_digits :
    (u : ℕ)
    → (((((((((((0 + shift 11 u % 16) * 16 + shift 10 u % 16) * 16 + shift 9 u % 16) * 16
                                        + shift 8 u % 16)
                                      * 16
                                    + shift 7 u % 16)
                                  * 16
                                + shift 6 u % 16)
                              * 16
                            + shift 5 u % 16)
                          * 16
                        + shift 4 u % 16)
                      * 16
                    + shift 3 u % 16)
                  * 16
                + shift 2 u % 16)
              * 16
            + shift 1 u % 16)
          * 16
        + u % 16
      ≡ u % 2 ^ 48
twelve_digits u = omega arith

occurred_at_digits : (v : ℕ) → uuid7_occurred_at (uuid_text v) ≡ shift 20 v % 2 ^ 48
unfolding uuid7_occurred_at uuid_text
occurred_at_digits v = simp (hex_char-ne-dash, digit_value-hex_char) (twelve_digits (shift 20 v))

shift_20 : (v : ℕ) → shift 20 v ≡ v / 2 ^ 80
shift_20 v = omega arith

layout_time : (t r : ℕ) → (layout t r / 2 ^ 80) % 2 ^ 48 ≡ t % 2 ^ 48
unfolding layout
layout_time t r = omega arith

-- The time read from a printed id is the time stamp that the generator put in, below 2 ^ 48.
pub uuid7_occurred_at-uuid_text :
    (s : IdState) (now entropy : ℕ)
    → uuid7_occurred_at (uuid_text (uuid7 s now entropy).0)
      ≡ time_of (advance s now entropy).last_timestamp_ms % 2 ^ 48
unfolding uuid7 value_of
uuid7_occurred_at-uuid_text s now entropy =
    let s' = advance s now entropy in
    let v = layout (time_of s'.last_timestamp_ms) s'.last_random in
    occurred_at_digits v ∙ rw (shift_20 v) (layout_time _ _)
