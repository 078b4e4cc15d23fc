-- ===== src/Ids.antt =====
-- uuid7 (apps/mcp/src/ids.ts): the generator's state is the module's two variables. The value is
-- the 128-bit number before it is printed; its fields do not overlap, so `|` adds them.
pub mod Order
pub mod Text
pub mod OccurredAt
use neuromem.Prelude.{
  ℕ, zero, suc, ◌+◌, ◌-◌, ◌*◌, ◌/◌, ◌%◌, ◌^◌, Bool, true, false, Option, none, some, List, [], ◌∷◌,
  ◌++◌, take, drop, ltb, ◌==◌, if◌then◌else◌,
}

-- `none` is the -1 that `lastTimestampMs` starts from.
pub record IdState : Type 0 where
  pub last_timestamp_ms : Option ℕ
  pub last_random : ℕ

abbrev pub initial : IdState
initial = record { last_timestamp_ms = none; last_random = 0 }

-- `value & RANDOM_MASK`
abbrev pub random_mask : ℕ → ℕ
random_mask n = n % 2 ^ 74

-- `nowMs > lastTimestampMs`
abbrev is_later : ℕ → Option ℕ → Bool
is_later now none = true
is_later now (some t) = ltb t now

fresh_state : ℕ → ℕ → IdState
fresh_state now entropy = record { last_timestamp_ms = some now; last_random = random_mask entropy }

-- The same millisecond, or a clock that went back: the random part counts up.
bumped : ℕ → ℕ → IdState
bumped t random =
    let next = random_mask (random + 1) in
    record { last_timestamp_ms = some (if next == 0 then t + 1 else t); last_random = next }

advance_from : Option ℕ → ℕ → ℕ → ℕ → IdState
unfolding fresh_state bumped
advance_from none random now entropy = fresh_state now entropy
advance_from (some t) random now entropy =
    if ltb t now then fresh_state now entropy else bumped t random

-- The state that a call leaves; `entropy` is what randomBytes gives.
unfoldable pub advance : IdState → ℕ → ℕ → IdState
unfolding advance_from
advance s now entropy = advance_from s.last_timestamp_ms s.last_random now entropy

-- The value for a time stamp and a random part.
unfoldable pub layout : ℕ → ℕ → ℕ
layout t random =
    (t % 2 ^ 48) * 2 ^ 80
    + 7 * 2 ^ 76
    + (random / 2 ^ 62) % 2 ^ 12 * 2 ^ 64
    + 2 * 2 ^ 62
    + random % 2 ^ 62

abbrev pub time_of : Option ℕ → ℕ
time_of none = 0
time_of (some t) = t

unfoldable pub value_of : IdState → ℕ
unfolding layout
value_of s = layout (time_of s.last_timestamp_ms) s.last_random

-- The number that a call returns, printed by `uuid_text`.
unfoldable pub uuid7 : IdState → ℕ → ℕ → ℕ × IdState
unfolding advance value_of
uuid7 s now entropy = let s' = advance s now entropy in (value_of s', s')

unfoldable pub hex_char : ℕ → ℕ
hex_char d = if ltb d 10 then b'0' + d else b'a' + (d - 10)

-- `value.toString(16).padStart(width, "0")` for a value below 16 ^ width.
unfoldable pub hex : ℕ → ℕ → List ℕ
unfolding hex_char
hex zero value = []
hex (suc width) value = hex width (value / 16) ++ hex_char (value % 16) ∷ []

-- The text of the value with its four dashes.
unfoldable pub uuid_text : ℕ → List ℕ
unfolding hex
uuid_text value =
    let encoded = hex 32 value in
    take 8 encoded
    ++ (b'-'
        ∷ (take 4 (drop 8 encoded)
            ++ (b'-'
                ∷ (take 4 (drop 12 encoded)
                    ++ (b'-' ∷ (take 4 (drop 16 encoded) ++ (b'-' ∷ drop 20 encoded)))))))
