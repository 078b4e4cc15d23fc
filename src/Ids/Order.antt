-- ===== src/Ids/Order.antt =====
-- The values of successive calls grow.
use neuromem.Prelude.{ℕ, ◌+◌, ◌^◌, ◌<◌, ◌≡◌, ◌⊎◌, inl, inr, some, arith}
use neuromem.Ids.{IdState, advance, layout, value_of, uuid7, time_of}

-- A later time stamp, or an equal one with a larger random part, gives a larger value.
layout_mono :
    (t r t' r' : ℕ)
    → t' < 2 ^ 48
    → r < 2 ^ 74
    → r' < 2 ^ 74
    → (t < t') ⊎ ((t ≡ t') × (r < r'))
    → layout t r < layout t' r'
unfolding layout
layout_mono t r t' r' bound h h' (inl later) = omega arith
layout_mono t r t' r' bound h h' (inr (same, more)) = omega arith

-- What every call leaves: a time stamp, and a random part of 74 bits.
abbrev pub InRange : IdState → Type 0
InRange s = s.last_random < 2 ^ 74

abbrev pub Within : ℕ → IdState → Type 0
Within bound s = time_of s.last_timestamp_ms < bound

advance-InRange : (s : IdState) (now entropy : ℕ) → InRange (advance s now entropy)
unfolding advance
advance-InRange s now entropy = ground arith

advance-Within :
    (s : IdState) (now entropy bound : ℕ)
    → now < bound
    → Within bound s
    → Within (bound + 1) (advance s now entropy)
unfolding advance
advance-Within s now entropy bound h w = ground arith

-- The 128 bits suffice.
layout-lt : (t r : ℕ) → layout t r < 2 ^ 128
unfolding layout
layout-lt t r = omega arith

pub uuid7-lt-pow : (s : IdState) (now entropy : ℕ) → (uuid7 s now entropy).0 < 2 ^ 128
unfolding uuid7
uuid7-lt-pow s now entropy = layout-lt _ _

advance_grows :
    (s : IdState) (t now entropy : ℕ)
    → s.last_timestamp_ms ≡ some t
    → InRange s
    → let s' = advance s now entropy in
      (t < time_of s'.last_timestamp_ms)
      ⊎ ((t ≡ time_of s'.last_timestamp_ms) × (s.last_random < s'.last_random))
unfolding advance
advance_grows s t now entropy h r = ground arith

value_of-some :
    (s : IdState) (t : ℕ) → s.last_timestamp_ms ≡ some t → value_of s ≡ layout t s.last_random
unfolding value_of
value_of-some s t h = rw h

advance_bound :
    (s : IdState) (t now entropy bound : ℕ)
    → s.last_timestamp_ms ≡ some t
    → now < bound
    → t + 1 < bound
    → time_of (advance s now entropy).last_timestamp_ms < bound
unfolding advance
advance_bound s t now entropy bound h n b = ground arith

-- Each value is larger than the one before, whatever the clock does and whatever random bytes
-- come, as long as the time stamps fit 48 bits.
pub value_of-lt-uuid7 :
    (s : IdState) (t now entropy : ℕ)
    → s.last_timestamp_ms ≡ some t
    → InRange s
    → now < 2 ^ 48
    → t + 1 < 2 ^ 48
    → value_of s < (uuid7 s now entropy).0
unfolding uuid7 value_of
value_of-lt-uuid7 s t now entropy h r n b = rw (value_of-some s t h) (
    layout_mono t s.last_random _ _ (advance_bound s t now entropy (2 ^ 48) h n b) r
      (advance-InRange s now entropy) (advance_grows s t now entropy h r))
