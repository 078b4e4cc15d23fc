-- ===== src/Tests/Ids.antt =====
-- The generator of ids at a clock that stands still.
use neuromem.Prelude.{◌<◌, ◌%◌, ◌^◌, true, ◌≡◌, refl, some, arith}
use neuromem.Uuid.{matches, uuid7_pattern}
use neuromem.Ids.{IdState, initial, advance, value_of, uuid7, uuid_text, time_of}
use neuromem.Ids.Order.{value_of-lt-uuid7}
use neuromem.Ids.Text.{uuid7-matches}
use neuromem.Ids.OccurredAt.{uuid7_occurred_at, uuid7_occurred_at-uuid_text}

abbrev stopped : IdState
stopped = record { last_timestamp_ms = some 1700000000000; last_random = 12345 }

value_of-lt-uuid7_example : value_of stopped < (uuid7 stopped 1699999999999 7).0
value_of-lt-uuid7_example =
    value_of-lt-uuid7 stopped 1700000000000 1699999999999 7 refl (omega arith) (omega arith)
      (omega arith)

uuid7-matches_example : matches uuid7_pattern (uuid_text (uuid7 initial 1700000000000 7).0) ≡ true
uuid7-matches_example = uuid7-matches initial 1700000000000 7

uuid7_occurred_at-uuid_text_example :
    uuid7_occurred_at (uuid_text (uuid7 initial 1700000000000 7).0)
    ≡ time_of (advance initial 1700000000000 7).last_timestamp_ms % 2 ^ 48
uuid7_occurred_at-uuid_text_example = uuid7_occurred_at-uuid_text initial 1700000000000 7
