-- ===== src/Uuid.antt =====
-- The regular expressions for UUIDs: RECORD_ID_PATTERN (apps/mcp/src/retry-queue.ts), the UUIDv7
-- test of memoryRecord (apps/mcp/src/router.ts), UUID_PATTERN (apps/mcp/src/config.ts) and
-- requiredUuid (apps/mcp/src/tools.ts). Each is anchored and ignores case.
use neuromem.Prelude.{
  ℕ, zero, suc, String, Bool, true, false, ◌&&◌, ◌||◌, List, [], ◌∷◌, leb, ◌==◌, codes,
}

-- A character class of a pattern.
pub data Class : Type 0 where
  hex dash seven version variant : Class

unfoldable pub is_hex : ℕ → Bool
is_hex c = (leb b'0' c && leb c b'9') || (leb b'a' c && leb c b'f') || (leb b'A' c && leb c b'F')

unfoldable pub in_class : Class → ℕ → Bool
unfolding is_hex
in_class hex c = is_hex c
in_class dash c = c == b'-'
in_class seven c = c == b'7'
in_class version c = leb b'1' c && leb c b'8'
in_class variant c = c == b'8' || c == b'9' || c == b'a' || c == b'b' || c == b'A' || c == b'B'

abbrev times : ℕ → Class → List Class → List Class
times zero c rest = rest
times (suc n) c rest = c ∷ times n c rest

-- `/^…$/i.test(value)` for a sequence of classes.
unfoldable pub matches : List Class → List ℕ → Bool
unfolding in_class
matches [] [] = true
matches (k ∷ ks) (c ∷ cs) = in_class k c && matches ks cs
matches _ _ = false

abbrev pub record_id_pattern : List Class
record_id_pattern =
    times 8 hex
      (dash ∷ times 4 hex (dash ∷ times 4 hex (dash ∷ times 4 hex (dash ∷ times 12 hex []))))

abbrev pub uuid7_pattern : List Class
uuid7_pattern = times 8 hex (
    dash
    ∷ times 4 hex
        (dash ∷ seven ∷ times 3 hex (dash ∷ variant ∷ times 3 hex (dash ∷ times 12 hex []))))

abbrev pub uuid_pattern : List Class
uuid_pattern = times 8 hex (
    dash
    ∷ times 4 hex
        (dash ∷ version ∷ times 3 hex (dash ∷ variant ∷ times 3 hex (dash ∷ times 12 hex []))))

-- `RECORD_ID_PATTERN.test(recordId)`
unfoldable pub is_record_id : String → Bool
unfolding matches
is_record_id id = matches record_id_pattern (codes id)

unfoldable pub is_uuid7 : String → Bool
unfolding matches
is_uuid7 id = matches uuid7_pattern (codes id)

unfoldable pub is_uuid : String → Bool
unfolding matches
is_uuid id = matches uuid_pattern (codes id)
