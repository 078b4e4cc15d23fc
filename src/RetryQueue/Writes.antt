-- ===== src/RetryQueue/Writes.antt =====
-- enqueueRecord, markPending and resolve of DurableRetryQueue (apps/mcp/src/retry-queue.ts). The
-- two halves of enqueueRecord and of resolve end in a file write each, and a crash can fall between.
use neuromem.Prelude.{
  ℕ, ◌+◌, ◌-◌, ◌*◌, ◌^◌, min, String, Bool, true, false, not, ◌&&◌, ◌||◌, Option, none, some, List,
  [], ◌∷◌, ◌++◌, length, keep, unique, without, ◌==◌, if◌then◌else◌, get_or_else,
}
use neuromem.Json.{
  Json, JsonObject, null, boolean, number, string, array, nil, cons, empty, object, get, put,
  remove, spread, as_object, object_eq,
}
use neuromem.Json.Canonical.{canonical_json, same_text}
use neuromem.RetryQueue.Store.{
  RetryEntry, SpoolEnvelope, Records, spool_collision, retry_entry_disappeared, write_failed, ok,
  err, M, ◌>>=◌, ◌>>◌, return, throw, is_for, has_entry, read_file, delete_file, write_file,
  read_queue, write_queue, assert_record_id,
}

-- What `String(value)` gives, as far as it can be a record id: a text, or an array of one element, which
-- prints as the element. All else prints as no record id, and is the empty text here.
unfoldable pub id_text : Json → String
id_text null = ""
id_text (boolean b) = ""
id_text (number n) = ""
id_text (string s) = s
id_text (array nil) = ""
id_text (array (cons v nil)) = id_text v
id_text (array (cons v (cons w vs))) = ""
id_text (object fs) = ""

abbrev optional_id_text : Option Json → String
optional_id_text none = ""
optional_id_text (some v) = id_text v

-- `String(record.record_id ?? "")`
unfoldable pub record_id_of : JsonObject → String
unfolding id_text
record_id_of record_object = optional_id_text (get "record_id" record_object)

scopes_of : JsonObject → JsonObject
scopes_of record_object = get_or_else (as_object (get "origin_scopes" record_object)) empty

-- The test for a record spool collision: equal but for the origin scopes.
unfoldable pub same_immutable : JsonObject → JsonObject → Bool
same_immutable a b =
    same_text (canonical_json (object (remove "origin_scopes" a)))
      (canonical_json (object (remove "origin_scopes" b)))

-- The record that is spooled a second time: scopes that are known stay as they are.
merged_record : JsonObject → JsonObject → JsonObject
unfolding scopes_of
merged_record existing requested =
    put "origin_scopes" (object (spread (scopes_of requested) (scopes_of existing))) existing

unfoldable pub spool_changed : SpoolEnvelope → SpoolEnvelope → Bool
spool_changed old new =
    not (length new.pending_targets == length old.pending_targets)
    || not (object_eq new.record_object old.record_object)

unfoldable pub merge_envelope : SpoolEnvelope → JsonObject → List String → SpoolEnvelope
unfolding merged_record
merge_envelope e requested targets = record {
  record_object = merged_record e.record_object requested;
  pending_targets = unique (e.pending_targets ++ targets);
}

unfoldable pub spool_into : String → JsonObject → List String → Option SpoolEnvelope → M JsonObject
unfolding merge_envelope spool_changed
spool_into id requested targets none s = (
  ok requested,
  record s {
    records =
        write_file id (record { record_object = requested; pending_targets = targets }) s.records;
  },
)
spool_into id requested targets (some e) s =
    let merged = merge_envelope e requested targets in
    if same_immutable e.record_object requested
    then (
      ok merged.record_object,
      if spool_changed e merged then record s { records = write_file id merged s.records } else s,
    )
    else (err spool_collision, s)

-- The first half of `enqueueRecord`, up to the write of the record's file.
unfoldable pub enqueue_spool : String → JsonObject → List String → M JsonObject
unfolding spool_into
enqueue_spool id requested targets s = spool_into id requested targets (read_file id s.records) s

unfoldable pub fresh_entry : String → ℕ → String → RetryEntry
fresh_entry id now target = record {
  record_id = id;
  target_node = target;
  attempts = 0;
  next_attempt_at = now;
  created_at = now;
  updated_at = now;
  last_error_code = none;
}

-- The loop over `targets`; `known` is what `existingKeys` was built from.
unfoldable pub push_missing :
    String → ℕ → List RetryEntry → List String → List RetryEntry → List RetryEntry
unfolding fresh_entry
push_missing id now known [] es = es
push_missing id now known (t ∷ ts) es =
    push_missing id now known ts
      (if has_entry id t known then es else es ++ fresh_entry id now t ∷ [])

-- The second half of `enqueueRecord`, on the queue's file.
unfoldable pub enqueue_entries : String → List String → ℕ → M (Unit {0})
unfolding read_queue push_missing
enqueue_entries id targets now = do
  known ← read_queue
  write_queue (push_missing id now known targets known)

-- `enqueueRecord`, where no write throws.
unfoldable pub enqueue_record : JsonObject → List String → ℕ → M JsonObject
unfolding assert_record_id enqueue_spool enqueue_entries record_id_of
enqueue_record requested targets now = do
  let id = record_id_of requested
  assert_record_id id
  persisted ← enqueue_spool id requested targets
  enqueue_entries id targets now
  return persisted

-- Whether a write of `enqueueRecord` throws, as on a full disk: the one of the record's file or the one
-- of the queue's file.
pub data WriteFault : Type 0 where
  no_fault record_fault queue_fault : WriteFault

-- Whether the record's file is written at all.
unfoldable pub writes_record : JsonObject → List String → Option SpoolEnvelope → Bool
unfolding merge_envelope spool_changed same_immutable
writes_record requested targets none = true
writes_record requested targets (some e) =
    same_immutable e.record_object requested && spool_changed e (merge_envelope e requested targets)

unfoldable pub enqueue_spool_under : WriteFault → String → JsonObject → List String → M JsonObject
unfolding enqueue_spool writes_record
enqueue_spool_under no_fault id requested targets s = enqueue_spool id requested targets s
enqueue_spool_under queue_fault id requested targets s = enqueue_spool id requested targets s
enqueue_spool_under record_fault id requested targets s =
    if writes_record requested targets (read_file id s.records)
    then (err write_failed, s)
    else enqueue_spool id requested targets s

unfoldable pub enqueue_entries_under : WriteFault → String → List String → ℕ → M (Unit {0})
unfolding enqueue_entries read_queue
enqueue_entries_under no_fault id targets now = enqueue_entries id targets now
enqueue_entries_under record_fault id targets now = enqueue_entries id targets now
enqueue_entries_under queue_fault id targets now = do known ← read_queue; throw write_failed

-- `enqueueRecord`, by the write that throws.
unfoldable pub enqueue_record_under : WriteFault → JsonObject → List String → ℕ → M JsonObject
unfolding assert_record_id enqueue_spool_under enqueue_entries_under record_id_of
enqueue_record_under fault requested targets now = do
  let id = record_id_of requested
  assert_record_id id
  persisted ← enqueue_spool_under fault id requested targets
  enqueue_entries_under fault id targets now
  return persisted

unfoldable pub delay_ms : ℕ → ℕ
delay_ms attempts = min 300000 (2000 * 2 ^ min (attempts - 1) 8)

unfoldable pub touch : String → ℕ → RetryEntry → RetryEntry
unfolding delay_ms
touch code now e = record e {
  attempts = e.attempts + 1;
  last_error_code = some code;
  updated_at = now;
  next_attempt_at = now + delay_ms (e.attempts + 1);
}

unfoldable pub mark_first : String → String → String → ℕ → List RetryEntry → List RetryEntry
unfolding touch
mark_first id target code now [] = []
mark_first id target code now (e ∷ es) =
    let rest = mark_first id target code now es in
    if is_for id target e then touch code now e ∷ es else e ∷ rest

unfoldable pub mark_pending : String → String → String → ℕ → M (Unit {0})
unfolding read_queue mark_first
mark_pending id target code now = do
  es ← read_queue
  if has_entry id target es
      then write_queue (mark_first id target code now es)
      else throw retry_entry_disappeared

unfoldable pub is_nil : List String → Bool
is_nil [] = true
is_nil (x ∷ xs) = false

-- The target leaves the envelope; an envelope with no target left is removed.
unfoldable pub resolved_files : String → String → Option SpoolEnvelope → Records → Records
unfolding is_nil
resolved_files id target none files = files
resolved_files id target (some e) files =
    let pending = without target e.pending_targets in
    if is_nil pending
    then delete_file id files
    else write_file id (record e { pending_targets = pending }) files

-- The first half of `resolve`, on the record's file.
unfoldable pub resolve_spool : String → String → M (Unit {0})
unfolding resolved_files
resolve_spool id target s =
    (ok tt, record s { records = resolved_files id target (read_file id s.records) s.records })

unfoldable pub drop_entry : String → String → List RetryEntry → List RetryEntry
drop_entry id target es = keep (λ e. not (is_for id target e)) es

-- The second half, on the queue's file.
unfoldable pub resolve_entries : String → String → M (Unit {0})
unfolding read_queue
resolve_entries id target = do es ← read_queue; write_queue (drop_entry id target es)

unfoldable pub resolve : String → String → M (Unit {0})
unfolding assert_record_id resolve_spool resolve_entries
resolve id target = do assert_record_id id; resolve_spool id target; resolve_entries id target
