-- ===== src/RetryQueue/Reads.antt =====
-- list, readRecord and count of DurableRetryQueue (apps/mcp/src/retry-queue.ts).
use neuromem.Prelude.{
  ℕ, String, Bool, true, ◌||◌, Option, none, some, List, [], ◌∷◌, length, take, keep, includes, leb,
  if◌then◌else◌,
}
use neuromem.Json.{JsonObject}
use neuromem.RetryQueue.Store.{
  RetryEntry, SpoolEnvelope, ok, M, ◌>>=◌, ◌>>◌, return, read_file, read_queue, assert_record_id,
}

unfoldable pub insert_entry : RetryEntry → List RetryEntry → List RetryEntry
insert_entry e [] = e ∷ []
insert_entry e (x ∷ xs) =
    if leb e.next_attempt_at x.next_attempt_at then e ∷ x ∷ xs else x ∷ insert_entry e xs

unfoldable pub sort_entries : List RetryEntry → List RetryEntry
unfolding insert_entry
sort_entries [] = []
sort_entries (e ∷ es) = insert_entry e (sort_entries es)

unfoldable pub is_selected : Option (List String) → RetryEntry → Bool
is_selected none e = true
is_selected (some targets) e = includes targets e.target_node

unfoldable pub is_due : Bool → ℕ → RetryEntry → Bool
is_due force now e = force || leb e.next_attempt_at now

unfoldable pub due_entries : Option (List String) → ℕ → Bool → ℕ → List RetryEntry → List RetryEntry
unfolding sort_entries is_selected is_due
due_entries targets limit force now es =
    take limit (sort_entries (keep (is_due force now) (keep (is_selected targets) es)))

unfoldable pub list : Option (List String) → ℕ → Bool → ℕ → M (List RetryEntry)
unfolding read_queue due_entries
list targets limit force now = do es ← read_queue; return (due_entries targets limit force now es)

abbrev record_of : Option SpoolEnvelope → Option JsonObject
record_of none = none
record_of (some e) = some e.record_object

unfoldable pub read_record : String → M (Option JsonObject)
unfolding assert_record_id
read_record id = do assert_record_id id; λ s. (ok (record_of (read_file id s.records)), s)

unfoldable pub count : M ℕ
unfolding read_queue
count = do es ← read_queue; return (length es)
