-- ===== src/Tests/Queue.antt =====
-- The retry queue on one record with two targets, and an idempotency key.
use neuromem.Prelude.{
  inl, ℕ, ◌+◌, ◌*◌, ◌^◌, ◌<◌, ◌≤◌, String, true, false, ◌≡◌, ◌≢◌, refl, ap, none, some, List, [],
  ◌∷◌, arith, ◌&&◌, str_eq, includes, without, Distinct, find, if◌then◌else◌, take, keep,
}
use mathlib.Core.List.{Perm}
use neuromem.Json.{JsonObject, empty, field, string, get}
use neuromem.Uuid.{is_record_id}
use neuromem.RetryQueue.Store.{
  RetryEntry, SpoolEnvelope, IdempotencyEntry, Store, entries, corrupt, ok, err, payload_mismatch,
  has_entry, is_for, assert_record_id, read_queue, read_file, write_file, delete_file,
}
use neuromem.RetryQueue.Writes.{
  queue_fault, enqueue_record_under, record_id_of, enqueue_record, mark_pending, resolve,
  drop_entry, delay_ms,
}
use neuromem.RetryQueue.Reads.{list, is_due, is_selected}
use neuromem.RetryQueue.Idempotency.{
  initialize, resolve_idempotency_key, prune_registry, is_active, key_path, new_entry, read_key,
  is_key, write_key,
}
use neuromem.RetryQueue.Spool.{spooled, IsSpool, has_file}
use neuromem.RetryQueue.Consistency.{IsConsistent}
use neuromem.RetryQueue.Faults.{EnqueuedUnder, enqueue_record_under-EnqueuedUnder}
use neuromem.RetryQueue.Resolution.{Resolved, resolve-Resolved, Marked, mark_pending-Marked}
use neuromem.RetryQueue.Recovery.{initialize-IsConsistent}
use neuromem.RetryQueue.Actions.{Action, finish, finish_crash, run}
use neuromem.RetryQueue.Durability.{run-Safe, acknowledged-queued}
use neuromem.RetryQueue.Backoff.{delay_schedule, entry_of, mark_pending-Scheduled}
use neuromem.RetryQueue.Listing.{IsSorted, list-Sorted}
use neuromem.RetryQueue.Keys.{prune_registry-keeps_active}
use neuromem.RetryQueue.Answers.{resolve_idempotency_key-repeats}

abbrev pub sample_id : String
sample_id = "0190a5d2-7c3e-7abc-8def-0123456789ab"

abbrev pub write : JsonObject
write = field "record_id" (string sample_id) (field "content" (string "hello") empty)

abbrev pub targets : List String
targets = "east" ∷ "west" ∷ []

abbrev pub void : Store
void = record { queue = entries []; records = []; idempotency = []; writes_since_prune = 0 }

void-IsConsistent : IsConsistent void
unfolding has_entry spooled read_file
void-IsConsistent = record {
  held = [];
  file = refl;
  spool = tt;
  distinct = tt;
  agrees = λ i t. refl;
}

abbrev pub spool_envelope : SpoolEnvelope
spool_envelope = record { record_object = write; pending_targets = targets }

abbrev pub spooled_store : Store
spooled_store = record void { records = (sample_id, spool_envelope) ∷ [] }

targets-Distinct : Distinct targets
unfolding includes
targets-Distinct = (refl, (refl, tt))

enqueue_record_under-EnqueuedUnder_example :
    EnqueuedUnder queue_fault void
      (record_id_of write)
      targets
      (enqueue_record_under queue_fault write targets 5 void)
enqueue_record_under-EnqueuedUnder_example =
    enqueue_record_under-EnqueuedUnder queue_fault write targets 5 void targets-Distinct
      void-IsConsistent

spooled_store-IsSpool : IsSpool spooled_store.records
unfolding is_record_id record_id_of get includes has_file
spooled_store-IsSpool = (refl, refl, (refl, (refl, tt)), refl, tt)

not_corrupt : (es : List RetryEntry) → entries es ≢ corrupt
not_corrupt es = cc

initialize-IsConsistent_example :
    ((initialize 7 spooled_store).0 ≡ ok tt)
    × IsConsistent (initialize 7 spooled_store).1
    × ((initialize 7 spooled_store).1.records ≡ spooled_store.records)
initialize-IsConsistent_example =
    initialize-IsConsistent 7 spooled_store spooled_store-IsSpool (not_corrupt [])

-- The store after a restart: both targets are queued again.
abbrev pub busy : Store
busy = (initialize 7 spooled_store).1

pub busy-IsConsistent : IsConsistent busy
busy-IsConsistent =
    (initialize-IsConsistent 7 spooled_store spooled_store-IsSpool (not_corrupt [])).1

pub busy-pending : spooled sample_id "east" busy.records ≡ true
unfolding spooled read_file includes
busy-pending =
    ap (spooled sample_id "east")
      (initialize-IsConsistent 7 spooled_store spooled_store-IsSpool (not_corrupt [])).2

resolve-Resolved_example : Resolved busy sample_id "east" (resolve sample_id "east" busy)
resolve-Resolved_example = resolve-Resolved sample_id "east" busy busy-IsConsistent

mark_pending-Marked_example :
    Marked busy sample_id "east" (mark_pending sample_id "east" "timeout" 9 busy)
mark_pending-Marked_example =
    mark_pending-Marked sample_id "east" "timeout" 9 busy busy-IsConsistent

acknowledged : (enqueue_record write targets 5 void).0 ≡ ok write
unfolding enqueue_record is_record_id get read_file read_queue assert_record_id
acknowledged = refl

-- The other target is resolved, then a crash falls into its second resolve.
abbrev history : List (ℕ × Action)
history = (6, finish sample_id "west") ∷ (8, finish_crash sample_id "west") ∷ []

history_left : (run (λ t. t) history (enqueue_record write targets 5 void).1).queue ≢ corrupt
unfolding run enqueue_record is_record_id get read_file read_queue assert_record_id has_entry keep
    drop_entry is_for resolve delete_file write_file without includes
history_left = cc

acknowledged-queued_example :
    let s' = initialize 9 (run (λ t. t) history (enqueue_record write targets 5 void).1) in
    (s'.0 ≡ ok tt)
    × (es : List RetryEntry) × (s'.1.queue ≡ entries es)
    × (has_entry (record_id_of write) "east" es ≡ true)
unfolding record_id_of get includes
acknowledged-queued_example =
    acknowledged-queued (λ t. t) write targets 5 9 void write "east" history tt
      (targets-Distinct, (tt, (tt, tt))) (refl, (refl, tt)) acknowledged refl history_left

run-Safe_example :
    IsSpool (run (λ t. t) history spooled_store).records
    × (spooled sample_id "east" spooled_store.records ≡ true
        → spooled sample_id "east" (run (λ t. t) history spooled_store).records ≡ true)
run-Safe_example =
    run-Safe (λ t. t) sample_id "east" history spooled_store (tt, (tt, tt)) (refl, (refl, tt))
      spooled_store-IsSpool

abbrev held : List RetryEntry
held =
    record {
      record_id = sample_id;
      target_node = "east";
      attempts = 2;
      next_attempt_at = 4;
      created_at = 1;
      updated_at = 1;
      last_error_code = none;
    }
    ∷ []

abbrev held_store : Store
held_store = record void { queue = entries held }

list-Sorted_example :
    (sorted : List RetryEntry) × IsSorted sorted
    × Perm sorted (keep (is_due false 9) (keep (is_selected none) held))
    × (list none 10 false 9 held_store ≡ (ok (take 10 sorted), held_store))
list-Sorted_example = list-Sorted none 10 false 9 held_store held refl

delay_schedule_example : (2 < 8 → delay_ms 3 ≡ 2000 * 2 ^ 2) × (8 ≤ 2 → delay_ms 3 ≡ 300000)
delay_schedule_example = delay_schedule 2

mark_pending-Scheduled_example :
    (es' : List RetryEntry) × (e' : RetryEntry) × ((mark_pending sample_id "east" "timeout" 9
        held_store).1.queue
      ≡ entries es')
    × (entry_of sample_id "east" es' ≡ some e')
    × (e'.attempts ≡ 2 + 1)
    × (e'.last_error_code ≡ some "timeout")
    × (9 + 2000 ≤ e'.next_attempt_at)
    × (e'.next_attempt_at ≤ 9 + 300000)
    × ((i t : String)
        → (str_eq sample_id i && str_eq "east" t) ≡ false
        → entry_of i t es' ≡ entry_of i t held)
unfolding find is_for
mark_pending-Scheduled_example =
    mark_pending-Scheduled sample_id "east" "timeout" 9 held_store held _ refl refl

abbrev key_entry : IdempotencyEntry
key_entry = record {
  record_id = sample_id;
  payload_hash = "h";
  namespace_hash = "n";
  created_at = 0;
}

prune_registry-keeps_active_example :
    read_key "k" (prune_registry 9 spooled_store.records (("k", key_entry) ∷ [])) ≡ some key_entry
unfolding read_key is_active read_file
prune_registry-keeps_active_example =
    prune_registry-keeps_active "k" 9 spooled_store.records (("k", key_entry) ∷ []) key_entry
      (refl, tt) refl refl

key_answered :
    (resolve_idempotency_key (λ t. t) "key" "ns" "h" none 1 sample_id spooled_store).0
    ≡ ok sample_id
unfolding resolve_idempotency_key new_entry key_path read_key is_key
key_answered = refl

resolve_idempotency_key-repeats_example :
    resolve_idempotency_key
      (λ t. t)
      "key"
      "ns"
      "other"
      none
      99
      "fresh"
      (resolve_idempotency_key (λ t. t) "key" "ns" "h" none 1 sample_id spooled_store).1
    ≡ (
      if str_eq "h" "other" then ok sample_id else err payload_mismatch,
      (resolve_idempotency_key (λ t. t) "key" "ns" "h" none 1 sample_id spooled_store).1,
    )
unfolding resolve_idempotency_key new_entry key_path read_key is_key is_active is_record_id
    read_file write_key
resolve_idempotency_key-repeats_example =
    resolve_idempotency_key-repeats (λ t. t) "key" "ns" "h" none 1 sample_id spooled_store sample_id
      "other" none 99 "fresh" _ (omega arith) key_answered refl (inl refl) refl refl
