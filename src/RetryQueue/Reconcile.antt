-- ===== src/RetryQueue/Reconcile.antt =====
-- `#reconcileSpool` (apps/mcp/src/retry-queue.ts): after a restart the queue is rebuilt from the
-- records directory. The map `byKey` is the list of its values; `validKeys` is a list of pairs.
use neuromem.Prelude.{
  ℕ, String, Bool, true, false, ◌&&◌, not, some, List, [], ◌∷◌, ◌++◌, keep, str_eq, if◌then◌else◌,
}
use neuromem.Uuid.{is_record_id}
use neuromem.RetryQueue.Store.{
  RetryEntry, Records, invalid_record_id, spool_corrupt, Result, ok, err, M, ◌>>=◌, is_for,
  has_entry, read_queue, write_queue,
}
use neuromem.RetryQueue.Writes.{record_id_of}

-- `byKey.set(key, entry)`
unfoldable pub upsert : RetryEntry → List RetryEntry → List RetryEntry
upsert e [] = e ∷ []
upsert e (x ∷ xs) =
    let rest = upsert e xs in if is_for e.record_id e.target_node x then e ∷ xs else x ∷ rest

-- `new Map(entries.map((entry) => [retryKey(…), entry]))`
unfoldable pub by_key : List RetryEntry → List RetryEntry → List RetryEntry
unfolding upsert
by_key acc [] = acc
by_key acc (e ∷ es) = by_key (upsert e acc) es

unfoldable pub recovered_entry : String → ℕ → String → RetryEntry
recovered_entry id now target = record {
  record_id = id;
  target_node = target;
  attempts = 0;
  next_attempt_at = now;
  created_at = now;
  updated_at = now;
  last_error_code = some "recovered_after_restart";
}

-- The loop over `envelope.pending_targets`.
unfoldable pub recover_targets : String → ℕ → List String → List RetryEntry → List RetryEntry
unfolding recovered_entry
recover_targets id now [] es = es
recover_targets id now (t ∷ ts) es =
    recover_targets id now ts
      (if has_entry id t es then es else es ++ recovered_entry id now t ∷ [])

abbrev pub Keys : Type 0
Keys = List (String × String)

unfoldable pub has_pair : String → String → Keys → Bool
has_pair id target [] = false
has_pair id target ((i, t) ∷ ks) =
    if str_eq i id && str_eq t target then true else has_pair id target ks

unfoldable pub keys_of : String → List String → Keys
keys_of id [] = []
keys_of id (t ∷ ts) = (id, t) ∷ keys_of id ts

-- The loop over the directory's files.
unfoldable pub recover_files :
    Records → ℕ → List RetryEntry → Keys → Result (List RetryEntry × Keys)
unfolding recover_targets keys_of
recover_files [] now es valid = ok (es, valid)
recover_files ((name, e) ∷ files) now es valid =
    let rest =
      recover_files files now (recover_targets name now e.pending_targets es)
        (valid ++ keys_of name e.pending_targets) in
    if not (is_record_id name)
    then err invalid_record_id
    else if not (str_eq (record_id_of e.record_object) name)
    then err spool_corrupt
    else rest

abbrev pub is_valid : Keys → RetryEntry → Bool
is_valid valid e = has_pair e.record_id e.target_node valid

abbrev pub finish : Result (List RetryEntry × Keys) → M (Unit {0})
finish (err e) s = (err e, s)
finish (ok (es, valid)) s = write_queue (keep (is_valid valid) es) s

-- The source leaves out a write that would leave the file as it is.
unfoldable pub reconcile_spool : ℕ → M (Unit {0})
unfolding read_queue by_key recover_files
reconcile_spool now = do
  es ← read_queue
  λ s. finish (recover_files s.records now (by_key [] es) []) s
