-- ===== src/RetryQueue/Idempotency.antt =====
-- resolveIdempotencyKey, `#pruneIdempotencyRegistry` and initialize (apps/mcp/src/retry-queue.ts).
-- SHA-256 of a text is a parameter; `fresh` is what uuid7() returns. A file of the registry is
-- named by its digest. Dates that do not parse have no place here.
use Prim.Native.String
use neuromem.Prelude.{
  ℕ, ◌+◌, ◌-◌, ◌*◌, String, Bool, false, not, ◌&&◌, ◌||◌, Option, none, some, List, [], ◌∷◌, length,
  take, keep, str_eq, unique, leb, if◌then◌else◌, get_or_else, is_some,
}
use neuromem.RetryQueue.Store.{
  IdempotencyEntry, QueueFile, Records, Registry, bad_idempotency_key, payload_mismatch,
  record_id_conflict, ok, M, ◌>>=◌, ◌>>◌, return, throw, read_file, write_queue, assert_record_id,
}
use neuromem.RetryQueue.Reconcile.{reconcile_spool}

abbrev pub idempotency_ttl_ms : ℕ
idempotency_ttl_ms = 30 * 24 * 60 * 60000

abbrev pub idempotency_max_entries_per_namespace : ℕ
idempotency_max_entries_per_namespace = 10000

unfoldable pub read_key : String → Registry → Option IdempotencyEntry
read_key path [] = none
read_key path ((p, e) ∷ rest) = if str_eq p path then some e else read_key path rest

unfoldable pub delete_key : String → Registry → Registry
delete_key path [] = []
delete_key path ((p, e) ∷ more) =
    let rest = delete_key path more in if str_eq p path then rest else (p, e) ∷ rest

unfoldable pub write_key : String → IdempotencyEntry → Registry → Registry
write_key path e reg = (path, e) ∷ delete_key path reg

-- Whether the record's file is there: `activeRecordIds.has(recordId)`, `access(recordPath)`.
unfoldable pub is_active : Records → String → Bool
is_active records id = is_some (read_file id records)

unfoldable pub is_live : ℕ → Bool → IdempotencyEntry → Bool
is_live now active e = active || leb (now - e.created_at) idempotency_ttl_ms

abbrev pub in_namespace : String → String × IdempotencyEntry → Bool
in_namespace ns f = str_eq (f.1).namespace_hash ns

unfoldable pub insert_by_age : String × IdempotencyEntry → Registry → Registry
insert_by_age f [] = f ∷ []
insert_by_age f (g ∷ gs) =
    if leb (f.1).created_at (g.1).created_at then f ∷ g ∷ gs else g ∷ insert_by_age f gs

unfoldable pub sort_by_age : Registry → Registry
unfolding insert_by_age
sort_by_age [] = []
sort_by_age (f ∷ fs) = insert_by_age f (sort_by_age fs)

unfoldable pub is_removable : Records → String × IdempotencyEntry → Bool
is_removable records f = not (is_active records (f.1).record_id)

-- The files of one namespace that are removed: the oldest that no spooled record needs.
unfoldable pub excess_files : Records → Registry → Registry
unfolding sort_by_age
excess_files records grouped =
    take (length grouped - idempotency_max_entries_per_namespace)
      (sort_by_age (keep (is_removable records) grouped))

unfoldable pub remove_files : Registry → Registry → Registry
remove_files [] reg = reg
remove_files ((path, e) ∷ fs) reg = remove_files fs (delete_key path reg)

unfoldable pub namespaces : Registry → List String
namespaces [] = []
namespaces ((p, e) ∷ fs) = e.namespace_hash ∷ namespaces fs

-- The loop over `byNamespace`; each group was made before any file of the loop is removed.
unfoldable pub trim_namespaces : Records → Registry → List String → Registry → Registry
trim_namespaces records all [] reg = reg
trim_namespaces records all (ns ∷ nss) reg =
    trim_namespaces records all nss
      (remove_files (excess_files records (keep (in_namespace ns) all)) reg)

abbrev pub survives : ℕ → Records → String × IdempotencyEntry → Bool
survives now records f = is_live now (is_active records (f.1).record_id) (f.1)

unfoldable pub prune_registry : ℕ → Records → Registry → Registry
unfolding trim_namespaces namespaces
prune_registry now records reg =
    let kept = keep (survives now records) reg in
    trim_namespaces records kept (unique (namespaces kept)) kept

unfoldable pub prune : ℕ → M (Unit {0})
prune now s = (ok tt, record s { idempotency = prune_registry now s.records s.idempotency })

unfoldable pub ensure_queue : M (Unit {0})
ensure_queue s = elim s.queue [ QueueFile.absent ↦ write_queue [] s | _ ↦ (ok tt, s) ]

unfoldable pub initialize : ℕ → M (Unit {0})
unfolding ensure_queue
initialize now = do ensure_queue; reconcile_spool now; prune now

-- `!key || Buffer.byteLength(key, "utf8") > 512`, negated.
unfoldable pub is_key : String → Bool
is_key key = not (str_eq key "") && leb (String.len key) 512

-- `requestedRecordId` where it is truthy.
abbrev pub given : Option String → Option String
given none = none
given (some id) = if str_eq id "" then none else some id

unfoldable pub assert_given : Option String → M (Unit {0})
assert_given none = return tt
assert_given (some id) = assert_record_id id

unfoldable pub conflicts : Option String → IdempotencyEntry → Bool
conflicts none e = false
conflicts (some id) e = not (str_eq e.record_id id)

-- The end of resolveIdempotencyKey for a new key; every 256th write prunes the registry.
unfoldable pub register : String → ℕ → IdempotencyEntry → M String
register path now e s =
    let reg = write_key path e s.idempotency in
    (
      ok e.record_id,
      if leb 256 (s.writes_since_prune + 1)
          then record s { idempotency = prune_registry now s.records reg; writes_since_prune = 0 }
          else record s { idempotency = reg; writes_since_prune = s.writes_since_prune + 1 },
    )

-- The answer for a key that is live, and for one that is not.
unfoldable pub answer :
    Option String → String → String → ℕ → IdempotencyEntry → Option IdempotencyEntry → M String
unfolding conflicts register
answer requested hash path now new none = register path now new
answer requested hash path now new (some e) =
    if not (str_eq e.payload_hash hash)
    then throw payload_mismatch
    else if conflicts requested e
    then throw record_id_conflict
    else return e.record_id

-- The entry read for a key, if its record is spooled or it is young enough.
unfoldable pub find_live : ℕ → Option IdempotencyEntry → M (Option IdempotencyEntry)
find_live now none = return none
find_live now (some e) = do
  assert_record_id e.record_id
  λ s. (ok (if is_live now (is_active s.records e.record_id) e then some e else none), s)

abbrev pub find_key : String → ℕ → M (Option IdempotencyEntry)
find_key path now s = find_live now (read_key path s.idempotency) s

module _ (sha256 : String → String) where
  unfoldable pub key_path : String → String → String
  key_path namespace key = sha256 (String.◌++◌ namespace (String.◌++◌ "\0" key))

  unfoldable pub new_entry : String → String → Option String → ℕ → String → IdempotencyEntry
  new_entry namespace hash requested now fresh = record {
    record_id = get_or_else requested fresh;
    payload_hash = hash;
    namespace_hash = sha256 namespace;
    created_at = now;
  }

  unfoldable pub resolve_idempotency_key :
      String → String → String → Option String → ℕ → String → M String
  unfolding assert_given answer find_live
  resolve_idempotency_key key namespace hash requested now fresh =
      let path = key_path namespace key in
      if not (is_key key) then throw bad_idempotency_key else do
        assert_given (given requested)
        live ← find_key path now
        answer (given requested) hash path now (new_entry namespace hash requested now fresh) live
