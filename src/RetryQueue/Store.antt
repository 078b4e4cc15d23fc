-- ===== src/RetryQueue/Store.antt =====
-- The durable retry queue (apps/mcp/src/retry-queue.ts): its state directory and the operations of
-- DurableRetryQueue on it. A time is a number of milliseconds; ISO texts of one format order as the
-- times do. Operations run one at a time (`#exclusive`), so each is a function on the store that
-- returns its outcome and the store that it leaves, also where it throws.
use neuromem.Prelude.{
  ℕ, String, Bool, ◌&&◌, Option, none, some, List, [], ◌∷◌, any, str_eq, if◌then◌else◌,
}
use neuromem.Json.{JsonObject}
use neuromem.Uuid.{is_record_id}

pub record RetryEntry : Type 0 where
  pub record_id : String
  pub target_node : String
  pub attempts : ℕ
  pub next_attempt_at : ℕ
  pub created_at : ℕ
  pub updated_at : ℕ
  pub last_error_code : Option String

pub record SpoolEnvelope : Type 0 where
  pub record_object : JsonObject
  pub pending_targets : List String

pub record IdempotencyEntry : Type 0 where
  pub record_id : String
  pub payload_hash : String
  pub namespace_hash : String
  pub created_at : ℕ

-- retry-queue.json: absent, not an array, or its entries.
pub data QueueFile : Type 0 where
  absent corrupt : QueueFile
  entries : List RetryEntry → QueueFile

-- The records directory: the envelope in `${recordId}.json`. Its other files are skipped by the
-- source and have no place here.
abbrev pub Records : Type 0
Records = List (String × SpoolEnvelope)

-- The idempotency directory: the entry in each file, by the file's digest.
abbrev pub Registry : Type 0
Registry = List (String × IdempotencyEntry)

pub record Store : Type 0 where
  pub queue : QueueFile
  pub records : Records
  pub idempotency : Registry
  pub writes_since_prune : ℕ

pub data Error : Type 0 where
  enoent queue_corrupt spool_corrupt invalid_record_id spool_collision retry_entry_disappeared :
      Error
  bad_idempotency_key payload_mismatch record_id_conflict write_failed : Error

pub data Result {ℓ} (A : Type ℓ) : Type ℓ where
  ok : A → Result A
  err : Error → Result A

abbrev pub M : Type 0 → Type 0
M A = Store → Result A × Store

abbrev pub bind_result : {A B : Type 0} → Result A → Store → (A → M B) → Result B × Store
bind_result (ok a) s f = f a s
bind_result (err e) s f = (err e, s)

infixl 5 ◌>>=◌ ◌>>◌
abbrev pub ◌>>=◌ : {A B : Type 0} → M A → (A → M B) → M B
◌>>=◌ m f s = bind_result (m s).0 (m s).1 f

abbrev pub ◌>>◌ : {B : Type 0} → M (Unit {0}) → M B → M B
m >> k = m >>= λ _. k

abbrev pub return : {A : Type 0} → A → M A
return a s = (ok a, s)

abbrev pub throw : {A : Type 0} → Error → M A
throw e s = (err e, s)

-- The key of an entry is the pair that `retryKey` joins by a NUL, which no record id holds.
unfoldable pub is_for : String → String → RetryEntry → Bool
is_for id target e = str_eq e.record_id id && str_eq e.target_node target

unfoldable pub has_entry : String → String → List RetryEntry → Bool
unfolding is_for any
has_entry id target es = any (is_for id target) es

-- The file operations on the records directory.
unfoldable pub read_file : String → Records → Option SpoolEnvelope
read_file id [] = none
read_file id ((name, e) ∷ files) = if str_eq name id then some e else read_file id files

unfoldable pub delete_file : String → Records → Records
delete_file id [] = []
delete_file id ((name, e) ∷ files) =
    let rest = delete_file id files in if str_eq name id then rest else (name, e) ∷ rest

unfoldable pub write_file : String → SpoolEnvelope → Records → Records
write_file id e files = (id, e) ∷ delete_file id files

-- `#readQueue`
unfoldable pub read_queue : M (List RetryEntry)
read_queue s = elim s.queue [
  | absent ↦ (err enoent, s)
  | corrupt ↦ (err queue_corrupt, s)
  | entries es ↦ (ok es, s)
]

abbrev pub write_queue : List RetryEntry → M (Unit {0})
write_queue es s = (ok tt, record s { queue = entries es })

-- `#assertRecordId`
unfoldable pub assert_record_id : String → M (Unit {0})
assert_record_id id = if is_record_id id then return tt else throw invalid_record_id
