-- ===== src/RetryQueue/Untouched.antt =====
-- The operations that leave the records directory as it is, and what the others do to it whatever
-- the queue's file holds.
use neuromem.Prelude.{
  ℕ, String, ◌≡◌, refl, ◌∙◌, Option, none, some, List, [], arith, if◌then◌else◌, Bool-cases, inl,
  inr,
}
use neuromem.Json.{JsonObject}
use neuromem.Uuid.{is_record_id}
use neuromem.RetryQueue.Store.{
  RetryEntry, IdempotencyEntry, Store, Result, ok, err, M, ◌>>=◌, bind_result, read_queue,
  assert_record_id,
}
use neuromem.RetryQueue.Writes.{
  record_id_of, enqueue_spool, enqueue_entries, enqueue_record, mark_pending, resolve_spool,
  resolve_entries, resolve,
}
use neuromem.RetryQueue.Reconcile.{reconcile_spool, Keys, finish, recover_files, by_key}
use neuromem.RetryQueue.Idempotency.{
  is_key, given, assert_given, find_live, find_key, register, answer, key_path, new_entry, read_key,
  initialize, ensure_queue, prune, resolve_idempotency_key,
}

abbrev pub Keeps : {A : Type 0} → M A → Type 0
Keeps m = (s : Store) → (m s).1.records ≡ s.records

bind_result-records :
    {A B : Type 0} (k : A → M B) (r : Result A) (s : Store)
    → ((a : A) → Keeps (k a))
    → (bind_result r s k).1.records ≡ s.records
bind_result-records k (ok a) s h = h a s
bind_result-records k (err e) s h = refl

Keeps-bind :
    {A B : Type 0} (m : M A) (k : A → M B) → Keeps m → ((a : A) → Keeps (k a)) → Keeps (m >>= k)
Keeps-bind m k h g s = bind_result-records k (m s).0 (m s).1 g ∙ h s

read_queue-Keeps : Keeps read_queue
unfolding read_queue
read_queue-Keeps s = ground arith

enqueue_entries-Keeps :
    (id : String) (ts : List String) (now : ℕ) → Keeps (enqueue_entries id ts now)
unfolding enqueue_entries
enqueue_entries-Keeps id ts now = Keeps-bind read_queue _ read_queue-Keeps (λ es s. refl)

resolve_entries-Keeps : (id t : String) → Keeps (resolve_entries id t)
unfolding resolve_entries
resolve_entries-Keeps id t = Keeps-bind read_queue _ read_queue-Keeps (λ es s. refl)

assert_record_id-Keeps : (id : String) → Keeps (assert_record_id id)
unfolding assert_record_id
assert_record_id-Keeps id s = ground arith

pub mark_pending-Keeps : (id t code : String) (now : ℕ) → Keeps (mark_pending id t code now)
unfolding mark_pending
mark_pending-Keeps id t code now = Keeps-bind read_queue _ read_queue-Keeps (λ es s. ground arith)

ensure_queue-Keeps : Keeps ensure_queue
unfolding ensure_queue
ensure_queue-Keeps s = ground arith

finish-Keeps : (r : Result (List RetryEntry × Keys)) → Keeps (finish r)
finish-Keeps (ok (es, valid)) s = refl
finish-Keeps (err e) s = refl

reconcile_spool-Keeps : (now : ℕ) → Keeps (reconcile_spool now)
unfolding reconcile_spool
reconcile_spool-Keeps now =
    Keeps-bind read_queue _ read_queue-Keeps
      (λ es s. finish-Keeps (recover_files s.records now (by_key [] es) []) s)

prune-Keeps : (now : ℕ) → Keeps (prune now)
unfolding prune
prune-Keeps now s = refl

pub initialize-Keeps : (now : ℕ) → Keeps (initialize now)
unfolding initialize
initialize-Keeps now =
    Keeps-bind ensure_queue _ ensure_queue-Keeps
      (λ _. Keeps-bind (reconcile_spool now) _ (reconcile_spool-Keeps now) (λ _. prune-Keeps now))

assert_given-Keeps : (o : Option String) → Keeps (assert_given o)
unfolding assert_given
assert_given-Keeps none s = refl
assert_given-Keeps (some id) s = assert_record_id-Keeps id s

find_live-Keeps : (now : ℕ) (o : Option IdempotencyEntry) → Keeps (find_live now o)
unfolding find_live
find_live-Keeps now none s = refl
find_live-Keeps now (some e) s =
    Keeps-bind (assert_record_id e.record_id) _ (assert_record_id-Keeps e.record_id) (λ _ s'. refl)
      s

register-Keeps : (path : String) (now : ℕ) (e : IdempotencyEntry) → Keeps (register path now e)
unfolding register
register-Keeps path now e s = ground arith

answer-Keeps :
    (requested : Option String) (hash path : String) (now : ℕ) (new : IdempotencyEntry)
    (o : Option IdempotencyEntry)
    → Keeps (answer requested hash path now new o)
unfolding answer
answer-Keeps requested hash path now new none s = register-Keeps path now new s
answer-Keeps requested hash path now new (some e) s = ground arith

pub resolve_idempotency_key-Keeps :
    (sha256 : String → String) (key ns hash : String) (requested : Option String) (now : ℕ)
    (fresh : String)
    → Keeps (resolve_idempotency_key sha256 key ns hash requested now fresh)
unfolding resolve_idempotency_key
resolve_idempotency_key-Keeps sha256 key ns hash requested now fresh s =
    let path = key_path sha256 ns key in
    elim (Bool-cases (is_key key)) [
      | inl valid ↦ rw valid (
          Keeps-bind (assert_given (given requested)) _ (assert_given-Keeps (given requested))
            (λ _.
              Keeps-bind (find_key path now) _
                (λ s'. find_live-Keeps now (read_key path s'.idempotency) s')
                (answer-Keeps (given requested) hash path now
                  (new_entry sha256 ns hash requested now fresh)))
            s)
      | inr invalid ↦ rw invalid
    ]

-- The spool after enqueueRecord is the spool after its first half.
pub enqueue_record-records :
    (r : JsonObject) (ts : List String) (now : ℕ) (s : Store)
    → (enqueue_record r ts now s).1.records
      ≡ (if is_record_id (record_id_of r)
          then (enqueue_spool (record_id_of r) r ts s).1
          else s).records
unfolding enqueue_record assert_record_id
enqueue_record-records r ts now s = elim (Bool-cases (is_record_id (record_id_of r))) [
  | inl valid ↦
      let id = record_id_of r in
      rw (valid, assert_record_id)
        (bind_result-records _ (enqueue_spool id r ts s).0 (enqueue_spool id r ts s).1 (λ p.
          Keeps-bind (enqueue_entries id ts now) _ (enqueue_entries-Keeps id ts now)
            (λ _ s'. refl)))
  | inr invalid ↦ rw (invalid, assert_record_id)
]

pub resolve-records :
    (id t : String) (s : Store)
    → (resolve id t s).1.records ≡ (if is_record_id id then (resolve_spool id t s).1 else s).records
unfolding resolve assert_record_id
resolve-records id t s = elim (Bool-cases (is_record_id id)) [
  | inl valid ↦
      rw (valid, assert_record_id)
        (bind_result-records {B = Unit {0}} (λ _. resolve_entries id t) (resolve_spool id t s).0
          (resolve_spool id t s).1 (λ _. resolve_entries-Keeps id t))
  | inr invalid ↦ rw (invalid, assert_record_id)
]
