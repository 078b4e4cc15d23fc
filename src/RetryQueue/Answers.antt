-- ===== src/RetryQueue/Answers.antt =====
-- resolveIdempotencyKey called again with the same key.
use neuromem.Prelude.{
  ℕ, ◌+◌, ◌<◌, String, true, ◌≡◌, ◌⊎◌, sym, ◌∙◌, refl, Option, none, some, arith, str_eq,
  str_eq_iff, str_eq_self, if◌then◌else◌, Bool-cases, inl, inr,
}
use neuromem.Uuid.{is_record_id}
use neuromem.RetryQueue.Store.{
  IdempotencyEntry, Store, Result, Error, ok, err, invalid_record_id, bad_idempotency_key,
  payload_mismatch, assert_record_id, bind_result,
}
use neuromem.RetryQueue.Idempotency.{
  read_key, is_active, is_live, is_key, given, assert_given, conflicts, register, answer, find_live,
  find_key, key_path, new_entry, resolve_idempotency_key,
}
use neuromem.RetryQueue.Keys.{read_key-write_key}

-- The registry holds an answer for the file's key.
abbrev pub Answered : String → Store → String → String → Type 0
Answered path s id hash =
    (e : IdempotencyEntry) × (read_key path s.idempotency ≡ some e)
    × (e.record_id ≡ id)
    × (e.payload_hash ≡ hash)

err-ne-ok : (e : Error) (id : String) → ◌≡◌ {A = Result String} (err e) (ok id) → ⊥
err-ne-ok e id h = cc

register-Answered :
    (path : String) (now : ℕ) (new : IdempotencyEntry) (s : Store) {id : String}
    → s.writes_since_prune + 1 < 256
    → (register path now new s).0 ≡ ok id
    → Answered path (register path now new s).1 id new.payload_hash
unfolding register
register-Answered path now new s w h = (
  new,
  ground (arith, read_key-write_key path path new s.idempotency, str_eq_self path),
  ground arith,
  refl,
)

answer-Answered :
    (requested : Option String) (hash path : String) (now : ℕ) (new : IdempotencyEntry)
    (o : Option IdempotencyEntry) (s : Store) {id : String}
    → new.payload_hash ≡ hash
    → (o ≡ none) ⊎ (o ≡ read_key path s.idempotency)
    → s.writes_since_prune + 1 < 256
    → (answer requested hash path now new o s).0 ≡ ok id
    → Answered path (answer requested hash path now new o s).1 id hash
unfolding answer
answer-Answered requested hash path now new none s n f w h =
    rw (← n) (register-Answered path now new s w h)
answer-Answered requested hash path now new (some e) s {id} n f w h =
    (e, ground (arith, f), ground arith, ground (arith, str_eq_iff e.payload_hash hash))

-- What the search for a live entry gives: nothing, the entry that is read, or an error.
abbrev Found : String → Store → Result (Option IdempotencyEntry) × Store → Type 0
Found path s r =
    ((o : Option IdempotencyEntry) × (r ≡ (ok o, s))
      × ((o ≡ none) ⊎ (o ≡ read_key path s.idempotency)))
    ⊎ ((e : Error) × (r ≡ (err e, s)))

find_live-Found :
    (path : String) (now : ℕ) (s : Store) (o : Option IdempotencyEntry)
    → read_key path s.idempotency ≡ o
    → Found path s (find_live now o s)
unfolding find_live assert_record_id
find_live-Found path now s none h = inl (none, refl, inl refl)
find_live-Found path now s (some e) h = elim (Bool-cases (is_record_id e.record_id)) [
  | inl valid ↦
      rw (valid, assert_record_id)
        (elim (Bool-cases (is_live now (is_active s.records e.record_id) e)) [
          | inl live ↦ rw live (inl (some e, refl, inr (sym h)))
          | inr dead ↦ rw dead (inl (none, refl, inl refl))
        ])
  | inr invalid ↦ rw (invalid, assert_record_id) (inr (invalid_record_id, refl))
]

abbrev Given : Store → Result (Unit {0}) × Store → Type 0
Given s r = (r ≡ (ok tt, s)) ⊎ ((e : Error) × (r ≡ (err e, s)))

assert_given-Given : (o : Option String) (s : Store) → Given s (assert_given o s)
unfolding assert_given assert_record_id
assert_given-Given none s = inl refl
assert_given-Given (some id) s = elim (Bool-cases (is_record_id id)) [
  | inl valid ↦ rw (valid, assert_record_id) (inl refl)
  | inr invalid ↦ rw (invalid, assert_record_id) (inr (invalid_record_id, refl))
]

abbrev finish_answer :
    Option String
    → String
    → String
    → ℕ
    → IdempotencyEntry
    → Result (Option IdempotencyEntry) × Store
    → Result String × Store
finish_answer requested hash path now new r =
    bind_result r.0 r.1 (answer requested hash path now new)

Found-Answered :
    (requested : Option String) (hash path : String) (now : ℕ) (new : IdempotencyEntry) (s : Store)
    (r : Result (Option IdempotencyEntry) × Store) {id : String}
    → new.payload_hash ≡ hash
    → Found path s r
    → s.writes_since_prune + 1 < 256
    → (finish_answer requested hash path now new r).0 ≡ ok id
    → Answered path (finish_answer requested hash path now new r).1 id hash
Found-Answered requested hash path now new s r n (inl (o, e, f)) w h =
    rw e (answer-Answered requested hash path now new o s n f w (rw e at h))
Found-Answered requested hash path now new s r {id} n (inr (x, e)) w h =
    absurd (err-ne-ok x id (rw e at h))

module _ (sha256 : String → String) (key ns hash : String) (requested : Option String) (now : ℕ)
    (fresh : String) (s : Store) where
  -- The call throws and changes nothing, or goes on to the search for a live entry.
  resolve_cases :
      ((e : Error) × (resolve_idempotency_key sha256 key ns hash requested now fresh s
          ≡ (err e, s)))
      ⊎ (resolve_idempotency_key sha256 key ns hash requested now fresh s
          ≡ finish_answer
              (given requested)
              hash
              (key_path sha256 ns key)
              now
              (new_entry sha256 ns hash requested now fresh)
              (find_key (key_path sha256 ns key) now s))
  unfolding resolve_idempotency_key
  resolve_cases = elim (Bool-cases (is_key key)) [
    | inl valid ↦ elim (assert_given-Given (given requested) s) [
      | inl fine ↦ inr (rw valid (rw (fine, bind_result)))
      | inr (e, bad) ↦ inl (e, rw valid (rw (bad, bind_result)))
    ]
    | inr invalid ↦ inl (bad_idempotency_key, rw invalid)
  ]

  -- A call that returns leaves its answer in the registry, if it does not prune it.
  pub resolve_idempotency_key-Answered :
      {id : String}
      → s.writes_since_prune + 1 < 256
      → (resolve_idempotency_key sha256 key ns hash requested now fresh s).0 ≡ ok id
      → Answered
          (key_path sha256 ns key)
          (resolve_idempotency_key sha256 key ns hash requested now fresh s).1
          id
          hash
  unfolding new_entry
  resolve_idempotency_key-Answered {id} w h = elim resolve_cases [
    | inl (e, threw) ↦ absurd (err-ne-ok e id (rw threw at h))
    | inr on ↦ rw on (
        Found-Answered (given requested) hash (key_path sha256 ns key) now
          (new_entry sha256 ns hash requested now fresh) s _ refl
          (find_live-Found (key_path sha256 ns key) now s _ refl) w (rw on at h))
  ]

-- The outcome of a call for a key that the registry answers, while the record is spooled.
repeat-Answered :
    (sha256 : String → String) (key ns hash other : String) (again : Option String) (later : ℕ)
    (fresh : String) (s : Store) (id : String)
    → (given again ≡ none) ⊎ (given again ≡ some id)
    → is_key key ≡ true
    → is_record_id id ≡ true
    → is_active s.records id ≡ true
    → Answered (key_path sha256 ns key) s id hash
    → resolve_idempotency_key sha256 key ns other again later fresh s
      ≡ (if str_eq hash other then ok id else err payload_mismatch, s)
unfolding resolve_idempotency_key assert_given find_live answer is_live conflicts assert_record_id
repeat-Answered sha256 key ns hash other again later fresh s id (inl g) k v a (e, r, same, h) =
    rw g (ground arith)
repeat-Answered sha256 key ns hash other again later fresh s id (inr g) k v a (e, r, same, h) =
    rw g (ground (arith, str_eq_self id))

answered-is_key :
    (sha256 : String → String) (key ns hash : String) (requested : Option String) (now : ℕ)
    (fresh : String) (s : Store) {id : String}
    → (resolve_idempotency_key sha256 key ns hash requested now fresh s).0 ≡ ok id
    → is_key key ≡ true
unfolding resolve_idempotency_key
answered-is_key sha256 key ns hash requested now fresh s {id} h = elim (Bool-cases (is_key key)) [
  | inl valid ↦ valid
  | inr invalid ↦ absurd (err-ne-ok bad_idempotency_key id (rw invalid at h))
]

-- Once a key was answered with a valid id by a call that does not prune, take any later time and store
-- in which the file of this key is as that call left it and the id's record is spooled. A call with the
-- key that asks for no record id or for this one gives the same id for the same payload, an error for
-- another payload, and changes nothing.
pub resolve_idempotency_key-repeats :
    (sha256 : String → String) (key ns hash : String) (requested : Option String) (now : ℕ)
    (fresh : String) (s : Store) (id other : String) (again : Option String) (later : ℕ)
    (fresh' : String) (s' : Store)
    → s.writes_since_prune + 1 < 256
    → (resolve_idempotency_key sha256 key ns hash requested now fresh s).0 ≡ ok id
    → read_key (key_path sha256 ns key) s'.idempotency
      ≡ read_key
          (key_path sha256 ns key)
          (resolve_idempotency_key sha256 key ns hash requested now fresh s).1.idempotency
    → (given again ≡ none) ⊎ (given again ≡ some id)
    → is_record_id id ≡ true
    → is_active s'.records id ≡ true
    → resolve_idempotency_key sha256 key ns other again later fresh' s'
      ≡ (if str_eq hash other then ok id else err payload_mismatch, s')
resolve_idempotency_key-repeats sha256 key ns hash requested now fresh s id other again later fresh'
      s' w h same g valid active =
    let (e, there, is_id, is_hash) =
      resolve_idempotency_key-Answered sha256 key ns hash requested now fresh s w h in
    repeat-Answered sha256 key ns hash other again later fresh' s' id g
      (answered-is_key sha256 key ns hash requested now fresh s h) valid active
      (e, same ∙ there, is_id, is_hash)
