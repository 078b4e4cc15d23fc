-- ===== src/RetryQueue/Durability.antt =====
-- What survives any history of calls and crashes.
use neuromem.Prelude.{
  ℕ, String, true, false, ◌&&◌, ◌≡◌, ◌≢◌, refl, sym, ◌∙◌, ap, inl, inr, List, [], ◌∷◌, arith,
  if◌then◌else◌, includes, str_eq, str_eq_self, Bool-cases, subst, Distinct,
}
use neuromem.Json.{JsonObject}
use neuromem.Uuid.{is_record_id}
use neuromem.RetryQueue.Store.{
  Store, Records, RetryEntry, Error, corrupt, ok, err, bind_result, assert_record_id, has_entry,
  entries,
}
use neuromem.RetryQueue.Writes.{record_id_of, enqueue_spool, enqueue_record, resolve_spool}
use neuromem.RetryQueue.Idempotency.{initialize}
use neuromem.RetryQueue.Spool.{spooled, IsSpool}
use neuromem.RetryQueue.Consistency.{Spooled, enqueue_spool-Spooled}
use neuromem.RetryQueue.Resolution.{resolve_spool-Resolved}
use neuromem.RetryQueue.Recovery.{initialize-IsConsistent}
use neuromem.RetryQueue.Untouched.{
  enqueue_record-records, resolve-records, mark_pending-Keeps, initialize-Keeps,
  resolve_idempotency_key-Keeps,
}
use neuromem.RetryQueue.Actions.{
  Action, enqueue, enqueue_crash, finish, finish_crash, mark, start, choose_id, step, run, Proper,
  completes, AllProper, Uncompleted,
}

-- A change of the records directory that keeps it well formed and pending what was.
abbrev Safe : String → String → Records → Records → Type 0
Safe id t files files' = IsSpool files' × (spooled id t files ≡ true → spooled id t files' ≡ true)

Spooled-Safe :
    (id t : String) (s : Store) (i : String) (r : JsonObject) (ts : List String)
    → is_record_id i ≡ true
    → record_id_of r ≡ i
    → IsSpool s.records
    → Spooled s i ts (enqueue_spool i r ts s)
    → Safe id t s.records (enqueue_spool i r ts s).1.records
Spooled-Safe id t s i r ts v n h (inl (e, x)) = rw x (h, λ p. p)
Spooled-Safe id t s i r ts v n h (inr (p, q, x)) = (x.spool, λ old. ground (arith, x.pending id t))

enqueue-Safe :
    (id t : String) (r : JsonObject) (ts : List String) (s : Store)
    → Proper (enqueue r ts)
    → IsSpool s.records
    → Safe id t s.records
        (if is_record_id (record_id_of r)
          then (enqueue_spool (record_id_of r) r ts s).1
          else s).records
enqueue-Safe id t r ts s d h = elim (Bool-cases (is_record_id (record_id_of r))) [
  | inl valid ↦ rw valid (
      Spooled-Safe id t s (record_id_of r) r ts valid refl h
        (enqueue_spool-Spooled (record_id_of r) r ts s valid refl d h))
  | inr invalid ↦ rw invalid (h, λ p. p)
]

resolve-Safe :
    (id t i u : String) (s : Store)
    → (str_eq i id && str_eq u t) ≡ false
    → IsSpool s.records
    → Safe id t s.records (if is_record_id i then (resolve_spool i u s).1 else s).records
resolve-Safe id t i u s other h = elim (Bool-cases (is_record_id i)) [
  | inl valid ↦
      let (spool, pending) = resolve_spool-Resolved i u s h in
      rw valid (spool, λ old. ground (arith, pending id t))
  | inr invalid ↦ rw invalid (h, λ p. p)
]

-- One call or crash that does not complete the pair keeps it pending in the spool.
step-Safe :
    (sha256 : String → String) (now : ℕ) (id t : String) (a : Action) (s : Store)
    → Proper a
    → completes id t a ≡ false
    → IsSpool s.records
    → Safe id t s.records (step sha256 now a s).records
unfolding step
step-Safe sha256 now id t (enqueue r ts) s d c h =
    subst (Safe id t s.records) (sym (enqueue_record-records r ts now s))
      (enqueue-Safe id t r ts s d h)
step-Safe sha256 now id t (enqueue_crash r ts) s d c h = enqueue-Safe id t r ts s d h
step-Safe sha256 now id t (finish i u) s d c h =
    subst (Safe id t s.records) (sym (resolve-records i u s)) (resolve-Safe id t i u s c h)
step-Safe sha256 now id t (finish_crash i u) s d c h = resolve-Safe id t i u s c h
step-Safe sha256 now id t (mark i u code) s d c h =
    subst (Safe id t s.records) (sym (mark_pending-Keeps i u code now s)) (h, λ p. p)
step-Safe sha256 now id t start s d c h =
    subst (Safe id t s.records) (sym (initialize-Keeps now s)) (h, λ p. p)
step-Safe sha256 now id t (choose_id key ns hash requested fresh) s d c h =
    subst (Safe id t s.records)
      (sym (resolve_idempotency_key-Keeps sha256 key ns hash requested now fresh s)) (h, λ p. p)

-- On a well-formed records directory a pair that is pending stays pending in the spool, through any
-- calls, failures, crashes and restarts, until a call of `resolve` for that pair, as long as each
-- call passes a target once. The directory stays well formed.
pub run-Safe :
    (sha256 : String → String) (id t : String) (acts : List (ℕ × Action)) (s : Store)
    → AllProper acts
    → Uncompleted id t acts
    → IsSpool s.records
    → IsSpool (run sha256 acts s).records
      × (spooled id t s.records ≡ true → spooled id t (run sha256 acts s).records ≡ true)
unfolding run
run-Safe sha256 id t [] s p u h = (h, λ q. q)
run-Safe sha256 id t ((now, a) ∷ acts) s (p, ps) (u, us) h =
    let (spool, stays) = step-Safe sha256 now id t a s p u h in
    let (spool', stays') = run-Safe sha256 id t acts (step sha256 now a s) ps us spool in
    (spool', λ old. stays' (stays old))

acknowledged_valid :
    (r : JsonObject) (ts : List String) (now : ℕ) (s : Store) (p : JsonObject)
    → (enqueue_record r ts now s).0 ≡ ok p
    → is_record_id (record_id_of r) ≡ true
unfolding enqueue_record assert_record_id
acknowledged_valid r ts now s p acked = elim (Bool-cases (is_record_id (record_id_of r))) [
  | inl valid ↦ valid
  | inr invalid ↦ cc (rw (invalid, assert_record_id) at acked)
]

-- If the first half threw, so did the call.
acknowledged_first_half :
    (r : JsonObject) (ts : List String) (now : ℕ) (s : Store) (p : JsonObject) (e : Error)
    → is_record_id (record_id_of r) ≡ true
    → (enqueue_record r ts now s).0 ≡ ok p
    → enqueue_spool (record_id_of r) r ts s ≡ (err e, s)
    → ⊥
unfolding enqueue_record assert_record_id
acknowledged_first_half r ts now s p e valid acked x =
    cc (rw (x, bind_result) at (rw (valid, assert_record_id) at acked))

acknowledged_spooled :
    (r : JsonObject) (ts : List String) (now : ℕ) (s : Store) (p : JsonObject) (t : String)
    → IsSpool s.records
    → Distinct ts
    → (enqueue_record r ts now s).0 ≡ ok p
    → includes ts t ≡ true
    → (spooled (record_id_of r) t (enqueue_record r ts now s).1.records ≡ true)
      × IsSpool (enqueue_record r ts now s).1.records
acknowledged_spooled r ts now s p t h d acked m =
    let id = record_id_of r in
    let valid = acknowledged_valid r ts now s p acked in
    rw (enqueue_record-records r ts now s, valid)
      (elim (enqueue_spool-Spooled id r ts s valid refl d h) [
        | inl (e, x) ↦ absurd (acknowledged_first_half r ts now s p e valid acked x)
        | inr (j, q, x) ↦ (ground (arith, x.pending id t, m, str_eq_self id), x.spool)
      ])

-- A write that enqueueRecord acknowledged on a well-formed records directory is not lost: after any
-- history that does not resolve the pair, crashes included, a restart that finds no corrupt queue
-- file succeeds, and the queue has an entry for the pair. Each call passes a target once.
pub acknowledged-queued :
    (sha256 : String → String) (r : JsonObject) (ts : List String) (now later : ℕ) (s : Store)
    (p : JsonObject) (t : String) (acts : List (ℕ × Action))
    → IsSpool s.records
    → AllProper ((now, enqueue r ts) ∷ acts)
    → Uncompleted (record_id_of r) t acts
    → (enqueue_record r ts now s).0 ≡ ok p
    → includes ts t ≡ true
    → (run sha256 acts (enqueue_record r ts now s).1).queue ≢ corrupt
    → let s' = initialize later (run sha256 acts (enqueue_record r ts now s).1) in
      (s'.0 ≡ ok tt)
      × (es : List RetryEntry) × (s'.1.queue ≡ entries es)
      × (has_entry (record_id_of r) t es ≡ true)
acknowledged-queued sha256 r ts now later s p t acts h ps us acked m q =
    let (there, spool) = acknowledged_spooled r ts now s p t h ps.0 acked m in
    let (spool', stays) = run-Safe sha256 (record_id_of r) t acts _ ps.1 us spool in
    let (fine, c, same) = initialize-IsConsistent later _ spool' q in
    (
      fine,
      c.held,
      c.file,
      c.agrees (record_id_of r) t ∙ ap (spooled (record_id_of r) t) same ∙ stays there,
    )
