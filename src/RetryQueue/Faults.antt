-- ===== src/RetryQueue/Faults.antt =====
-- enqueueRecord where one of its two writes may throw (apps/mcp/src/retry-queue.ts).
use neuromem.Prelude.{ℕ, String, ◌||◌, ◌≡◌, refl, ◌∙◌, ◌⊎◌, inl, inr, List, Distinct, Bool-cases}
use neuromem.Json.{JsonObject}
use neuromem.Uuid.{is_record_id}
use neuromem.RetryQueue.Store.{
  RetryEntry, Store, entries, Result, ok, err, invalid_record_id, write_failed, read_file,
  read_queue, assert_record_id, bind_result,
}
use neuromem.RetryQueue.Writes.{
  record_id_of, enqueue_spool, WriteFault, no_fault, record_fault, queue_fault, writes_record,
  enqueue_spool_under, enqueue_entries_under, enqueue_record_under,
}
use neuromem.RetryQueue.Spool.{spooled, IsSpool}
use neuromem.RetryQueue.Consistency.{IsConsistent, added, Spooled, enqueue_spool-Spooled}
use neuromem.RetryQueue.Enqueueing.{Enqueued, Enqueued-of_Spooled}

-- The record is spooled for the targets, and the queue's file is as it was.
abbrev pub HalfEnqueued : Store → String → List String → Result JsonObject × Store → Type 0
HalfEnqueued s id targets r =
    (r.0 ≡ err write_failed)
    × (r.1.queue ≡ s.queue)
    × IsSpool r.1.records
    × ((j t : String) → spooled j t r.1.records ≡ (spooled j t s.records || added id targets j t))

abbrev pub EnqueuedUnder :
    WriteFault → Store → String → List String → Result JsonObject × Store → Type 0
EnqueuedUnder fault s id targets r =
    Enqueued s id targets r ⊎ ((fault ≡ queue_fault) × HalfEnqueued s id targets r)

spool_under-Spooled :
    (fault : WriteFault) (id : String) (requested : JsonObject) (targets : List String) (s : Store)
    → Spooled s id targets (enqueue_spool id requested targets s)
    → Spooled s id targets (enqueue_spool_under fault id requested targets s)
unfolding enqueue_spool_under
spool_under-Spooled no_fault id requested targets s h = h
spool_under-Spooled queue_fault id requested targets s h = h
spool_under-Spooled record_fault id requested targets s h =
    elim (Bool-cases (writes_record requested targets (read_file id s.records))) [
      | inl e ↦ rw e (inl (write_failed, refl))
      | inr e ↦ rw e h
    ]

abbrev finish_under :
    WriteFault → String → List String → ℕ → Result JsonObject × Store → Result JsonObject × Store
finish_under fault id targets now r = bind_result r.0 r.1 (λ p s.
    bind_result (enqueue_entries_under fault id targets now s).0
      (enqueue_entries_under fault id targets now s).1 (λ _ s'. (ok p, s')))

queue_write_fails :
    (id : String) (targets : List String) (now : ℕ) (s : Store) (es : List RetryEntry)
    → s.queue ≡ entries es
    → ((enqueue_entries_under queue_fault id targets now s).0 ≡ err write_failed)
      × ((enqueue_entries_under queue_fault id targets now s).1 ≡ s)
unfolding enqueue_entries_under read_queue
queue_write_fails id targets now s es q = (rw (q, read_queue) refl, simp (q, read_queue) refl)

under-of_Spooled :
    (fault : WriteFault) (id : String) (targets : List String) (now : ℕ) (s : Store)
    (r : Result JsonObject × Store)
    → Distinct targets
    → IsConsistent s
    → Spooled s id targets r
    → EnqueuedUnder fault s id targets (finish_under fault id targets now r)
unfolding enqueue_entries_under
under-of_Spooled no_fault id targets now s r d c h =
    inl (Enqueued-of_Spooled id targets now s r d c h)
under-of_Spooled record_fault id targets now s r d c h =
    inl (Enqueued-of_Spooled id targets now s r d c h)
under-of_Spooled queue_fault id targets now s r d c (inl (e, x)) = rw x (inl (inl (e, refl)))
under-of_Spooled queue_fault id targets now s r d c (inr (p, q, x)) =
    let (code, same) = queue_write_fails id targets now r.1 c.held (x.queue ∙ c.file) in
    rw (q, bind_result) (rw (code, same) (inr (refl, (refl, x.queue, x.spool, x.pending))))

-- On consistent files and with targets given once, whichever write throws: after a call that returns, a
-- record is pending for exactly the given targets besides those that were, and the files stay
-- consistent. A call that throws changes nothing, unless it is the write of the queue's file that
-- throws: then the record is spooled, pending for exactly these, and the queue's file is as it was.
pub enqueue_record_under-EnqueuedUnder :
    (fault : WriteFault) (requested : JsonObject) (targets : List String) (now : ℕ) (s : Store)
    → Distinct targets
    → IsConsistent s
    → EnqueuedUnder fault s
        (record_id_of requested)
        targets
        (enqueue_record_under fault requested targets now s)
unfolding enqueue_record_under assert_record_id
enqueue_record_under-EnqueuedUnder fault requested targets now s d c =
    let id = record_id_of requested in
    elim (Bool-cases (is_record_id id)) [
      | inl valid ↦
          rw (valid, assert_record_id)
            (under-of_Spooled fault id targets now s _ d c (
              spool_under-Spooled fault id requested targets s
                (enqueue_spool-Spooled id requested targets s valid refl d c.spool)))
      | inr invalid ↦ rw (invalid, assert_record_id) (inl (inl (invalid_record_id, refl)))
    ]
