-- ===== src/RetryQueue/Enqueueing.antt =====
-- enqueueRecord keeps the queue's file and the records directory consistent, and what it adds.
use neuromem.Prelude.{
  ℕ, String, ◌||◌, ◌≡◌, refl, ◌∙◌, ◌⊎◌, inl, inr, List, arith, Distinct, str_eq_iff, Bool-cases,
}
use neuromem.Json.{JsonObject}
use neuromem.Uuid.{is_record_id}
use neuromem.RetryQueue.Store.{
  RetryEntry, Store, entries, Result, ok, err, Error, invalid_record_id, read_queue,
  assert_record_id, bind_result,
}
use neuromem.RetryQueue.Writes.{record_id_of, enqueue_entries, enqueue_record, push_missing}
use neuromem.RetryQueue.Spool.{spooled}
use neuromem.RetryQueue.Entries.{has_entry-push_missing, push_missing-KeysDistinct}
use neuromem.RetryQueue.Consistency.{IsConsistent, Extends, added, Spooled, enqueue_spool-Spooled}

-- The second half of enqueueRecord puts the missing entries at the end of the queue.
enqueue_entries_lem :
    (id : String) (targets : List String) (now : ℕ) (s : Store) (es : List RetryEntry)
    → s.queue ≡ entries es
    → enqueue_entries id targets now s
      ≡ (ok tt, record s { queue = entries (push_missing id now es targets es) })
unfolding enqueue_entries read_queue
enqueue_entries_lem id targets now s es q = rw (q, read_queue)

enqueue_after_spool :
    (id : String) (targets : List String) (now : ℕ) (s s' : Store)
    → Distinct targets
    → (c : IsConsistent s) → Extends s s' (added id targets)
    → IsConsistent (record s' { queue = entries (push_missing id now c.held targets c.held) })
enqueue_after_spool id targets now s s' d c x = record {
  held = push_missing id now c.held targets c.held;
  file = refl;
  spool = x.spool;
  distinct = push_missing-KeysDistinct id now targets c.held d c.distinct;
  agrees = λ j t. ground (
    arith,
    has_entry-push_missing id now c.held j t targets c.held,
    x.pending j t,
    c.agrees j t,
    str_eq_iff id j,
  );
}

-- Either the call throws and nothing changed, or the targets are pending too, and nothing else.
abbrev pub Enqueued : Store → String → List String → Result JsonObject × Store → Type 0
Enqueued s id targets r =
    ((e : Error) × (r ≡ (err e, s)))
    ⊎ ((p : JsonObject) × (r.0 ≡ ok p)
        × IsConsistent r.1
        × ((j t : String)
            → spooled j t r.1.records ≡ (spooled j t s.records || added id targets j t)))

abbrev pub finish_enqueue :
    String → List String → ℕ → Result JsonObject × Store → Result JsonObject × Store
finish_enqueue id targets now r = bind_result r.0 r.1 (λ p s.
    bind_result (enqueue_entries id targets now s).0 (enqueue_entries id targets now s).1
      (λ _ s'. (ok p, s')))

pub Enqueued-of_Spooled :
    (id : String) (targets : List String) (now : ℕ) (s : Store) (r : Result JsonObject × Store)
    → Distinct targets
    → IsConsistent s
    → Spooled s id targets r
    → Enqueued s id targets (finish_enqueue id targets now r)
Enqueued-of_Spooled id targets now s r d c (inl (e, x)) = rw x (inl (e, refl))
Enqueued-of_Spooled id targets now s r d c (inr (p, q, x)) =
    rw (q, bind_result)
      (rw (enqueue_entries_lem id targets now r.1 c.held (x.queue ∙ c.file))
        (inr (p, refl, enqueue_after_spool id targets now s r.1 d c x, x.pending)))

-- On consistent files and with targets given once, where no write throws: after a call that returns, a
-- record is pending for exactly the given targets besides those that were; a call that throws changes
-- nothing. The files stay consistent.
pub enqueue_record-Enqueued :
    (requested : JsonObject) (targets : List String) (now : ℕ) (s : Store)
    → Distinct targets
    → IsConsistent s
    → Enqueued s (record_id_of requested) targets (enqueue_record requested targets now s)
unfolding enqueue_record assert_record_id
enqueue_record-Enqueued requested targets now s d c =
    let id = record_id_of requested in
    elim (Bool-cases (is_record_id id)) [
      | inl valid ↦
          rw (valid, assert_record_id)
            (Enqueued-of_Spooled id targets now s _ d c
              (enqueue_spool-Spooled id requested targets s valid refl d c.spool))
      | inr invalid ↦ rw (invalid, assert_record_id) (inl (invalid_record_id, refl))
    ]
