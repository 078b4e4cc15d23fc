-- ===== src/RetryQueue/Refinement.antt =====
-- The files of DurableRetryQueue implement the set of pending pairs (apps/mcp/src/retry-queue.ts).
use neuromem.Prelude.{
  ℕ, String, Bool, true, false, ◌≡◌, ◌≢◌, refl, sym, ap, ◌∙◌, subst, inl, inr, List, [], ◌∷◌,
  Bool-cases, arith,
}
use neuromem.Json.{JsonObject}
use neuromem.Uuid.{is_record_id}
use neuromem.RetryQueue.Store.{
  Store, QueueFile, corrupt, entries, Result, ok, err, invalid_record_id, assert_record_id,
}
use neuromem.RetryQueue.Writes.{record_id_of, enqueue_spool, resolve_spool, resolve}
use neuromem.RetryQueue.Idempotency.{initialize}
use neuromem.RetryQueue.Spool.{spooled, IsSpool}
use neuromem.RetryQueue.Consistency.{IsConsistent, Spooled, enqueue_spool-Spooled}
use neuromem.RetryQueue.Enqueueing.{Enqueued, enqueue_record-Enqueued}
use neuromem.RetryQueue.Resolution.{
  Resolved, resolve-Resolved, resolve_spool-Resolved, Marked, mark_pending-Marked,
}
use neuromem.RetryQueue.Recovery.{initialize-IsConsistent}
use neuromem.RetryQueue.Pending.{
  Request, add, add_cut_off, acknowledge, acknowledge_cut_off, delay, reboot, with_targets,
  without_target, pending_after, Possible, pending_after_all, AllPossible, succeeded,
  cut_off_enqueue, cut_off_resolve, perform, perform_all, Proper, AllProper, pairs,
}

-- The call's answer is possible, and it takes the set that the files stand for to the set that the
-- abstract call gives; the files stay consistent.
Implements : Request → Store → Bool × Store → Type 0
unfolding pairs pending_after Possible
Implements r s done =
    IsConsistent done.1
    × Possible r done.0 (pairs s)
    × (pairs done.1 ≡ pending_after r done.0 (pairs s))

not_corrupt : (f : QueueFile) (es : _) → f ≡ entries es → f ≢ corrupt
not_corrupt f es e = λ c. ground arith

rebooted :
    (now : ℕ) (s : Store)
    → IsSpool s.records
    → s.queue ≢ corrupt
    → ((initialize now s).0 ≡ ok tt)
      × IsConsistent (initialize now s).1
      × (pairs (initialize now s).1 ≡ pairs s)
unfolding pairs
rebooted now s h q =
    let (done, c, same) = initialize-IsConsistent now s h q in
    (done, c, λ i j t. spooled j t (same i))

add-Implements :
    (rec : JsonObject) (targets : List String) (s : Store) (r : Result JsonObject × Store)
    → IsConsistent s
    → Enqueued s (record_id_of rec) targets r
    → Implements (add rec targets) s (succeeded r.0, r.1)
unfolding Implements pairs pending_after Possible with_targets
add-Implements rec targets s r c (inl (e, x)) = rw x (c, tt, refl)
add-Implements rec targets s r c (inr (p, q, k, h)) = rw q (k, tt, λ i j t. h j t i)

acknowledge-Implements :
    (id target : String) (s : Store) (r : Result (Unit {0}) × Store)
    → IsConsistent s
    → ((r.0 ≡ ok tt) → is_record_id id ≡ true)
    → Resolved s id target r
    → Implements (acknowledge id target) s (succeeded r.0, r.1)
unfolding Implements pairs pending_after Possible without_target
acknowledge-Implements id target s r c v (inl (e, x)) = rw x (c, sym e, refl)
acknowledge-Implements id target s r c v (inr (q, k, h)) = rw q (k, sym (v q), λ i j t. h j t i)

delay-Implements :
    (id target code : String) (s : Store) (r : Result (Unit {0}) × Store)
    → IsConsistent s
    → Marked s id target r
    → Implements (delay id target code) s (succeeded r.0, r.1)
unfolding Implements pairs pending_after Possible
delay-Implements id target code s r c (inl (e, x)) = rw x (c, sym e, refl)
delay-Implements id target code s r c (inr (e, q, k, same)) =
    rw q (k, sym e, λ i j t. spooled j t (same i))

add_cut_off-Implements :
    (rec : JsonObject) (targets : List String) (now : ℕ) (s : Store) (r : Result JsonObject × Store)
    → IsConsistent s
    → Spooled s (record_id_of rec) targets r
    → Implements (add_cut_off rec targets) s (succeeded r.0, (initialize now r.1).1)
unfolding Implements pairs pending_after Possible with_targets
add_cut_off-Implements rec targets now s r c (inl (e, x)) =
    let (done, k, same) = rebooted now s c.spool (not_corrupt s.queue c.held c.file) in
    rw x (k, tt, same)
add_cut_off-Implements rec targets now s r c (inr (p, q, x)) =
    let (done, k, same) =
      rebooted now r.1 x.spool (not_corrupt r.1.queue c.held (x.queue ∙ c.file)) in
    rw q (k, tt, same ∙ (λ i j t. x.pending j t i))

refused_resolve :
    (id target : String) (s : Store)
    → is_record_id id ≡ false
    → (resolve id target s).0 ≡ ok tt
    → is_record_id id ≡ true
unfolding resolve assert_record_id
refused_resolve id target s invalid e = ground arith

valid_of_resolve :
    (id target : String) (s : Store) → (resolve id target s).0 ≡ ok tt → is_record_id id ≡ true
unfolding resolve
valid_of_resolve id target s e = elim (Bool-cases (is_record_id id)) [
  | inl valid ↦ valid
  | inr invalid ↦ refused_resolve id target s invalid e
]

acknowledge_cut_off-Implements :
    (id target : String) (now : ℕ) (s : Store)
    → IsConsistent s
    → Implements (acknowledge_cut_off id target) s (perform now (acknowledge_cut_off id target) s)
unfolding perform cut_off_resolve Implements pairs pending_after Possible without_target
acknowledge_cut_off-Implements id target now s c = elim (Bool-cases (is_record_id id)) [
  | inl valid ↦
      let (spool, pending) = resolve_spool-Resolved id target s c.spool in
      let after = (resolve_spool id target s).1 in
      let (done, k, same) = rebooted now after spool (not_corrupt s.queue c.held c.file) in
      rw valid (k, refl, same ∙ (λ i j t. pending j t i))
  | inr invalid ↦
      let (done, k, same) = rebooted now s c.spool (not_corrupt s.queue c.held c.file) in
      rw invalid (k, refl, same)
]

perform-Implements :
    (now : ℕ) (r : Request) (s : Store)
    → Proper r
    → IsConsistent s
    → Implements r s (perform now r s)
unfolding perform Implements pairs Possible pending_after cut_off_enqueue
perform-Implements now (add rec targets) s d c =
    add-Implements rec targets s _ c (enqueue_record-Enqueued rec targets now s d c)
perform-Implements now (add_cut_off rec targets) s d c =
    elim (Bool-cases (is_record_id (record_id_of rec))) [
      | inl valid ↦ rw valid (
          add_cut_off-Implements rec targets now s (enqueue_spool (record_id_of rec) rec targets s)
            c (enqueue_spool-Spooled (record_id_of rec) rec targets s valid refl d c.spool))
      | inr invalid ↦ rw invalid (
          add_cut_off-Implements rec targets now s (err invalid_record_id, s) c
            (inl (invalid_record_id, refl)))
    ]
perform-Implements now (acknowledge id target) s d c =
    acknowledge-Implements id target s _ c (valid_of_resolve id target s)
      (resolve-Resolved id target s c)
perform-Implements now (acknowledge_cut_off id target) s d c =
    acknowledge_cut_off-Implements id target now s c
perform-Implements now (delay id target code) s d c =
    delay-Implements id target code s _ c (mark_pending-Marked id target code now s c)
perform-Implements now reboot s d c =
    let (done, k, same) = rebooted now s c.spool (not_corrupt s.queue c.held c.file) in
    rw done (k, refl, same)

-- From consistent files the queue implements the set of pending pairs: for every sequence of calls,
-- of calls that the process dies in between their two writes, and of restarts, each target given once
-- in its call, the answers are possible for the set, the files at the end are consistent, and they
-- stand for the set to which the same calls with the same answers take the set of the beginning.
pub perform_all-Refines :
    (rs : List (ℕ × Request)) (s : Store)
    → AllProper rs
    → IsConsistent s
    → IsConsistent (perform_all rs s).1
      × AllPossible rs (perform_all rs s).0 (pairs s)
      × (pairs (perform_all rs s).1 ≡ pending_after_all rs (perform_all rs s).0 (pairs s))
unfolding perform_all AllPossible pending_after_all Implements
perform_all-Refines [] s d c = (c, refl, refl)
perform_all-Refines ((now, r) ∷ rs) s d c =
    let one = perform-Implements now r s d.0 c in
    let next = (perform now r s).1 in
    let rest = perform_all-Refines rs next d.1 one.0 in
    (
      rest.0,
      (one.1, subst (λ p. AllPossible rs (perform_all rs next).0 p) one.2 rest.1),
      rest.2 ∙ ap (λ p. pending_after_all rs (perform_all rs next).0 p) one.2,
    )
