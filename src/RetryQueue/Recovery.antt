-- ===== src/RetryQueue/Recovery.antt =====
-- initialize, after any crash, makes the queue's file and the records directory consistent.
use neuromem.Prelude.{ℕ, ◌≡◌, ◌≢◌, refl, List, []}
use neuromem.RetryQueue.Store.{
  RetryEntry, Store, QueueFile, entries, absent, corrupt, Result, ok, read_queue,
}
use neuromem.RetryQueue.Reconcile.{reconcile_spool, by_key}
use neuromem.RetryQueue.Idempotency.{initialize, ensure_queue, prune}
use neuromem.RetryQueue.Spool.{IsSpool}
use neuromem.RetryQueue.Rebuild.{
  rebuilt, rebuilt-KeysDistinct, has_entry-rebuilt, recover_files_lem,
}
use neuromem.RetryQueue.Consistency.{IsConsistent}

reconcile_spool_lem :
    (now : ℕ) (s : Store) (es : List RetryEntry)
    → IsSpool s.records
    → s.queue ≡ entries es
    → reconcile_spool now s ≡ (ok tt, record s { queue = entries (rebuilt s.records now es) })
unfolding reconcile_spool read_queue
reconcile_spool_lem now s es h q =
    rw (q, read_queue) (rw (recover_files_lem s.records now (by_key [] es) [] h))

rebuilt-IsConsistent :
    (now : ℕ) (s : Store) (es : List RetryEntry)
    → IsSpool s.records
    → IsConsistent (record s { queue = entries (rebuilt s.records now es) })
rebuilt-IsConsistent now s es h = record {
  held = rebuilt s.records now es;
  file = refl;
  spool = h;
  distinct = rebuilt-KeysDistinct s.records now es;
  agrees = λ j t. has_entry-rebuilt j t s.records now es h;
}

prune-IsConsistent : (now : ℕ) (s : Store) → IsConsistent s → IsConsistent (prune now s).1
unfolding prune
prune-IsConsistent now s c = record {
  held = c.held;
  file = c.file;
  spool = c.spool;
  distinct = c.distinct;
  agrees = c.agrees;
}

initialize_from :
    (now : ℕ) (s : Store) (es : List RetryEntry)
    → IsSpool s.records
    → s.queue ≡ entries es
    → ((initialize now s).0 ≡ ok tt)
      × IsConsistent (initialize now s).1
      × ((initialize now s).1.records ≡ s.records)
unfolding initialize ensure_queue
initialize_from now s es h q =
    rw (q, ensure_queue)
      (rw (reconcile_spool_lem now s es h q) (
        unfold prune in refl,
        prune-IsConsistent now _ (rebuilt-IsConsistent now s es h),
        unfold prune in refl,
      ))

abbrev Initialized : Store → Result (Unit {0}) × Store → Type 0
Initialized s r = (r.0 ≡ ok tt) × IsConsistent r.1 × (r.1.records ≡ s.records)

initialize_absent :
    (now : ℕ) (s : Store)
    → s.queue ≡ absent
    → initialize now s ≡ initialize now (record s { queue = entries [] })
unfolding initialize ensure_queue
initialize_absent now s q = rw (q, ensure_queue)

initialize_cases :
    (now : ℕ) (s : Store) (f : QueueFile)
    → s.queue ≡ f
    → IsSpool s.records
    → f ≢ corrupt
    → Initialized s (initialize now s)
initialize_cases now s absent q h n =
    rw (initialize_absent now s q) (initialize_from now (record s { queue = entries [] }) [] h refl)
initialize_cases now s corrupt q h n = absurd (n refl)
initialize_cases now s (entries es) q h n = initialize_from now s es h q

-- Whatever the queue's file holds, unless it is corrupt, initialize succeeds on a well-formed
-- records directory, leaves that directory as it is, and makes the queue agree with it.
pub initialize-IsConsistent :
    (now : ℕ) (s : Store)
    → IsSpool s.records
    → s.queue ≢ corrupt
    → ((initialize now s).0 ≡ ok tt)
      × IsConsistent (initialize now s).1
      × ((initialize now s).1.records ≡ s.records)
initialize-IsConsistent now s h q = initialize_cases now s s.queue refl h q
