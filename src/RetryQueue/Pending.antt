-- ===== src/RetryQueue/Pending.antt =====
-- What DurableRetryQueue promises (apps/mcp/src/retry-queue.ts), without its files: a set of pairs of
-- a record and a target that are pending, and what each call, and each call that a crash and a
-- restart follow, does to the set.
use neuromem.Prelude.{
  ℕ, String, Bool, true, false, ◌&&◌, ◌||◌, ◌≡◌, List, [], ◌∷◌, Distinct, includes, str_eq,
  if◌then◌else◌,
}
use neuromem.Json.{JsonObject}
use neuromem.Uuid.{is_record_id}
use neuromem.RetryQueue.Store.{Store, Result, ok, err, invalid_record_id}
use neuromem.RetryQueue.Writes.{
  record_id_of, enqueue_spool, enqueue_record, mark_pending, resolve_spool, resolve,
}
use neuromem.RetryQueue.Idempotency.{initialize}
use neuromem.RetryQueue.Spool.{spooled}

-- A call, or a call between whose two writes the process dies, with the restart after it.
pub data Request : Type 0 where
  add add_cut_off : JsonObject → List String → Request
  acknowledge acknowledge_cut_off : String → String → Request
  delay : String → String → String → Request
  reboot : Request

abbrev pub Pairs : Type 0
Pairs = String → String → Bool

unfoldable pub with_targets : String → List String → Pairs → Pairs
with_targets id targets p j t = p j t || str_eq id j && includes targets t

unfoldable pub without_target : String → String → Pairs → Pairs
without_target id target p j t = if str_eq id j && str_eq target t then false else p j t

-- The set after a call that has this answer: whether it was carried out.
unfoldable pub pending_after : Request → Bool → Pairs → Pairs
unfolding with_targets without_target
pending_after r false p = p
pending_after (add r targets) true p = with_targets (record_id_of r) targets p
pending_after (add_cut_off r targets) true p = with_targets (record_id_of r) targets p
pending_after (acknowledge id target) true p = without_target id target p
pending_after (acknowledge_cut_off id target) true p = without_target id target p
pending_after (delay id target code) true p = p
pending_after reboot true p = p

-- The answers that are possible: a record may be refused for its content.
unfoldable pub Possible : Request → Bool → Pairs → Type 0
Possible (add r targets) answer p = Unit
Possible (add_cut_off r targets) answer p = Unit
Possible (acknowledge id target) answer p = answer ≡ is_record_id id
Possible (acknowledge_cut_off id target) answer p = answer ≡ is_record_id id
Possible (delay id target code) answer p = answer ≡ p id target
Possible reboot answer p = answer ≡ true

unfoldable pub pending_after_all : List (ℕ × Request) → List Bool → Pairs → Pairs
unfolding pending_after
pending_after_all [] answers p = p
pending_after_all (r ∷ rs) [] p = p
pending_after_all ((now, r) ∷ rs) (b ∷ bs) p = pending_after_all rs bs (pending_after r b p)

unfoldable pub AllPossible : List (ℕ × Request) → List Bool → Pairs → Type 0
unfolding Possible pending_after
AllPossible [] answers p = answers ≡ []
AllPossible (r ∷ rs) [] p = ⊥
AllPossible ((now, r) ∷ rs) (b ∷ bs) p = Possible r b p × AllPossible rs bs (pending_after r b p)

abbrev pub succeeded : {A : Type 0} → Result A → Bool
succeeded (ok a) = true
succeeded (err e) = false

unfoldable pub cut_off_enqueue : JsonObject → List String → Store → Result JsonObject × Store
unfolding enqueue_spool
cut_off_enqueue r targets s =
    if is_record_id (record_id_of r)
    then enqueue_spool (record_id_of r) r targets s
    else (err invalid_record_id, s)

unfoldable pub cut_off_resolve : String → String → Store → Result (Unit {0}) × Store
unfolding resolve_spool
cut_off_resolve id target s =
    if is_record_id id then resolve_spool id target s else (err invalid_record_id, s)

-- The queue's calls, on its files.
unfoldable pub perform : ℕ → Request → Store → Bool × Store
unfolding enqueue_record cut_off_enqueue resolve cut_off_resolve mark_pending initialize
perform now (add r targets) s =
    let done = enqueue_record r targets now s in (succeeded done.0, done.1)
perform now (add_cut_off r targets) s =
    let done = cut_off_enqueue r targets s in (succeeded done.0, (initialize now done.1).1)
perform now (acknowledge id target) s = let done = resolve id target s in (succeeded done.0, done.1)
perform now (acknowledge_cut_off id target) s =
    let done = cut_off_resolve id target s in (succeeded done.0, (initialize now done.1).1)
perform now (delay id target code) s =
    let done = mark_pending id target code now s in (succeeded done.0, done.1)
perform now reboot s = let done = initialize now s in (succeeded done.0, done.1)

abbrev answered_first : Bool → List Bool × Store → List Bool × Store
answered_first b (bs, s) = (b ∷ bs, s)

unfoldable pub perform_all : List (ℕ × Request) → Store → List Bool × Store
unfolding perform
perform_all [] s = ([], s)
perform_all ((now, r) ∷ rs) s =
    let done = perform now r s in answered_first done.0 (perform_all rs done.1)

-- The caller passes each target once.
abbrev pub Proper : Request → Type 0
Proper (add r targets) = Distinct targets
Proper (add_cut_off r targets) = Distinct targets
Proper _ = Unit

abbrev pub AllProper : List (ℕ × Request) → Type 0
AllProper [] = Unit
AllProper ((now, r) ∷ rs) = Proper r × AllProper rs

-- The set that the files stand for.
unfoldable pub pairs : Store → Pairs
unfolding spooled
pairs s j t = spooled j t s.records
