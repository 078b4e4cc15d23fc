-- ===== src/RetryQueue/Actions.antt =====
-- Histories of the queue: what one or several processes and crashes do to its store. Each call runs
-- under the file lock, so a history is a sequence of calls. A crash leaves what the writes before
-- it left: `enqueue_crash` and `resolve_crash` stop between the two files.
use neuromem.Prelude.{
  ℕ, String, Bool, false, ◌&&◌, ◌≡◌, List, [], ◌∷◌, Option, if◌then◌else◌, Distinct, str_eq,
}
use neuromem.Json.{JsonObject}
use neuromem.Uuid.{is_record_id}
use neuromem.RetryQueue.Store.{Store}
use neuromem.RetryQueue.Writes.{
  record_id_of, enqueue_spool, enqueue_record, mark_pending, resolve_spool, resolve,
}
use neuromem.RetryQueue.Idempotency.{initialize, resolve_idempotency_key}

pub data Action : Type 0 where
  enqueue enqueue_crash : JsonObject → List String → Action
  finish finish_crash : String → String → Action
  mark : String → String → String → Action
  start : Action
  choose_id : String → String → String → Option String → String → Action

-- The store after one call at time `now`, whatever it returned.
unfoldable pub step : (String → String) → ℕ → Action → Store → Store
step sha256 now (enqueue r ts) s = (enqueue_record r ts now s).1
step sha256 now (enqueue_crash r ts) s =
    if is_record_id (record_id_of r) then (enqueue_spool (record_id_of r) r ts s).1 else s
step sha256 now (finish id t) s = (resolve id t s).1
step sha256 now (finish_crash id t) s = if is_record_id id then (resolve_spool id t s).1 else s
step sha256 now (mark id t code) s = (mark_pending id t code now s).1
step sha256 now start s = (initialize now s).1
step sha256 now (choose_id key ns hash requested fresh) s =
    (resolve_idempotency_key sha256 key ns hash requested now fresh s).1

unfoldable pub run : (String → String) → List (ℕ × Action) → Store → Store
unfolding step
run sha256 [] s = s
run sha256 ((now, a) ∷ acts) s = run sha256 acts (step sha256 now a s)

-- The caller passes each target once.
abbrev pub Proper : Action → Type 0
Proper (enqueue r ts) = Distinct ts
Proper (enqueue_crash r ts) = Distinct ts
Proper _ = Unit

-- The action takes the pair out of the spool.
abbrev pub completes : String → String → Action → Bool
completes id t (finish i u) = str_eq i id && str_eq u t
completes id t (finish_crash i u) = str_eq i id && str_eq u t
completes id t _ = false

abbrev pub AllProper : List (ℕ × Action) → Type 0
AllProper [] = Unit
AllProper ((now, a) ∷ acts) = Proper a × AllProper acts

abbrev pub Uncompleted : String → String → List (ℕ × Action) → Type 0
Uncompleted id t [] = Unit
Uncompleted id t ((now, a) ∷ acts) = (completes id t a ≡ false) × Uncompleted id t acts
