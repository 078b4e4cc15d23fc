-- ===== src/RetryQueue/Backoff.antt =====
-- The delay that markPending schedules.
use Prim.Native.Nat.{min}
use neuromem.Prelude.{
  ℕ, zero, suc, ◌+◌, ◌-◌, ◌*◌, ◌^◌, ◌≤◌, ◌<◌, String, false, ◌≡◌, refl, some, List, [], ◌∷◌, arith,
  find, any_of_find, Option, ◌&&◌, str_eq, str_eq_iff,
}
use native.Mathlib.Decide.{dec_lt}
use native.Mathlib.Nat.{one-le-pow}
use neuromem.RetryQueue.Resolution.{mark_pending_lem}
use neuromem.RetryQueue.Store.{RetryEntry, Store, entries, is_for, has_entry}
use neuromem.RetryQueue.Writes.{delay_ms, mark_first, touch, mark_pending}

small_power : (n : ℕ) → n < 8 → 2000 * 2 ^ n ≤ 256000
small_power zero h = omega arith
small_power (suc zero) h = omega arith
small_power (suc (suc zero)) h = omega arith
small_power (suc (suc (suc zero))) h = omega arith
small_power (suc (suc (suc (suc zero)))) h = omega arith
small_power (suc (suc (suc (suc (suc zero))))) h = omega arith
small_power (suc (suc (suc (suc (suc (suc zero)))))) h = omega arith
small_power (suc (suc (suc (suc (suc (suc (suc zero))))))) h = omega arith
small_power (suc (suc (suc (suc (suc (suc (suc (suc n)))))))) h = omega arith

delay_doubles : (n : ℕ) → n < 8 → delay_ms (suc n) ≡ 2000 * 2 ^ n
unfolding delay_ms
delay_doubles n h =
    let e : min (suc n - 1) 8 ≡ n = omega arith in rw e (omega (arith, small_power n h))

delay_capped : (n : ℕ) → 8 ≤ n → delay_ms (suc n) ≡ 300000
unfolding delay_ms
delay_capped n h = let e : min (suc n - 1) 8 ≡ 8 = omega arith in rw e (omega arith)

-- After the first failure the delay is two seconds; each further failure doubles it, up to the
-- eighth, and from the ninth on it is five minutes.
pub delay_schedule :
    (n : ℕ) → (n < 8 → delay_ms (suc n) ≡ 2000 * 2 ^ n) × (8 ≤ n → delay_ms (suc n) ≡ 300000)
delay_schedule n = (delay_doubles n, delay_capped n)

double-pos : (n : ℕ) → n < 8 → 2000 ≤ 2000 * 2 ^ n
double-pos n h = omega (arith, one-le-pow n 2 (omega arith))

pub delay_bounds : (n : ℕ) → (2000 ≤ delay_ms (suc n)) × (delay_ms (suc n) ≤ 300000)
delay_bounds n = elim (dec_lt n 8) [
  | yes h ↦ omega (arith, delay_doubles n h, small_power n h, double-pos n h)
  | no h ↦ omega (arith, delay_capped n)
]

-- The entry of a pair.
abbrev pub entry_of : String → String → List RetryEntry → Option RetryEntry
entry_of id target es = find (is_for id target) es

entry_of-mark_first :
    (id target code : String) (now : ℕ) (es : List RetryEntry) {e : RetryEntry}
    → entry_of id target es ≡ some e
    → entry_of id target (mark_first id target code now es) ≡ some (touch code now e)
unfolding find mark_first is_for
entry_of-mark_first id target code now [] h = cc
entry_of-mark_first id target code now (x ∷ es) {e} h =
    ground (arith, entry_of-mark_first id target code now es {e = e})

entry_of-mark_first_other :
    (id target code i t : String) (now : ℕ) (es : List RetryEntry)
    → (str_eq id i && str_eq target t) ≡ false
    → entry_of i t (mark_first id target code now es) ≡ entry_of i t es
unfolding find mark_first is_for
entry_of-mark_first_other id target code i t now [] n = refl
entry_of-mark_first_other id target code i t now (x ∷ es) n = ground (
  arith,
  entry_of-mark_first_other id target code i t now es n,
  str_eq_iff id i,
  str_eq_iff target t,
  str_eq_iff x.record_id id,
  str_eq_iff x.target_node target,
  str_eq_iff x.record_id i,
  str_eq_iff x.target_node t,
)

-- `markPending` counts one attempt more on the pair's entry, notes the error, and puts the next
-- attempt two seconds to five minutes ahead; the entries of all other pairs stay as they are.
pub mark_pending-Scheduled :
    (id target code : String) (now : ℕ) (s : Store) (es : List RetryEntry) (e : RetryEntry)
    → s.queue ≡ entries es
    → entry_of id target es ≡ some e
    → (es' : List RetryEntry) × (e' : RetryEntry) × ((mark_pending id target code now s).1.queue
        ≡ entries es')
      × (entry_of id target es' ≡ some e')
      × (e'.attempts ≡ e.attempts + 1)
      × (e'.last_error_code ≡ some code)
      × (now + 2000 ≤ e'.next_attempt_at)
      × (e'.next_attempt_at ≤ now + 300000)
      × ((i t : String)
          → (str_eq id i && str_eq target t) ≡ false
          → entry_of i t es' ≡ entry_of i t es)
unfolding touch has_entry
mark_pending-Scheduled id target code now s es e q h =
    let left = mark_first id target code now es in
    let queued : (mark_pending id target code now s).1.queue ≡ entries left =
      rw (mark_pending_lem id target code now s es q, any_of_find (is_for id target) es h) refl in
    let (low, high) = delay_bounds e.attempts in
    let plus : suc e.attempts ≡ e.attempts + 1 = omega arith in
    (
      left,
      touch code now e,
      queued,
      entry_of-mark_first id target code now es h,
      refl,
      refl,
      rw (← plus) (omega (arith, low)),
      rw (← plus) (omega (arith, high)),
      λ i t n. entry_of-mark_first_other id target code i t now es n,
    )
