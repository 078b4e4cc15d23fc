-- ===== src/Tests/Refined.antt =====
-- A sequence of calls and crashes on the retry queue (apps/mcp/src/retry-queue.ts) against the set
-- of pending pairs.
use neuromem.Prelude.{ℕ, ◌≡◌, refl, List, [], ◌∷◌, includes}
use neuromem.RetryQueue.Consistency.{IsConsistent}
use neuromem.RetryQueue.Pending.{
  Request, add_cut_off, acknowledge, acknowledge_cut_off, delay, reboot, pairs, pending_after_all,
  AllPossible, perform_all,
}
use neuromem.RetryQueue.Refinement.{perform_all-Refines}
use neuromem.Tests.Queue.{sample_id, write, busy, busy-IsConsistent}

abbrev requests : List (ℕ × Request)
requests =
    (10, delay sample_id "east" "timeout")
    ∷ (11, acknowledge sample_id "east")
    ∷ (12, add_cut_off write ("north" ∷ []))
    ∷ (13, acknowledge_cut_off sample_id "west")
    ∷ (14, delay sample_id "west" "timeout")
    ∷ (15, reboot)
    ∷ []

perform_all-Refines_example :
    IsConsistent (perform_all requests busy).1
    × AllPossible requests (perform_all requests busy).0 (pairs busy)
    × (pairs (perform_all requests busy).1
        ≡ pending_after_all requests (perform_all requests busy).0 (pairs busy))
unfolding includes
perform_all-Refines_example =
    perform_all-Refines requests busy (tt, (tt, ((refl, tt), (tt, (tt, (tt, tt))))))
      busy-IsConsistent
