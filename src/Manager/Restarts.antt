-- ===== src/Manager/Restarts.antt =====
-- Restarts of the manager after the process died in restoreApply
-- (apps/manager/src/node-manager.ts, restoreApply and `reconcileInterruptedCutovers`).
use neuromem.Prelude.{ℕ, zero, suc, String, false, ◌≡◌, none, arith}
use neuromem.Manager.World.{World, HostLibrary, Result, ok, thrown, crashed}
use neuromem.Manager.Generations.{restore_apply}
use neuromem.Manager.Restart.{restart}
use neuromem.Manager.Kept.{active}
use neuromem.Manager.Ends.{Ends, Holds}
use neuromem.Manager.Journal.{pending}
use neuromem.Manager.Recovery.{Complete, restart-Ends}
use neuromem.Manager.Rollable.{Back}
use neuromem.Manager.Outcome.{RestorableTo, restore_apply-Restored}

crashed-Ends :
    {A : Type 0} {Q : A → World → Type 0} {E C : World → Type 0} (r : Result A) (v : World)
    → Ends Q E C (r, v)
    → r ≡ crashed
    → C v
unfolding Holds
crashed-Ends (ok a) v h e = ground arith
crashed-Ends thrown v h e = ground arith
crashed-Ends crashed v h e = h.holds

-- The manager is started this often; each start goes on where the one before has come to, and none
-- finds the owner of the node's lock alive.
unfoldable pub restarted : HostLibrary → ℕ → World → World
restarted lib zero w = w
restarted lib (suc n) w = (restart lib false (restarted lib n w)).1

Restorable-result :
    {P : World → Type 0} (r : Result (Unit {0})) (v : World) (lib : HostLibrary) (w : World)
    → ((u : World) → P u → RestorableTo lib w u)
    → Ends (λ x. P) (RestorableTo lib w) (RestorableTo lib w) (r, v)
    → RestorableTo lib w v
unfolding Holds
Restorable-result (ok a) v lib w f h = f v h.holds
Restorable-result thrown v lib w f h = h.holds
Restorable-result crashed v lib w f h = h.holds

restarted-Restorable :
    (lib : HostLibrary) (w v : World) (n : ℕ)
    → Complete (active w)
    → RestorableTo lib w v
    → RestorableTo lib w (restarted lib n v)
unfolding restarted Back
restarted-Restorable lib w v zero complete h = h
restarted-Restorable lib w v (suc n) complete h =
    let last = restarted lib n v in
    Restorable-result (restart lib false last).0 (restart lib false last).1 lib w (λ u b. b.0)
      (restart-Ends lib (active w) w.settings w.node.node_id complete last
        (restarted-Restorable lib w v n complete h))

-- If the process dies in restoreApply, from a state without a journal, then the manager may be
-- started any number of times and die again each time, as long as no start finds a living process with
-- the pid that the node's lock names: a start that comes to its end leaves the
-- generation, the schema and the volume as they were before restoreApply, or the node's phase is
-- "failed" and the next start can still lead back to them. The generation is below 2^53 and the
-- names of its volume and its schema are not empty.
pub restart-restore_apply :
    (lib : HostLibrary) (id confirmation : String) (w : World) (n : ℕ)
    → pending w.history ≡ none
    → Complete (active w)
    → (restore_apply lib id confirmation w).0 ≡ crashed
    → Ends
        (λ x. Back lib (active w) w.settings w.node.node_id)
        (RestorableTo lib w)
        (RestorableTo lib w)
        (restart lib false (restarted lib n (restore_apply lib id confirmation w).1))
restart-restore_apply lib id confirmation w n empty complete dead =
    let died = restore_apply lib id confirmation w in
    restart-Ends lib (active w) w.settings w.node.node_id complete (restarted lib n died.1) (
      restarted-Restorable lib w died.1 n complete
        (crashed-Ends died.0 died.1 (restore_apply-Restored lib id confirmation w empty) dead))
