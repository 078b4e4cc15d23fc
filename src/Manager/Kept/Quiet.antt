-- ===== src/Manager/Kept/Quiet.antt =====
-- The steps of a restore and what a cutover keeps (apps/manager/src/node-manager.ts): most of them
-- keep all of the state, and an operation's phase is no part of what is kept.
use neuromem.Prelude.{String, Bool, ◌≡◌, refl, List, [], ◌∷◌}
use neuromem.Nodes.State.{NodePhase, NodeRecord}
use neuromem.Manager.World.{
  Operation, HostLibrary, M, ask, call, attempt, require, set_phase, patch_first, amend,
  enter_phase, BackupManifest,
}
use neuromem.Manager.Status.{wait_for_ready}
use neuromem.Manager.Backups.{locate_backup, verify_located_backup, snapshot_while_quiesced}
use neuromem.Manager.Staging.{VerificationMode, next_unused_generation, stage_database}
use neuromem.Manager.Kept.{
  mark, older, active, framed, kept, steady-kept, Preserves, Preserves-write, Preserves-catch,
  Preserves-return, ask-steady, call-steady,
}
use neuromem.Manager.Kept.Steps.{
  require-steady, set_phase-steady, wait_for_ready-steady, locate_backup-steady,
  verify_located_backup-steady, snapshot_while_quiesced-steady, next_unused_generation-steady,
  stage_database-steady,
}

patch_phase-mark :
    (phase : String) (ops : List Operation)
    → mark (patch_first (λ op. record op { phase = phase }) ops) ≡ mark ops
unfolding mark patch_first
patch_phase-mark phase [] = refl
patch_phase-mark phase (op ∷ ops) = refl

pub patch_first-older :
    (f : Operation → Operation) (ops : List Operation) → older (patch_first f ops) ≡ older ops
unfolding older patch_first
patch_first-older f [] = refl
patch_first-older f (op ∷ ops) = refl

pub enter_phase-kept : (phase : String) → Preserves kept (enter_phase phase)
unfolding enter_phase amend kept active framed
enter_phase-kept phase =
    Preserves-write kept
      (λ w. record w { history = patch_first (λ op. record op { phase = phase }) w.history })
      (λ w. refl)
      (λ w.
        rw
          (
            patch_phase-mark phase w.history,
            patch_first-older (λ op. record op { phase = phase }) w.history,
          )
          refl)

pub ask-kept : Preserves kept ask
ask-kept = steady-kept ask ask-steady

pub call-kept : Preserves kept call
call-kept = steady-kept call call-steady

pub attempt-kept : (m : M (Unit {0})) → Preserves kept m → Preserves kept (attempt m)
unfolding attempt
attempt-kept m p = search (Preserves-catch, Preserves-return, p)

pub require-kept : (b : Bool) → Preserves kept (require b)
require-kept b = steady-kept (require b) (require-steady b)

pub set_phase-kept : (p : NodePhase) → Preserves kept (set_phase p)
set_phase-kept p = steady-kept (set_phase p) (set_phase-steady p)

pub wait_for_ready-kept : Preserves kept wait_for_ready
wait_for_ready-kept = steady-kept wait_for_ready wait_for_ready-steady

pub locate_backup-kept : (n : NodeRecord) (id : String) → Preserves kept (locate_backup n id)
locate_backup-kept n id = steady-kept (locate_backup n id) (locate_backup-steady n id)

pub verify_located_backup-kept : (m : BackupManifest) → Preserves kept (verify_located_backup m)
verify_located_backup-kept m =
    steady-kept (verify_located_backup m) (verify_located_backup-steady m)

pub snapshot_while_quiesced-kept : (n : NodeRecord) → Preserves kept (snapshot_while_quiesced n)
snapshot_while_quiesced-kept n =
    steady-kept (snapshot_while_quiesced n) (snapshot_while_quiesced-steady n)

pub next_unused_generation-kept :
    (lib : HostLibrary) (n : NodeRecord) → Preserves kept (next_unused_generation lib n)
next_unused_generation-kept lib n =
    steady-kept (next_unused_generation lib n) (next_unused_generation-steady lib n)

pub stage_database-kept :
    (volume : String) (m : BackupManifest) (mode : VerificationMode) (target : String)
    → Preserves kept (stage_database volume m mode target)
stage_database-kept volume m mode target =
    steady-kept (stage_database volume m mode target) (stage_database-steady volume m mode target)
