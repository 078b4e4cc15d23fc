-- ===== src/Manager/Kept/Steps.antt =====
-- What the parts of a restore keep (apps/manager/src/node-manager.ts), up to the cutover.
use neuromem.Prelude.{ℕ, zero, suc, ◌+◌, String, Bool, false, refl, Option, none, some, List, ◌∷◌}
use neuromem.Nodes.State.{NodePhase, NodeRecord}
use neuromem.Manager.World.{
  M, return, finally, attempt, write, observe, require, save, this_node, amend_node, set_phase,
  Report, BackupManifest, ComponentStatus,
}
use neuromem.Manager.Status.{
  NodeStatus, synchronize, probe_schema, unavailable, at_rest, probed, listed_status, status,
  wait_rounds, wait_for_ready,
}
use neuromem.Manager.Backups.{
  checked_backup, stored_backups, locate_backup, verify_located_backup, store_backup, take_snapshot,
  snapshot_while_quiesced,
}
use neuromem.Manager.Staging.{
  VerificationMode, has_volume, volume_exists, volume_count, unused_from, next_unused_generation,
  create_volume, wait_postgres, migrate_candidate, migrated_revision, fill_candidate,
  stage_database,
}
use neuromem.Manager.World.{HostLibrary}
use neuromem.Manager.Kept.{
  active, steady, Preserves, Preserves-bind, Preserves-catch, Preserves-if, Preserves-return,
  Preserves-throw, Preserves-write, ask-steady, call-steady,
}

pub attempt-steady : (m : M (Unit {0})) → Preserves steady m → Preserves steady (attempt m)
unfolding attempt
attempt-steady m p = Preserves-catch steady m (return tt) p (Preserves-return steady tt)

pub observe-steady : (f : Report → Bool) → Preserves steady (observe f)
unfolding observe
observe-steady f = search (Preserves-catch, Preserves-bind, Preserves-return, ask-steady)

pub finally-steady :
    {A : Type 0} (m : M A) (f : M (Unit {0}))
    → Preserves steady m
    → Preserves steady f
    → Preserves steady (finally m f)
unfolding finally
finally-steady m f p q = search (Preserves-catch, Preserves-bind, Preserves-return, p, q)

pub require-steady : (b : Bool) → Preserves steady (require b)
unfolding require
require-steady b = search (Preserves-if, Preserves-return)

pub save-steady : Preserves steady save
unfolding save steady active
save-steady = Preserves-write steady (λ w. w) (λ w. refl) (λ w. refl)

pub this_node-steady : Preserves steady this_node
unfolding this_node
this_node-steady w = refl

pub set_phase-steady : (p : NodePhase) → Preserves steady (set_phase p)
unfolding set_phase amend_node steady active
set_phase-steady p =
    Preserves-write steady (λ w. record w { node = record w.node { phase = p } }) (λ w. refl)
      (λ w. refl)

synchronize-steady : (n : NodeRecord) (p : NodePhase) → Preserves steady (synchronize n p)
unfolding synchronize
synchronize-steady n p = search (Preserves-if, Preserves-bind, set_phase-steady, this_node-steady)

probe_schema-steady :
    (cs : List ComponentStatus) (b : Bool) (p : NodePhase) → Preserves steady (probe_schema cs b p)
unfolding probe_schema
probe_schema-steady cs b p = search (Preserves-if, Preserves-bind, Preserves-return, observe-steady)

unavailable-steady : (n : NodeRecord) → Preserves steady (unavailable n)
unfolding unavailable
unavailable-steady n =
    search (Preserves-bind, Preserves-return, synchronize-steady, attempt-steady, call-steady)

at_rest-steady : (n : NodeRecord) (cs : List ComponentStatus) → Preserves steady (at_rest n cs)
unfolding at_rest
at_rest-steady n cs =
    search (Preserves-bind, Preserves-return, synchronize-steady, attempt-steady, call-steady)

probed-steady : (n : NodeRecord) (cs : List ComponentStatus) → Preserves steady (probed n cs)
unfolding probed
probed-steady n cs = search (
  Preserves-bind, Preserves-catch, Preserves-return, synchronize-steady, probe_schema-steady,
  ask-steady,
)

listed_status-steady :
    (n : NodeRecord) (cs : List ComponentStatus) → Preserves steady (listed_status n cs)
unfolding listed_status
listed_status-steady n cs = search (Preserves-if, at_rest-steady, probed-steady)

pub status-steady : Preserves steady status
unfolding status
status-steady = search (
  Preserves-bind, Preserves-if, this_node-steady, observe-steady, ask-steady, listed_status-steady,
  unavailable-steady,
)

wait_rounds-steady : (n : ℕ) (s : NodeStatus) → Preserves steady (wait_rounds n s)
unfolding wait_rounds
wait_rounds-steady zero s = Preserves-return steady s
wait_rounds-steady (suc n) s =
    let rest = wait_rounds-steady n in
    search (Preserves-bind, Preserves-if, Preserves-return, observe-steady, status-steady, rest)

pub wait_for_ready-steady : Preserves steady wait_for_ready
unfolding wait_for_ready
wait_for_ready-steady = search (Preserves-bind, status-steady, wait_rounds-steady)

checked_backup-steady :
    (n : NodeRecord) (o : Option BackupManifest) → Preserves steady (checked_backup n o)
unfolding checked_backup
checked_backup-steady n none = Preserves-throw steady BackupManifest
checked_backup-steady n (some m) =
    search (Preserves-bind, Preserves-return, require-steady, ask-steady)

stored_backups-steady : Preserves steady stored_backups
unfolding stored_backups
stored_backups-steady w = refl

pub locate_backup-steady : (n : NodeRecord) (id : String) → Preserves steady (locate_backup n id)
unfolding locate_backup
locate_backup-steady n id =
    search
      (Preserves-bind, require-steady, call-steady, stored_backups-steady, checked_backup-steady)

pub verify_located_backup-steady : (m : BackupManifest) → Preserves steady (verify_located_backup m)
unfolding verify_located_backup
verify_located_backup-steady m = search (Preserves-bind, require-steady, call-steady, ask-steady)

push_backup-steady :
    (m : BackupManifest) → Preserves steady (write (λ w. record w { backups = m ∷ w.backups }))
unfolding steady active
push_backup-steady m =
    Preserves-write steady (λ w. record w { backups = m ∷ w.backups }) (λ w. refl) (λ w. refl)

pub store_backup-steady : (m : BackupManifest) → Preserves steady (store_backup m)
unfolding store_backup
store_backup-steady m = search (Preserves-bind, Preserves-return, save-steady, push_backup-steady)

take_snapshot-steady : (n : NodeRecord) (id : String) → Preserves steady (take_snapshot n id)
unfolding take_snapshot
take_snapshot-steady n id =
    search (Preserves-bind, require-steady, call-steady, ask-steady, store_backup-steady) depth 20

pub snapshot_while_quiesced-steady : (n : NodeRecord) → Preserves steady (snapshot_while_quiesced n)
unfolding snapshot_while_quiesced
snapshot_while_quiesced-steady n = search (
  Preserves-bind, Preserves-catch, Preserves-throw, ask-steady, call-steady, save-steady,
  take_snapshot-steady,
)

volume_count-steady : Preserves steady volume_count
unfolding volume_count
volume_count-steady w = refl

has_volume-steady : (v : String) → Preserves steady (has_volume v)
unfolding has_volume
has_volume-steady v w = refl

volume_exists-steady : (v : String) → Preserves steady (volume_exists v)
unfolding volume_exists
volume_exists-steady v = search (Preserves-bind, Preserves-return, ask-steady, has_volume-steady)

no_generation-steady : Preserves steady (return {A = Option ℕ} none)
no_generation-steady = Preserves-return steady none

unused_from-steady :
    (lib : HostLibrary) (fuel : ℕ) (n : NodeRecord) (generation : ℕ)
    → Preserves steady (unused_from lib fuel n generation)
unfolding unused_from
unused_from-steady lib zero n generation = no_generation-steady
unused_from-steady lib (suc fuel) n generation =
    let rest = unused_from-steady lib fuel n (generation + 1) in
    search (Preserves-bind, Preserves-if, Preserves-return, volume_exists-steady, rest)

pub next_unused_generation-steady :
    (lib : HostLibrary) (n : NodeRecord) → Preserves steady (next_unused_generation lib n)
unfolding next_unused_generation
next_unused_generation-steady lib n =
    search (Preserves-bind, volume_count-steady, unused_from-steady)

push_volume-steady :
    (v : String) → Preserves steady (write (λ w. record w { volumes = v ∷ w.volumes }))
unfolding steady active
push_volume-steady v =
    Preserves-write steady (λ w. record w { volumes = v ∷ w.volumes }) (λ w. refl) (λ w. refl)

create_volume-steady : (v : String) → Preserves steady (create_volume v)
unfolding create_volume
create_volume-steady v = search (Preserves-bind, call-steady, push_volume-steady)

wait_postgres-steady : (n : ℕ) → Preserves steady (wait_postgres n)
unfolding wait_postgres
wait_postgres-steady zero = Preserves-return steady false
wait_postgres-steady (suc n) =
    let rest = wait_postgres-steady n in
    search (Preserves-bind, Preserves-if, Preserves-return, observe-steady, ask-steady, rest)

migrate_candidate-steady : Preserves steady migrate_candidate
unfolding migrate_candidate
migrate_candidate-steady =
    search (Preserves-bind, Preserves-return, call-steady, ask-steady, require-steady)

migrated_revision-steady : (target : String) → Preserves steady (migrated_revision target)
unfolding migrated_revision
migrated_revision-steady target = search (
  Preserves-bind, Preserves-if, Preserves-return, save-steady, finally-steady,
  migrate_candidate-steady, call-steady,
)

fill_candidate-steady :
    (m : BackupManifest) (mode : VerificationMode) (target : String)
    → Preserves steady (fill_candidate m mode target)
unfolding fill_candidate
fill_candidate-steady m mode target =
    search
      (
        Preserves-bind, Preserves-return, call-steady, ask-steady, require-steady,
        wait_postgres-steady, migrated_revision-steady,
      )
      depth 20

pub stage_database-steady :
    (volume : String) (m : BackupManifest) (mode : VerificationMode) (target : String)
    → Preserves steady (stage_database volume m mode target)
unfolding stage_database
stage_database-steady volume m mode target =
    search
      (
        Preserves-bind, volume_exists-steady, require-steady, create_volume-steady, call-steady,
        save-steady, finally-steady, fill_candidate-steady,
      )
      depth 20
