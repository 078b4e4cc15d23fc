-- ===== src/Manager/Routine.antt =====
-- What the operations other than a restore and a migration leave alone
-- (apps/manager/src/node-manager.ts).
use neuromem.Prelude.{String, Bool, true, ◌≡◌, refl}
use neuromem.Nodes.State.{DesiredState, NodePhase, NodeRecord}
use neuromem.Nodes.Operations.{OperationKind}
use neuromem.Manager.World.{return, BackupManifest, World, HostLibrary, M, save, amend_node}
use neuromem.Manager.Status.{NodeStatus}
use neuromem.Manager.Backups.{store_backup}
use neuromem.Manager.Generations.{read_env, inspect_backup, restore_plan}
use neuromem.Manager.Lifecycle.{
  ensure_env, ensure_runtime, validate_runtime_identity, pull_image, ensure_image, ensure_images,
  want_running, verified_revision, revision_if, take_phase, start_action, stop_action,
  restart_action, lifecycle, dump, backup_create, backup_verify, migration_plan, migration_verify,
  Routine, start, stop, restart, backup, verify_migration, verify_backup, plan_restore,
  plan_migration, run_routine,
}
use neuromem.Manager.Kept.Steps.{save-steady, store_backup-steady}
use neuromem.Manager.Rollable.{read_env-steady}
use neuromem.Manager.Keeps.{
  Keeps, Keeps-bind, Keeps-catch, Keeps-if, Keeps-return, amend_node-Keeps, ask-Keeps,
  attempt-Keeps, begin-Keeps, call-Keeps, call_if-Keeps, fail_operation-Keeps, identity,
  locate_backup-Keeps, require-Keeps, set_phase-Keeps, steady-Keeps, succeed-Keeps, this_node-Keeps,
  verify_located_backup-Keeps, wait_for_ready-Keeps,
}

validate_runtime_identity-Keeps :
    (lib : HostLibrary) (n : NodeRecord) → Keeps (validate_runtime_identity lib n)
unfolding validate_runtime_identity
validate_runtime_identity-Keeps lib n =
    let env : Keeps read_env = steady-Keeps read_env read_env-steady in
    search (Keeps-bind, ask-Keeps, require-Keeps, env)

ensure_image-Keeps : Keeps ensure_image
unfolding ensure_image pull_image
ensure_image-Keeps =
    search (Keeps-bind, Keeps-if, Keeps-return, ask-Keeps, call-Keeps, require-Keeps) depth 20

ensure_images-Keeps : Keeps ensure_images
unfolding ensure_images
ensure_images-Keeps = search (Keeps-bind, call-Keeps, ensure_image-Keeps)

want_running-Keeps : Keeps want_running
unfolding want_running
want_running-Keeps =
    amend_node-Keeps
      (λ n. record n { desired_state = DesiredState.running; phase = NodePhase.starting })
      (λ n. refl) (λ n. refl)

verified_revision-Keeps : Keeps verified_revision
unfolding verified_revision
verified_revision-Keeps = search (Keeps-bind, Keeps-return, ask-Keeps, require-Keeps)

revision_if-Keeps : (b : Bool) (old : String) → Keeps (revision_if b old)
unfolding revision_if
revision_if-Keeps b old = search (Keeps-if, Keeps-return, verified_revision-Keeps)

take_phase-Keeps : (s : NodeStatus) (revision : String) → Keeps (take_phase s revision)
unfolding take_phase
take_phase-Keeps s revision =
    let taken =
      amend_node-Keeps (λ n. record n { phase = s.phase; schema_revision = revision }) (λ n. refl)
        (λ n. refl) in
    search (Keeps-bind, require-Keeps, taken)

ensure_env-Keeps : (lib : HostLibrary) (n : NodeRecord) → Keeps (ensure_env lib n)
unfolding ensure_env Keeps return
ensure_env-Keeps lib n w h = rw h refl

ensure_runtime-Keeps : (lib : HostLibrary) (n : NodeRecord) → Keeps (ensure_runtime lib n)
unfolding ensure_runtime
ensure_runtime-Keeps lib n =
    search (Keeps-bind, call-Keeps, ask-Keeps, call_if-Keeps, ensure_env-Keeps)

start_action-Keeps : (lib : HostLibrary) (n : NodeRecord) → Keeps (start_action lib n)
unfolding start_action
start_action-Keeps lib n =
    search
      (
        Keeps-bind, call-Keeps, ensure_runtime-Keeps, validate_runtime_identity-Keeps,
        ensure_images-Keeps, want_running-Keeps, wait_for_ready-Keeps, revision_if-Keeps,
        take_phase-Keeps,
      )
      depth 20

restart_action-Keeps : (lib : HostLibrary) (n : NodeRecord) → Keeps (restart_action lib n)
unfolding restart_action
restart_action-Keeps lib n =
    search
      (
        Keeps-bind, call-Keeps, ensure_runtime-Keeps, validate_runtime_identity-Keeps,
        ensure_images-Keeps, want_running-Keeps, wait_for_ready-Keeps, revision_if-Keeps,
        take_phase-Keeps,
      )
      depth 20

stop_action-Keeps : Keeps stop_action
unfolding stop_action
stop_action-Keeps =
    let wanted =
      amend_node-Keeps (λ n. record n { desired_state = DesiredState.stopped }) (λ n. refl)
        (λ n. refl) in
    search (Keeps-bind, call-Keeps, set_phase-Keeps, wanted)

lifecycle-Keeps :
    (kind : OperationKind) (phase : String) (action : NodeRecord → M (Unit {0}))
    → ((n : NodeRecord) → Keeps (action n))
    → Keeps (lifecycle kind phase action)
unfolding lifecycle
lifecycle-Keeps kind phase action p =
    search
      (
        Keeps-bind, Keeps-catch, this_node-Keeps, call-Keeps, begin-Keeps, succeed-Keeps,
        attempt-Keeps, set_phase-Keeps, fail_operation-Keeps, p,
      )
      depth 20

dump-Keeps : (n : NodeRecord) (id : String) → Keeps (dump n id)
unfolding dump
dump-Keeps n id =
    let saved : Keeps save = steady-Keeps save save-steady in
    let stored : (m : BackupManifest) → Keeps (store_backup m) =
      λ m. steady-Keeps (store_backup m) (store_backup-steady m) in
    search
      (
        Keeps-bind, saved, call_if-Keeps, ask-Keeps, require-Keeps, call-Keeps, stored,
        succeed-Keeps,
      )
      depth 30

backup_create-Keeps : Keeps backup_create
unfolding backup_create
backup_create-Keeps =
    search
      (
        Keeps-bind, Keeps-catch, this_node-Keeps, require-Keeps, call-Keeps, begin-Keeps, ask-Keeps,
        dump-Keeps, attempt-Keeps, call_if-Keeps, fail_operation-Keeps,
      )
      depth 20

backup_verify-Keeps : (id : String) → Keeps (backup_verify id)
unfolding backup_verify
backup_verify-Keeps id =
    search
      (
        Keeps-bind, Keeps-catch, this_node-Keeps, call-Keeps, begin-Keeps, locate_backup-Keeps,
        verify_located_backup-Keeps, succeed-Keeps, fail_operation-Keeps,
      )
      depth 20

restore_plan-Keeps : (n : NodeRecord) (id : String) → Keeps (restore_plan n id)
unfolding restore_plan inspect_backup
restore_plan-Keeps n id =
    search
      (
        Keeps-bind, Keeps-catch, Keeps-return, ask-Keeps, begin-Keeps, locate_backup-Keeps,
        verify_located_backup-Keeps, succeed-Keeps, fail_operation-Keeps,
      )
      depth 20

migration_plan-Keeps : (target : String) → Keeps (migration_plan target)
unfolding migration_plan
migration_plan-Keeps target =
    search
      (Keeps-bind, Keeps-catch, begin-Keeps, require-Keeps, succeed-Keeps, fail_operation-Keeps)
      depth 20

migration_verify-Keeps : Keeps migration_verify
unfolding migration_verify
migration_verify-Keeps =
    let revised : (s : String) → Keeps (amend_node (λ n. record n { schema_revision = s })) =
      λ s. amend_node-Keeps (λ n. record n { schema_revision = s }) (λ n. refl) (λ n. refl) in
    search
      (
        Keeps-bind, Keeps-catch, call-Keeps, begin-Keeps, verified_revision-Keeps, revised,
        succeed-Keeps, fail_operation-Keeps,
      )
      depth 20

plan_restore-Keeps : (lib : HostLibrary) (id : String) → Keeps (run_routine lib (plan_restore id))
unfolding run_routine
plan_restore-Keeps lib id = search (Keeps-bind, Keeps-return, this_node-Keeps, restore_plan-Keeps)

-- On a node that has its `.env`, the operations start, stop, restart, backupCreate, backupVerify,
-- restorePlan, migrationPlan and migrationVerify never change the node's generation, its `.env` or its
-- id, however they end: with a result, with an error, or with the death of the process at any step.
pub run_routine-identity :
    (lib : HostLibrary) (r : Routine) (w : World)
    → w.has_env ≡ true
    → identity (run_routine lib r w).1 ≡ identity w
unfolding run_routine Keeps
run_routine-identity lib start w =
    lifecycle-Keeps OperationKind.start "starting" (start_action lib) (start_action-Keeps lib) w
run_routine-identity lib stop w =
    lifecycle-Keeps OperationKind.stop "stopping" (λ n. stop_action) (λ n. stop_action-Keeps) w
run_routine-identity lib restart w =
    lifecycle-Keeps OperationKind.restart "starting" (restart_action lib) (restart_action-Keeps lib)
      w
run_routine-identity lib backup w = backup_create-Keeps w
run_routine-identity lib verify_migration w = migration_verify-Keeps w
run_routine-identity lib (verify_backup id) w = backup_verify-Keeps id w
run_routine-identity lib (plan_restore id) w = plan_restore-Keeps lib id w
run_routine-identity lib (plan_migration target) w = migration_plan-Keeps target w
