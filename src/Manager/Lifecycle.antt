-- ===== src/Manager/Lifecycle.antt =====
-- The operations of the node manager that keep the generation (apps/manager/src/node-manager.ts):
-- `start`, `stop`, `restart`, `backupCreate`, `backupVerify`, `restorePlan`, `migrationPlan` and
-- `migrationVerify`. What they return is the first operation record. The other members of the
-- `.env` that `validateRuntimeIdentity` compares are a report.
use neuromem.Prelude.{String, Bool, true, not, ◌&&◌, str_eq, if◌then◌else◌}
use neuromem.Nodes.State.{DesiredState, NodePhase, NodeRecord}
use neuromem.Nodes.Operations.{OperationKind}
use neuromem.Manager.World.{
  HostLibrary, M, ◌>>=◌, ◌>>◌, return, catch, attempt, ask, call, require, save, write, amend_node,
  set_phase, this_node, begin, succeed, fail_operation,
}
use neuromem.Manager.Status.{NodeStatus, wants_running, operational_phase, wait_for_ready}
use neuromem.Manager.Backups.{
  same_logical_manifest, locate_backup, verify_located_backup, store_backup,
}
use neuromem.Manager.Staging.{volume_name}
use neuromem.Manager.Generations.{read_env, restore_plan}
use neuromem.Manager.Migration.{is_revision}

unfoldable pub call_if : Bool → M (Unit {0})
unfolding call return
call_if b = if b then call else return tt

-- The write of a new `.env`, with the volume of the node's generation; the rest is a report.
unfoldable pub ensure_env : HostLibrary → NodeRecord → M (Unit {0})
unfolding ◌>>=◌ return ask write volume_name
ensure_env lib n w =
    (if w.has_env
        then return tt
        else ask >>= λ rest. write (λ v. record v {
          has_env = true;
          volume = volume_name lib n n.generation;
          settings = rest.text;
        }))
      w

-- `ensureRuntime`: the directory and the manager's configuration; whether the Compose file is there, and
-- its copy if not; the `.env`.
unfoldable pub ensure_runtime : HostLibrary → NodeRecord → M (Unit {0})
unfolding ◌>>=◌ call ask call_if ensure_env
ensure_runtime lib n = do call; compose ← ask; call_if (not compose.flag); ensure_env lib n

-- `validateRuntimeIdentity`
unfoldable pub validate_runtime_identity : HostLibrary → NodeRecord → M (Unit {0})
unfolding ◌>>=◌ read_env ask require volume_name
validate_runtime_identity lib n = do
  env ← read_env
  rest ← ask
  require (str_eq env.0 (volume_name lib n n.generation) && rest.flag)

unfoldable pub pull_image : M (Unit {0})
unfolding ◌>>=◌ ask require
pull_image = do pulled ← ask; require pulled.flag

-- An image whose label has the digest of the context is up to date; the reports tell whether there
-- is a build context, whether the image is present, and whether the label agrees.
unfoldable pub ensure_image : M (Unit {0})
unfolding ◌>>=◌ ask call return pull_image
ensure_image = do
  context ← ask
  present ← ask
  if present.flag && context.flag
      then (ask >>= λ label. if label.flag then return tt else call)
      else if present.flag
      then return tt
      else if context.flag
      then call
      else pull_image

-- `ensureImages`, for the core, mcp and web images.
unfoldable pub ensure_images : M (Unit {0})
unfolding ◌>>=◌ call ensure_image
ensure_images = do call; ensure_image; ensure_image; ensure_image

unfoldable pub want_running : M (Unit {0})
unfolding amend_node
want_running =
    amend_node (λ n. record n { desired_state = DesiredState.running; phase = NodePhase.starting })

-- `runMigration` to verify, and what `parseVerifiedRevision` reads.
unfoldable pub verified_revision : M String
unfolding ◌>>=◌ ask require return
verified_revision = do verification ← ask; require verification.flag; return verification.text

unfoldable pub revision_if : Bool → String → M String
unfolding verified_revision return
revision_if b old = if b then verified_revision else return old

unfoldable pub take_phase : NodeStatus → String → M (Unit {0})
unfolding ◌>>=◌ amend_node require operational_phase
take_phase s revision = do
  amend_node (λ n. record n { phase = s.phase; schema_revision = revision })
  require (operational_phase s.phase)

unfoldable pub start_action : HostLibrary → NodeRecord → M (Unit {0})
unfolding ◌>>=◌ ensure_runtime validate_runtime_identity ensure_images want_running call
    wait_for_ready operational_phase revision_if take_phase
start_action lib n = do
  ensure_runtime lib n
  validate_runtime_identity lib n
  ensure_images
  want_running
  call
  s ← wait_for_ready
  revision ← revision_if (operational_phase s.phase) n.schema_revision
  take_phase s revision

unfoldable pub stop_action : M (Unit {0})
unfolding ◌>>=◌ amend_node call set_phase
stop_action = do
  amend_node (λ n. record n { desired_state = DesiredState.stopped })
  call
  set_phase NodePhase.stopped

unfoldable pub restart_action : HostLibrary → NodeRecord → M (Unit {0})
unfolding ◌>>=◌ ensure_runtime validate_runtime_identity ensure_images want_running call
    wait_for_ready operational_phase revision_if take_phase
restart_action lib n = do
  ensure_runtime lib n
  validate_runtime_identity lib n
  ensure_images
  want_running
  call
  call
  s ← wait_for_ready
  revision ←
      revision_if (operational_phase s.phase && str_eq n.schema_revision "uninitialized")
        n.schema_revision
  take_phase s revision

-- `lifecycle`; the call takes the node's lock. The phase of the record at the end is left out.
unfoldable pub lifecycle : OperationKind → String → (NodeRecord → M (Unit {0})) → M (Unit {0})
unfolding ◌>>=◌ this_node call begin catch succeed attempt set_phase fail_operation
lifecycle kind phase action = do
  n ← this_node
  call
  begin kind phase
  catch (do action n; succeed "ready") (do attempt (set_phase NodePhase.failed); fail_operation)

unfoldable pub dump : NodeRecord → String → M (Unit {0})
unfolding ◌>>=◌ save call_if ask require call same_logical_manifest store_backup wants_running
    succeed
dump n id = do
  save
  call_if (wants_running n)
  queue ← ask
  require queue.flag
  database ← ask
  call
  call
  after ← ask
  require (same_logical_manifest database.manifest after.manifest)
  archive ← ask
  checksum ← ask
  m ← store_backup record {
    backup_id = id;
    node_id = n.node_id;
    generation = n.generation;
    archive_bytes = archive.number;
    sha256 = checksum.text;
    database = database.manifest;
  }
  call_if (wants_running n)
  succeed "verified"

-- `backupCreate`
unfoldable pub backup_create : M (Unit {0})
unfolding ◌>>=◌ this_node require call begin ask catch dump attempt call_if wants_running
    fail_operation
backup_create = do
  n ← this_node
  require (not (str_eq n.schema_revision "uninitialized"))
  call
  begin OperationKind.backup "dumping"
  fresh ← ask
  catch (dump n fresh.text) (do attempt (call_if (wants_running n)); call; fail_operation)

-- `backupVerify`
unfoldable pub backup_verify : String → M (Unit {0})
unfolding ◌>>=◌ this_node call begin catch locate_backup verify_located_backup succeed
    fail_operation
backup_verify id = do
  n ← this_node
  call
  begin OperationKind.backup_verify "checking_archive"
  catch (do m ← locate_backup n id; verify_located_backup m; succeed "verified") fail_operation

-- `migrationPlan`
unfoldable pub migration_plan : String → M (Unit {0})
unfolding ◌>>=◌ begin catch require is_revision succeed fail_operation
migration_plan target = do
  begin OperationKind.migrate_plan "inspecting"
  catch (do require (is_revision target); succeed "planned") fail_operation

-- `migrationVerify`
unfoldable pub migration_verify : M (Unit {0})
unfolding ◌>>=◌ call begin catch verified_revision amend_node succeed fail_operation
migration_verify = do
  call
  begin OperationKind.migrate_verify "verifying"
  catch
      (do
        revision ← verified_revision
        amend_node (λ n. record n { schema_revision = revision })
        succeed "verified")
      fail_operation

-- The operations of this file.
pub data Routine : Type 0 where
  start stop restart backup verify_migration : Routine
  verify_backup plan_restore plan_migration : String → Routine

unfoldable pub run_routine : HostLibrary → Routine → M (Unit {0})
unfolding ◌>>=◌ return lifecycle start_action stop_action restart_action backup_create
    migration_verify backup_verify migration_plan this_node restore_plan
run_routine lib start = lifecycle OperationKind.start "starting" (start_action lib)
run_routine lib stop = lifecycle OperationKind.stop "stopping" (λ n. stop_action)
run_routine lib restart = lifecycle OperationKind.restart "starting" (restart_action lib)
run_routine lib backup = backup_create
run_routine lib verify_migration = migration_verify
run_routine lib (verify_backup id) = backup_verify id
run_routine lib (plan_restore id) = this_node >>= λ n. restore_plan n id >>= λ b. return tt
run_routine lib (plan_migration target) = migration_plan target
