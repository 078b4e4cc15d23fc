-- ===== src/Manager/Generations.antt =====
-- The change of a node's generation (apps/manager/src/node-manager.ts): `restorePlan`,
-- `journalCutover`, `cutover`, `resumeExistingGeneration`, `restoreApply` and `migrationApply`. What
-- these return is the first operation record; the release of the node's lock is left out.
use neuromem.Prelude.{
  ℕ, ◌+◌, ◌*◌, ◌/◌, ◌^◌, String, Bool, false, ◌&&◌, Option, none, some, str_eq, leb, ◌==◌,
  if◌then◌else◌,
}
use neuromem.Nodes.State.{DesiredState, NodePhase, NodeRecord}
use neuromem.Nodes.Operations.{OperationKind}
use neuromem.Manager.World.{
  BackupManifest, HostLibrary, M, ◌>>=◌, ◌>>◌, return, throw, catch, attempt, write, ask, call,
  require, amend_node, set_phase, this_node, begin, amend, enter_phase, succeed, fail_operation,
}
use neuromem.Manager.Status.{NodeStatus, wants_running, operational_phase, wait_for_ready}
use neuromem.Manager.Backups.{
  sound_structure, locate_backup, verify_located_backup, snapshot_while_quiesced,
}
use neuromem.Manager.Staging.{VerificationMode, volume_name, next_unused_generation, stage_database}

-- The volume that the `.env` names, and the rest of the file.
unfoldable pub this_env : M (String × String)
unfolding return throw
this_env w = (if w.has_env then return (w.volume, w.settings) else throw) w

unfoldable pub read_env : M (String × String)
unfolding ◌>>=◌ call this_env
read_env = do call; this_env

unfoldable pub write_volume : String → M (Unit {0})
unfolding write
write_volume v = write (λ w. record w { volume = v })

unfoldable pub journal :
    HostLibrary → NodeRecord → ℕ → String → String → String × String → M (Unit {0})
unfolding amend
journal lib n generation volume schema env = amend (λ op. record op {
  phase = "cutover_prepared";
  cutover = some record {
    from_generation = n.generation;
    from_volume = env.0;
    from_schema = n.schema_revision;
    to_generation = generation;
    to_volume = volume;
    to_schema = schema;
    env_sha256 = lib.digest env.0 env.1;
  };
})

-- `journalCutover`
unfoldable pub journal_cutover : HostLibrary → NodeRecord → ℕ → String → String → M (Unit {0})
unfolding ◌>>=◌ call read_env journal
journal_cutover lib n generation volume schema = do
  call
  env ← read_env
  journal lib n generation volume schema env

unfoldable pub enter_generation : ℕ → String → M (Unit {0})
unfolding amend_node
enter_generation generation schema = amend_node (λ n. record n {
  generation = generation;
  schema_revision = schema;
  desired_state = DesiredState.running;
  phase = NodePhase.starting;
})

unfoldable pub bring_up : M NodeStatus
unfolding ◌>>=◌ call return require wait_for_ready operational_phase set_phase
bring_up = do
  call
  s ← wait_for_ready
  require (operational_phase s.phase)
  set_phase s.phase
  return s

-- The `try` of `cutover`.
unfoldable pub switch : String → ℕ → String → M NodeStatus
unfolding ◌>>=◌ write_volume enter_generation bring_up
switch volume generation schema = do
  write_volume volume
  enter_generation generation schema
  bring_up

unfoldable pub rolled_back_phase : M NodePhase
unfolding catch ◌>>=◌ wait_for_ready return
rolled_back_phase = catch (do s ← wait_for_ready; return s.phase) (return NodePhase.failed)

-- The `catch` of `cutover`.
unfoldable pub roll_back : NodeRecord → String → M NodeStatus
unfolding ◌>>=◌ attempt call write_volume enter_generation rolled_back_phase set_phase throw
roll_back n original = do
  attempt call
  write_volume original
  enter_generation n.generation n.schema_revision
  attempt call
  p ← rolled_back_phase
  set_phase p
  throw

-- `cutover`
unfoldable pub cutover : NodeRecord → String → ℕ → String → M NodeStatus
unfolding ◌>>=◌ read_env call catch switch roll_back
cutover n volume generation schema = do
  original ← read_env
  call
  catch (switch volume generation schema) (roll_back n original.0)

-- `resumeExistingGeneration`
unfoldable pub resume_existing_generation : NodeRecord → M (Unit {0})
unfolding ◌>>=◌ catch attempt call wait_for_ready set_phase wants_running
resume_existing_generation n =
    if wants_running n
    then catch (do call; s ← wait_for_ready; set_phase s.phase)
        (attempt (set_phase NodePhase.failed))
    else attempt (set_phase NodePhase.stopped)

-- `Math.max` of the three amounts, and the free space is no less.
unfoldable pub enough_space : ℕ → BackupManifest → Bool
enough_space free m =
    leb (m.database.database_bytes + m.archive_bytes * 2) free
    && leb ((m.database.database_bytes * 5 + 3) / 4) free
    && leb (1024 ^ 3) free

unfoldable pub unblocked : NodeRecord → BackupManifest → ℕ → Bool → Bool
unfolding enough_space sound_structure
unblocked n m free queue_empty =
    str_eq m.node_id n.node_id
    && str_eq m.database.schema_revision n.schema_revision
    && sound_structure m
    && queue_empty
    && enough_space free m

unfoldable pub inspect_backup : NodeRecord → String → M Bool
unfolding ◌>>=◌ locate_backup verify_located_backup ask return succeed unblocked
inspect_backup n id = do
  m ← locate_backup n id
  verify_located_backup m
  disk ← ask
  queue ← ask
  succeed "planned"
  return (unblocked n m disk.number queue.flag)

-- `restorePlan`, as far as `restoreApply` reads it.
unfoldable pub restore_plan : NodeRecord → String → M Bool
unfolding ◌>>=◌ begin catch inspect_backup fail_operation return
restore_plan n id = do
  begin OperationKind.restore_plan "inspecting"
  catch (inspect_backup n id) (do fail_operation; return false)

unfoldable pub found_generation : Option ℕ → M ℕ
unfolding return throw
found_generation none = throw
found_generation (some generation) = return generation

-- `actualRevision || fallback`
unfoldable pub revision_or : Option String → String → String
revision_or none fallback = fallback
revision_or (some s) fallback = if str_eq s "" then fallback else s

-- The stop of the writers, with the queue of the MCP server empty.
unfoldable pub quiesce : M (Unit {0})
unfolding ◌>>=◌ set_phase call ask require enter_phase
quiesce = do
  set_phase NodePhase.maintenance
  call
  queue ← ask
  require queue.flag
  enter_phase "quiesced_snapshot"

-- The new generation is staged from a backup, then it takes the place of the active one.
unfoldable pub replace_generation :
    HostLibrary → NodeRecord → BackupManifest → VerificationMode → String → M (Unit {0})
unfolding ◌>>=◌ next_unused_generation found_generation stage_database volume_name journal_cutover
    cutover revision_or succeed
replace_generation lib n m mode target = do
  found ← next_unused_generation lib n
  candidate ← found_generation found
  actual ← stage_database (volume_name lib n candidate) m mode target
  journal_cutover lib n candidate (volume_name lib n candidate) (revision_or actual target)
  s ← cutover n (volume_name lib n candidate) candidate (revision_or actual target)
  succeed "verified"

unfoldable pub unchanged_since : NodeRecord → NodeRecord → Bool
unchanged_since n latest =
    latest.generation == n.generation && str_eq latest.schema_revision n.schema_revision

unfoldable pub restore_from : HostLibrary → NodeRecord → BackupManifest → NodeRecord → M (Unit {0})
unfolding ◌>>=◌ require sound_structure quiesce snapshot_while_quiesced enter_phase
    replace_generation unchanged_since
restore_from lib n m latest = do
  require (unchanged_since n latest)
  require (sound_structure m && str_eq m.database.schema_revision latest.schema_revision)
  quiesce
  safety ← snapshot_while_quiesced latest
  enter_phase "staging"
  replace_generation lib latest m VerificationMode.exact m.database.schema_revision

-- The `catch` of both: the generation as it was is started again.
unfoldable pub abandon : NodeRecord → M (Unit {0})
unfolding ◌>>=◌ resume_existing_generation fail_operation
abandon n = do resume_existing_generation n; fail_operation

unfoldable pub located : NodeRecord → String → M (Option BackupManifest)
unfolding ◌>>=◌ catch locate_backup verify_located_backup return
located n id =
    catch (do m ← locate_backup n id; verify_located_backup m; return (some m)) (return none)

unfoldable pub restore_located : HostLibrary → NodeRecord → Option BackupManifest → M (Unit {0})
unfolding ◌>>=◌ catch this_node restore_from abandon
restore_located lib n none = abandon n
restore_located lib n (some m) =
    this_node >>= λ latest. catch (restore_from lib n m latest) (abandon latest)

unfoldable pub restore_locked : HostLibrary → NodeRecord → String → M (Unit {0})
unfolding ◌>>=◌ begin located restore_located
restore_locked lib n id = do
  begin OperationKind.restore_apply "entering_maintenance"
  found ← located n id
  restore_located lib n found

-- `restoreApply`; the call takes the node's lock.
unfoldable pub restore_apply : HostLibrary → String → String → M (Unit {0})
unfolding ◌>>=◌ this_node require restore_plan call restore_locked
restore_apply lib id confirmation = do
  n ← this_node
  require (str_eq confirmation n.node_id)
  planned ← restore_plan n id
  require planned
  call
  restore_locked lib n id
