-- ===== src/Manager/Migration.antt =====
-- `migrationApply` of the node manager (apps/manager/src/node-manager.ts). What it returns is the
-- first operation record; the release of the node's lock is left out.
use neuromem.Prelude.{
  ℕ, String, Bool, true, ◌&&◌, ◌||◌, List, [], ◌∷◌, codes, str_eq, leb, ◌==◌, length, if◌then◌else◌,
}
use neuromem.Nodes.State.{NodeRecord}
use neuromem.Nodes.Operations.{OperationKind}
use neuromem.Manager.World.{
  BackupManifest, HostLibrary, M, ◌>>=◌, ◌>>◌, catch, ask, call, require, amend_node, this_node,
  begin, enter_phase, succeed,
}
use neuromem.Manager.Status.{operational_phase, wait_for_ready}
use neuromem.Manager.Backups.{locate_backup, verify_located_backup, snapshot_while_quiesced}
use neuromem.Manager.Staging.{VerificationMode}
use neuromem.Manager.Generations.{
  enough_space, quiesce, replace_generation, unchanged_since, abandon,
}

unfoldable pub is_revision_code : ℕ → Bool
is_revision_code c =
    leb b'A' c && leb c b'Z'
    || leb b'a' c && leb c b'z'
    || leb b'0' c && leb c b'9'
    || c == b'.'
    || c == b'_'
    || c == b'-'

unfoldable pub all_revision_codes : List ℕ → Bool
unfolding is_revision_code
all_revision_codes [] = true
all_revision_codes (c ∷ cs) = is_revision_code c && all_revision_codes cs

-- `/^[A-Za-z0-9._-]{1,128}$/`
unfoldable pub is_revision : String → Bool
unfolding all_revision_codes
is_revision s =
    let cs = codes s in leb 1 (length cs) && leb (length cs) 128 && all_revision_codes cs

-- The mode "transactional" migrates the active database; the report tells what the migrator has
-- verified.
unfoldable pub migrate_in_place : String → M (Unit {0})
unfolding ◌>>=◌ enter_phase call ask require wait_for_ready operational_phase amend_node succeed
migrate_in_place target = do
  enter_phase "migrating"
  call
  verification ← ask
  require verification.flag
  call
  s ← wait_for_ready
  require (operational_phase s.phase)
  amend_node (λ n. record n { schema_revision = verification.text; phase = s.phase })
  succeed "verified"

-- The other mode migrates a copy, which takes the place of the active generation.
unfoldable pub migrate_aside : HostLibrary → NodeRecord → BackupManifest → String → M (Unit {0})
unfolding ◌>>=◌ ask require enough_space locate_backup verify_located_backup replace_generation
migrate_aside lib n m target = do
  disk ← ask
  require (enough_space disk.number m)
  found ← locate_backup n m.backup_id
  verify_located_backup found
  replace_generation lib n found VerificationMode.migration target

unfoldable pub migrate_from : HostLibrary → NodeRecord → String → Bool → NodeRecord → M (Unit {0})
unfolding ◌>>=◌ require unchanged_since quiesce snapshot_while_quiesced migrate_in_place
    migrate_aside
migrate_from lib n target in_place latest = do
  require (unchanged_since n latest)
  quiesce
  m ← snapshot_while_quiesced latest
  require (str_eq m.database.schema_revision latest.schema_revision)
  if in_place then migrate_in_place target else migrate_aside lib latest m target

unfoldable pub migrate_locked : HostLibrary → NodeRecord → String → Bool → M (Unit {0})
unfolding ◌>>=◌ begin this_node catch migrate_from abandon
migrate_locked lib n target in_place = do
  begin OperationKind.migrate_apply "entering_maintenance"
  latest ← this_node
  catch (migrate_from lib n target in_place latest) (abandon latest)

-- `migrationApply`; the call takes the node's lock.
unfoldable pub migration_apply : HostLibrary → String → String → String → M (Unit {0})
unfolding ◌>>=◌ this_node require is_revision call migrate_locked
migration_apply lib target confirmation mode = do
  n ← this_node
  require (str_eq confirmation n.node_id)
  require (is_revision target)
  call
  migrate_locked lib n target (str_eq mode "transactional")
