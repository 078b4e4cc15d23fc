-- ===== src/Manager/Staging.antt =====
-- How the node manager prepares a new generation (apps/manager/src/node-manager.ts):
-- `nextUnusedGeneration` and `stageDatabase`, with `verifyCandidateManifest`. What
-- `parseVerifiedRevision` reads from the migrator is a part of the report.
use Prim.Native.String
use neuromem.Prelude.{
  ℕ, zero, suc, ◌+◌, String, Bool, true, false, not, ◌&&◌, ◌||◌, Option, none, some, List, [], ◌∷◌,
  str_eq, leb, includes, length, if◌then◌else◌,
}
use neuromem.Nodes.State.{NodeRecord}
use neuromem.Tools.Control.{text3}
use neuromem.Manager.World.{
  DatabaseManifest, BackupManifest, HostLibrary, ok, M, ◌>>=◌, ◌>>◌, return, finally, write, ask,
  call, observe, require, save,
}
use neuromem.Manager.Backups.{member, same_count, source_tables, has_vectors}

pub data VerificationMode : Type 0 where
  exact migration : VerificationMode

unfoldable pub at_least : Option ℕ → ℕ → Bool
at_least none n = false
at_least (some m) n = leb n m

unfoldable pub count_verified : VerificationMode → String → Option ℕ → ℕ → Bool
unfolding same_count at_least includes
count_verified exact table actual n = same_count actual n
count_verified migration table actual n = not (includes source_tables table) || at_least actual n

unfoldable pub counts_verified : VerificationMode → List (String × ℕ) → List (String × ℕ) → Bool
unfolding count_verified member
counts_verified mode [] actual = true
counts_verified mode ((table, n) ∷ rest) actual =
    count_verified mode table (member table actual) n && counts_verified mode rest actual

-- `verifyCandidateManifest` does not throw.
unfoldable pub verify_candidate_manifest :
    BackupManifest → DatabaseManifest → VerificationMode → Bool
unfolding counts_verified has_vectors
verify_candidate_manifest expected actual mode =
    counts_verified mode expected.database.row_counts actual.row_counts && has_vectors actual

-- `volumeName`, with `runtimeKey`
unfoldable pub volume_name : HostLibrary → NodeRecord → ℕ → String
volume_name lib n generation =
    text3 "neuromem-" (lib.lower (lib.without_dashes n.node_id))
      (String.◌++◌ "-pg-g" (lib.print generation))

unfoldable pub has_volume : String → M Bool
has_volume v w = (ok (includes w.volumes v), w)

-- `compose.volumeExists`: whether `docker volume inspect` ends well, which it does not for a volume
-- that is not there, and need not do for one that is; the report's flag tells whether Docker worked.
unfoldable pub volume_exists : String → M Bool
unfolding ◌>>=◌ ask has_volume return
volume_exists v = do inspected ← ask; there ← has_volume v; return (inspected.flag && there)

unfoldable pub volume_count : M ℕ
volume_count w = (ok (length w.volumes), w)

-- The loop of `nextUnusedGeneration`; `none` is out of fuel.
unfoldable pub unused_from : HostLibrary → ℕ → NodeRecord → ℕ → M (Option ℕ)
unfolding ◌>>=◌ return volume_exists volume_name
unused_from lib zero n generation = return none
unused_from lib (suc fuel) n generation =
    let rest = unused_from lib fuel n (generation + 1) in
    do
      taken ← volume_exists (volume_name lib n generation)
      if taken then rest else return (some generation)

-- `nextUnusedGeneration`: one round more than there are volumes is enough.
unfoldable pub next_unused_generation : HostLibrary → NodeRecord → M (Option ℕ)
unfolding ◌>>=◌ volume_count unused_from
next_unused_generation lib n = volume_count >>= λ k. unused_from lib (suc k) n (n.generation + 1)

unfoldable pub create_volume : String → M (Unit {0})
unfolding ◌>>=◌ call write
create_volume v = do call; write (λ w. record w { volumes = v ∷ w.volumes })

-- The loop until `pg_isready` succeeds; a round takes a second, and the deadline is 120 seconds.
unfoldable pub wait_postgres : ℕ → M Bool
unfolding ◌>>=◌ return observe ask
wait_postgres zero = return false
wait_postgres (suc n) =
    let rest = wait_postgres n in
    do
      ahead ← observe (λ r. r.flag)
      if ahead then (ask >>= λ check. if check.flag then return true else rest) else return false

unfoldable pub migrate_candidate : M (Option String)
unfolding ◌>>=◌ ask call require return
migrate_candidate = do
  call
  verification ← ask
  require verification.flag
  return (some verification.text)

-- The migration of the candidate, if there is a target.
unfoldable pub migrated_revision : String → M (Option String)
unfolding ◌>>=◌ return save finally call migrate_candidate
migrated_revision target =
    if str_eq target "" then return none else (save >> finally migrate_candidate call)

unfoldable pub agrees : Option String → String → Bool
agrees none revision = true
agrees (some actual) revision = str_eq actual "" || str_eq revision actual

unfoldable pub fill_candidate : BackupManifest → VerificationMode → String → M (Option String)
unfolding ◌>>=◌ return ask call require wait_postgres migrated_revision verify_candidate_manifest
    agrees
fill_candidate expected mode target = do
  call
  ready ← wait_postgres 120
  require ready
  call
  actual ← migrated_revision target
  call
  candidate ← ask
  require (verify_candidate_manifest expected candidate.manifest mode)
  require (agrees actual candidate.manifest.schema_revision)
  call
  return actual

-- `stageDatabase`
unfoldable pub stage_database :
    String → BackupManifest → VerificationMode → String → M (Option String)
unfolding ◌>>=◌ call require volume_exists create_volume save finally fill_candidate
stage_database candidate_volume expected mode target = do
  taken ← volume_exists candidate_volume
  require (not taken)
  create_volume candidate_volume
  call
  save
  finally (fill_candidate expected mode target) (call >> call)
