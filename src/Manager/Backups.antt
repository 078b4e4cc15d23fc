-- ===== src/Manager/Backups.antt =====
-- The backups of the node manager (apps/manager/src/node-manager.ts): the comparison of manifests,
-- `snapshotWhileQuiesced`, `locateBackup` and `verifyLocatedBackup`. A random id, the size and the
-- checksum of a file are reports.
use neuromem.Prelude.{
  ℕ, ◌^◌, String, Bool, true, false, not, ◌&&◌, Option, none, some, List, [], ◌∷◌, str_eq, ltb,
  ◌==◌, if◌then◌else◌,
}
use neuromem.Uuid.{is_uuid}
use neuromem.Nodes.State.{NodeRecord}
use neuromem.Manager.World.{
  VectorColumn, DatabaseManifest, BackupManifest, ok, M, ◌>>=◌, ◌>>◌, return, throw, catch, write,
  ask, call, require, save,
}

-- A member of an object, if it has it.
unfoldable pub member {ℓ} : {A : Type ℓ} → String → List (String × A) → Option A
member k [] = none
member k ((key, a) ∷ rest) = if str_eq key k then some a else member k rest

unfoldable pub same_count : Option ℕ → ℕ → Bool
same_count none n = false
same_count (some m) n = m == n

unfoldable pub counts_in : List (String × ℕ) → List (String × ℕ) → Bool
unfolding member same_count
counts_in [] bs = true
counts_in ((k, n) ∷ rest) bs = same_count (member k bs) n && counts_in rest bs

unfoldable pub same_version : Option String → String → Bool
same_version none v = false
same_version (some u) v = str_eq u v

unfoldable pub versions_in : List (String × String) → List (String × String) → Bool
unfolding member same_version
versions_in [] bs = true
versions_in ((k, v) ∷ rest) bs = same_version (member k bs) v && versions_in rest bs

unfoldable pub same_dimensions : Option ℕ → Option ℕ → Bool
same_dimensions none none = true
same_dimensions none (some n) = false
same_dimensions (some m) none = false
same_dimensions (some m) (some n) = m == n

unfoldable pub same_column : Option VectorColumn → VectorColumn → Bool
unfolding same_dimensions
same_column none c = false
same_column (some b) c = str_eq b.type c.type && same_dimensions b.dimensions c.dimensions

unfoldable pub columns_in : List (String × VectorColumn) → List (String × VectorColumn) → Bool
unfolding member same_column
columns_in [] bs = true
columns_in ((k, c) ∷ rest) bs = same_column (member k bs) c && columns_in rest bs

-- `sameLogicalManifest`: two objects have the same text, with their keys in order, when each has
-- the members of the other.
unfoldable pub same_logical_manifest : DatabaseManifest → DatabaseManifest → Bool
unfolding counts_in versions_in columns_in
same_logical_manifest l r =
    str_eq l.schema_revision r.schema_revision
    && (counts_in l.row_counts r.row_counts && counts_in r.row_counts l.row_counts)
    && (versions_in l.extensions r.extensions && versions_in r.extensions l.extensions)
    && (columns_in l.vector_columns r.vector_columns
        && columns_in r.vector_columns l.vector_columns)

unfoldable pub is_safe_count : Option ℕ → Bool
is_safe_count none = false
is_safe_count (some n) = ltb n (2 ^ 53)

unfoldable pub safe_counts : List String → List (String × ℕ) → Bool
unfolding member is_safe_count
safe_counts [] counts = true
safe_counts (table ∷ tables) counts =
    is_safe_count (member table counts) && safe_counts tables counts

abbrev pub source_tables : List String
source_tables =
    "workspaces" ∷ "projects" ∷ "peers" ∷ "sessions" ∷ "session_peers" ∷ "records"
    ∷ "record_segments" ∷ "claims" ∷ "claim_sources" ∷ "claim_relations" ∷ "claim_edges" ∷ []

abbrev required_tables : List String
required_tables =
    "workspaces" ∷ "projects" ∷ "peers" ∷ "sessions" ∷ "session_peers" ∷ "records"
    ∷ "record_segments" ∷ "claims" ∷ "claim_sources" ∷ "claim_relations" ∷ "claim_edges"
    ∷ "embedding_profiles" ∷ "record_embeddings" ∷ "claim_embeddings" ∷ "jobs" ∷ []

unfoldable pub has_version : Option String → Bool
has_version none = false
has_version (some v) = not (str_eq v "")

unfoldable pub has_dimensions : Option ℕ → Bool
has_dimensions none = false
has_dimensions (some n) = n == 2560

unfoldable pub is_halfvec : Option VectorColumn → Bool
unfolding has_dimensions
is_halfvec none = false
is_halfvec (some c) = str_eq c.type "halfvec(2560)" && has_dimensions c.dimensions

-- The extensions and the vector columns that both checks of a manifest want.
unfoldable pub has_vectors : DatabaseManifest → Bool
unfolding member has_version is_halfvec
has_vectors m =
    has_version (member "vector" m.extensions)
    && has_version (member "pg_trgm" m.extensions)
    && is_halfvec (member "record_embeddings" m.vector_columns)
    && is_halfvec (member "claim_embeddings" m.vector_columns)

-- `manifestStructureBlockers` gives no blocker.
unfoldable pub sound_structure : BackupManifest → Bool
unfolding safe_counts has_vectors
sound_structure m =
    not (str_eq m.database.schema_revision "")
    && not (str_eq m.database.schema_revision "missing")
    && safe_counts required_tables m.database.row_counts
    && has_vectors m.database

unfoldable pub find_backup : String → List BackupManifest → Option BackupManifest
find_backup id [] = none
find_backup id (m ∷ ms) = if str_eq m.backup_id id then some m else find_backup id ms

unfoldable pub checked_backup : NodeRecord → Option BackupManifest → M BackupManifest
unfolding ◌>>=◌ return throw require ask
checked_backup n none = throw
checked_backup n (some m) = do
  require (str_eq m.node_id n.node_id)
  archive ← ask
  require archive.flag
  return m

unfoldable pub stored_backups : M (List BackupManifest)
stored_backups w = (ok w.backups, w)

-- `locateBackup`; the report tells whether the archive lies in its directory and exists.
unfoldable pub locate_backup : NodeRecord → String → M BackupManifest
unfolding ◌>>=◌ require call stored_backups find_backup checked_backup
locate_backup n id = do
  require (is_uuid id)
  call
  stored ← stored_backups
  checked_backup n (find_backup id stored)

-- `verifyLocatedBackup`
unfoldable pub verify_located_backup : BackupManifest → M (Unit {0})
unfolding ◌>>=◌ require ask call
verify_located_backup m = do checksum ← ask; require (str_eq checksum.text m.sha256); call

unfoldable pub store_backup : BackupManifest → M BackupManifest
unfolding ◌>>=◌ write return save
store_backup m = do save; write (λ w. record w { backups = m ∷ w.backups }); return m

unfoldable pub take_snapshot : NodeRecord → String → M BackupManifest
unfolding ◌>>=◌ ask call require store_backup same_logical_manifest
take_snapshot n id = do
  before ← ask
  call
  call
  after ← ask
  require (same_logical_manifest before.manifest after.manifest)
  archive ← ask
  checksum ← ask
  store_backup record {
    backup_id = id;
    node_id = n.node_id;
    generation = n.generation;
    archive_bytes = archive.number;
    sha256 = checksum.text;
    database = before.manifest;
  }

-- `snapshotWhileQuiesced`
unfoldable pub snapshot_while_quiesced : NodeRecord → M BackupManifest
unfolding ◌>>=◌ ask call throw save catch take_snapshot
snapshot_while_quiesced n = do fresh ← ask; save; catch (take_snapshot n fresh.text) (call >> throw)
