-- ===== src/Manager/World.antt =====
-- The state that the node manager works on (apps/manager/src/node-manager.ts), for one node: its
-- record in the registry, its `.env` (the name of the volume and the rest), its operation records and
-- its backups, the volumes that Docker has, and the calls that leave the process. What these give is
-- a parameter, one report for each step; a step at which the process dies is one of `crashes`. The
-- manager's own small files are written or the process dies. Nothing else writes the node's state
-- during a call. Messages of errors and the times of records are left out.
use neuromem.Prelude.{ℕ, ◌+◌, String, Bool, false, Option, none, some, List, [], ◌∷◌, if◌then◌else◌}
use neuromem.Nodes.State.{NodePhase, NodeRecord}
use neuromem.Nodes.Operations.{OperationKind, OperationState, running}

-- The columns that hold vectors, by their table.
pub record VectorColumn : Type 0 where
  pub type : String
  pub dimensions : Option ℕ

pub record DatabaseManifest : Type 0 where
  pub database_bytes : ℕ
  pub schema_revision : String
  pub row_counts : List (String × ℕ)
  pub extensions : List (String × String)
  pub vector_columns : List (String × VectorColumn)

pub record BackupManifest : Type 0 where
  pub backup_id : String
  pub node_id : String
  pub generation : ℕ
  pub archive_bytes : ℕ
  pub sha256 : String
  pub database : DatabaseManifest

-- The journal of a change of the generation.
pub record Cutover : Type 0 where
  pub from_generation : ℕ
  pub from_volume : String
  pub from_schema : String
  pub to_generation : ℕ
  pub to_volume : String
  pub to_schema : String
  pub env_sha256 : String

-- An operation record, with the members of its result that a restart reads.
pub record Operation : Type 0 where
  pub kind : OperationKind
  pub state : OperationState
  pub phase : String
  pub cutover : Option Cutover
  pub recovery : Bool

pub record ComponentStatus : Type 0 where
  pub name : String
  pub running : Bool
  pub unhealthy : Bool

-- What a call outside gives; each call reads the members that it is about.
pub record Report : Type 0 where
  pub flag : Bool
  pub operational : Bool
  pub number : ℕ
  pub text : String
  pub components : List ComponentStatus
  pub manifest : DatabaseManifest

-- `has_env` is whether the `.env` is there. The history come newest first: the one that a call works on is the first.
pub record World : Type 0 where
  pub crashes : ℕ → Bool
  pub answers : ℕ → Option Report
  pub tick : ℕ
  pub node : NodeRecord
  pub has_env : Bool
  pub volume : String
  pub settings : String
  pub history : List Operation
  pub backups : List BackupManifest
  pub volumes : List String

-- What the source uses of its libraries: the text of a number, `toLowerCase`, `replaceAll("-", "")`,
-- and the SHA-256 of the `.env` that has this volume and this rest.
pub record HostLibrary : Type 0 where
  pub print : ℕ → String
  pub lower : String → String
  pub without_dashes : String → String
  pub digest : String → String → String

pub data Result {ℓ} (A : Type ℓ) : Type ℓ where
  ok : A → Result A
  thrown crashed : Result A

abbrev pub M : Type 0 → Type 0
M A = World → Result A × World

unfoldable pub bind_result : {A B : Type 0} → Result A → World → (A → M B) → Result B × World
bind_result (ok a) w f = f a w
bind_result thrown w f = (thrown, w)
bind_result crashed w f = (crashed, w)

infixl 5 ◌>>=◌ ◌>>◌
unfoldable pub ◌>>=◌ : {A B : Type 0} → M A → (A → M B) → M B
unfolding bind_result
◌>>=◌ m f w = bind_result (m w).0 (m w).1 f

abbrev pub ◌>>◌ : {B : Type 0} → M (Unit {0}) → M B → M B
m >> k = m >>= λ _. k

unfoldable pub return : {A : Type 0} → A → M A
return a w = (ok a, w)

unfoldable pub throw : {A : Type 0} → M A
throw w = (thrown, w)

unfoldable pub handled : {A : Type 0} → Result A → World → M A → Result A × World
handled (ok a) w h = (ok a, w)
handled thrown w h = h w
handled crashed w h = (crashed, w)

-- `try … catch`
unfoldable pub catch : {A : Type 0} → M A → M A → M A
unfolding handled
catch m h w = handled (m w).0 (m w).1 h

-- `.catch(() => undefined)`
unfoldable pub attempt : M (Unit {0}) → M (Unit {0})
unfolding catch return
attempt m = catch m (return tt)

abbrev later : World → World
later w = record w { tick = w.tick + 1 }

-- A write of the manager's own files.
unfoldable pub write : (World → World) → M (Unit {0})
write f w = if w.crashes w.tick then (crashed, later w) else (ok tt, f (later w))

unfoldable pub answered : Option Report → M Report
answered none w = (thrown, w)
answered (some r) w = (ok r, w)

-- A call outside: Docker, the network, or the file system.
unfoldable pub ask : M Report
unfolding answered
ask w = if w.crashes w.tick then (crashed, later w) else answered (w.answers w.tick) (later w)

unfoldable pub call : M (Unit {0})
unfolding ask ◌>>=◌ return
call = do r ← ask; return tt

-- A call whose error is caught and counts as "no".
unfoldable pub observe : (Report → Bool) → M Bool
unfolding catch ask ◌>>=◌ return
observe f = catch (do r ← ask; return (f r)) (return false)

-- `try … finally`
unfoldable pub finally : {A : Type 0} → M A → M (Unit {0}) → M A
unfolding catch ◌>>=◌ return throw
finally m f = do a ← catch m (do f; throw); f; return a

unfoldable pub this_node : M NodeRecord
this_node w = (ok w.node, w)

unfoldable pub require : Bool → M (Unit {0})
unfolding return throw
require b = if b then return tt else throw

-- A file of the call's own: the `.env` of a container, a manifest.
unfoldable pub save : M (Unit {0})
unfolding write
save = write (λ w. w)

-- `store.updateNode`
unfoldable pub amend_node : (NodeRecord → NodeRecord) → M (Unit {0})
unfolding write
amend_node f = write (λ w. record w { node = f w.node })

unfoldable pub set_phase : NodePhase → M (Unit {0})
unfolding amend_node
set_phase p = amend_node (λ n. record n { phase = p })

abbrev pub begun : OperationKind → String → Operation
begun kind phase = record {
  kind = kind;
  state = running;
  phase = phase;
  cutover = none;
  recovery = false;
}

-- `store.beginOperation`
unfoldable pub begin : OperationKind → String → M (Unit {0})
unfolding write
begin kind phase = write (λ w. record w { history = begun kind phase ∷ w.history })

unfoldable pub patch_first : (Operation → Operation) → List Operation → List Operation
patch_first f [] = []
patch_first f (op ∷ ops) = f op ∷ ops

-- `store.updateOperation`, for the operation that the call began.
unfoldable pub amend : (Operation → Operation) → M (Unit {0})
unfolding write patch_first
amend f = write (λ w. record w { history = patch_first f w.history })

unfoldable pub enter_phase : String → M (Unit {0})
unfolding amend
enter_phase phase = amend (λ op. record op { phase = phase })

-- The end of a call: its result takes the place of a journal.
unfoldable pub succeed : String → M (Unit {0})
unfolding amend
succeed phase =
    amend (λ op. record op { state = OperationState.succeeded; phase = phase; cutover = none })

-- `failOperation`
unfoldable pub fail_operation : M (Unit {0})
unfolding amend
fail_operation = amend (λ op. record op { state = OperationState.failed; phase = "failed" })
