-- ===== src/Tests/Manager.antt =====
-- The node manager on concrete runs (apps/manager/src/node-manager.ts): a restore that succeeds, and
-- one in which the process dies after the cutover.
use Prim.Native.String
use Prim.Native.String.{count}
use text.Mathlib.TextLemmas.{length-append}
use neuromem.Prelude.{
  ℕ, zero, suc, ◌⊎◌, ◌+◌, ◌^◌, ◌<◌, String, true, false, ◌≡◌, refl, sym, ◌∙◌, ap, none, some,
  Option, [], ◌∷◌, ◌==◌, if◌then◌else◌, includes, arith,
}
use neuromem.Uuid.{is_uuid}
use neuromem.Nodes.State.{NodeRecord, DesiredState, NodePhase}
use neuromem.Nodes.Operations.{OperationState}
use neuromem.Manager.World.{
  ComponentStatus, DatabaseManifest, Report, World, HostLibrary, Result, ok, crashed,
}
use neuromem.Manager.Staging.{volume_name, next_unused_generation}
use neuromem.Manager.Generations.{restore_apply}
use neuromem.Manager.Restart.{interrupted, cut_off_all, restart}
use neuromem.Manager.Kept.{active}
use neuromem.Manager.Ends.{Ends}
use neuromem.Manager.Recovery.{Complete}
use neuromem.Manager.Rollable.{Back}
use neuromem.Manager.Outcome.{
  Restored, Unchanged, RestorableTo, newest_state, restore_apply-Restored,
}
use neuromem.Manager.Restarts.{restarted, restart-restore_apply}
use neuromem.Manager.Migration.{migration_apply}
use neuromem.Manager.Migrating.{migration_apply-Restored}
use neuromem.Manager.Lifecycle.{Routine, run_routine}
use neuromem.Manager.Keeps.{identity}
use neuromem.Manager.Routine.{run_routine-identity}
use neuromem.Manager.Ports.{
  RequestedPorts, is_prototype_member, given_ports, all_given, used_ports, allocate_ports,
}
use neuromem.Manager.Allocated.{Usable, Honours, allocate_ports-Fits}
use neuromem.Manager.Unused.{LastFailed, next_unused_generation-Ends}

unfoldable bars : ℕ → String
bars zero = ""
bars (suc n) = String.◌++◌ "1" (bars n)

count-bars : (n : ℕ) → count (bars n) ≡ n
unfolding bars
count-bars zero = refl
count-bars (suc n) =
    let one_more : count (String.◌++◌ "1" (bars n)) ≡ 1 + count (bars n) =
      length-append "1" (bars n) in
    omega (arith, one_more, count-bars n)

bars-injective : (a b : ℕ) → bars a ≡ bars b → a ≡ b
bars-injective a b e = sym (count-bars a) ∙ (ap count e ∙ count-bars b)

abbrev host : HostLibrary
host = record {
  print = bars;
  lower = λ s. s;
  without_dashes = λ s. s;
  digest = λ volume rest. String.◌++◌ volume rest;
}

abbrev component : String → ComponentStatus
component name = record { name = name; running = true; unhealthy = false }

abbrev database : DatabaseManifest
database = record {
  database_bytes = 10;
  schema_revision = "r1";
  row_counts =
      ("workspaces", 1)
      ∷ ("projects", 1)
      ∷ ("peers", 1)
      ∷ ("sessions", 1)
      ∷ ("session_peers", 1)
      ∷ ("records", 1)
      ∷ ("record_segments", 1)
      ∷ ("claims", 1)
      ∷ ("claim_sources", 1)
      ∷ ("claim_relations", 1)
      ∷ ("claim_edges", 1)
      ∷ ("embedding_profiles", 1)
      ∷ ("record_embeddings", 1)
      ∷ ("claim_embeddings", 1)
      ∷ ("jobs", 1)
      ∷ [];
  extensions = ("vector", "0.8") ∷ ("pg_trgm", "1.6") ∷ [];
  vector_columns =
      ("record_embeddings", record { type = "halfvec(2560)"; dimensions = some 2560 })
      ∷ ("claim_embeddings", record { type = "halfvec(2560)"; dimensions = some 2560 })
      ∷ [];
}

-- What every call answers.
abbrev good : Report
good = record {
  flag = true;
  operational = true;
  number = 2 ^ 40;
  text = "r1";
  components =
      component "database"
      ∷ component "core"
      ∷ component "worker"
      ∷ component "mcp"
      ∷ component "web"
      ∷ [];
  manifest = database;
}

abbrev backup_id : String
backup_id = "0197f0c0-0000-4000-8000-000000000001"

abbrev home : NodeRecord
home = record {
  node_id = "id";
  alias = "home";
  ports = record { api = 1; dashboard = 2; mcp = 3 };
  generation = 1;
  desired_state = DesiredState.running;
  phase = NodePhase.ready;
  compose_project = "neuromem-id";
  schema_revision = "r1";
  created_at = 0;
  updated_at = 0;
}

-- The process dies at one step.
abbrev dying_at : ℕ → World
dying_at step = record {
  crashes = λ k. k == step;
  answers = λ k. some good;
  tick = 0;
  node = home;
  has_env = true;
  volume = "neuromem-id-pg-g1";
  settings = "rest";
  history = [];
  backups =
      record {
        backup_id = backup_id;
        node_id = "id";
        generation = 1;
        archive_bytes = 5;
        sha256 = "r1";
        database = database;
      }
      ∷ [];
  volumes = "neuromem-id-pg-g1" ∷ "neuromem-id-pg-g11" ∷ [];
}

abbrev run : ℕ → Result (Unit {0}) × World
run step = restore_apply host backup_id "id" (dying_at step)

abbrev shown :
    Result (Unit {0}) × World → Result (Unit {0}) × ℕ × String × ℕ × Option OperationState
shown r = (r.0, r.1.node.generation, r.1.volume, r.1.tick, newest_state r.1.history)

-- The first unused generation is 3.
restore_succeeds :
    shown (run 1000) ≡ (ok tt, 3, "neuromem-id-pg-g111", 64, some OperationState.succeeded)
unfolding restore_apply newest_state is_uuid bars
restore_succeeds = refl

-- The process dies when the new generation is active.
dies_after_cutover :
    shown (run 58) ≡ (crashed, 3, "neuromem-id-pg-g111", 59, some OperationState.running)
unfolding restore_apply newest_state is_uuid bars
dies_after_cutover = refl

restart_rolls_back :
    shown (restart host false (run 58).1)
    ≡ (ok tt, 1, "neuromem-id-pg-g1", 72, some OperationState.recovered)
unfolding restart restore_apply newest_state is_uuid bars
restart_rolls_back = refl

restore_apply-Restored_example :
    Ends
      (λ x. Restored host (dying_at 1000))
      (Unchanged host (dying_at 1000))
      (RestorableTo host (dying_at 1000))
      (run 1000)
unfolding interrupted cut_off_all
restore_apply-Restored_example = restore_apply-Restored host backup_id "id" (dying_at 1000) refl

restart-restore_apply_example :
    Ends
      (λ x. Back host (active (dying_at 58)) "rest" "id")
      (RestorableTo host (dying_at 58))
      (RestorableTo host (dying_at 58))
      (restart host false (restarted host 0 (run 58).1))
unfolding interrupted cut_off_all Complete active restore_apply is_uuid bars
restart-restore_apply_example =
    restart-restore_apply host backup_id "id" (dying_at 58) 0 refl (refl, refl, refl) refl

next_unused_generation-Ends_example :
    Ends
      (λ o u.
        (g : ℕ) × (o ≡ some g)
        × (1 < g)
        × ((includes (dying_at 1000).volumes (volume_name host home g) ≡ false)
            ⊎ LastFailed (λ k. some good) u))
      (λ u. Unit)
      (λ u. Unit)
      (next_unused_generation host home (dying_at 1000))
next_unused_generation-Ends_example =
    next_unused_generation-Ends host home (dying_at 1000) bars-injective

-- The id of the snapshot is the answer at step 6, the size of its archive that at step 12.
abbrev migrating : World
migrating = record (dying_at 1000) {
  answers = λ k.
      if k == 6
      then some record good { text = backup_id }
      else if k == 12
      then some record good { number = 5 }
      else some good;
}

migration_succeeds :
    shown (migration_apply host "r2" "id" "new_generation" migrating)
    ≡ (ok tt, 3, "neuromem-id-pg-g111", 56, some OperationState.succeeded)
unfolding migration_apply newest_state is_uuid bars
migration_succeeds = refl

migration_apply-Restored_example :
    Ends
      (λ x. Restored host migrating)
      (Unchanged host migrating)
      (RestorableTo host migrating)
      (migration_apply host "r2" "id" "new_generation" migrating)
unfolding interrupted cut_off_all
migration_apply-Restored_example =
    migration_apply-Restored host "r2" "id" "new_generation" migrating refl refl

restart_succeeds :
    shown (run_routine host Routine.restart (dying_at 1000))
    ≡ (ok tt, 1, "neuromem-id-pg-g1", 26, some OperationState.succeeded)
unfolding run_routine newest_state is_uuid bars
restart_succeeds = refl

run_routine-identity_example :
    identity (run_routine host Routine.restart (dying_at 1000)).1 ≡ identity (dying_at 1000)
run_routine-identity_example = run_routine-identity host Routine.restart (dying_at 1000) refl

-- One port of three is asked for.
abbrev wanted : RequestedPorts
wanted = record { api = none; dashboard = some 9000; mcp = none }

abbrev given : RequestedPorts
given = record { api = some 28001; dashboard = some 9000; mcp = some 28765 }

allocate_ports-Fits_example :
    Usable (λ p. true) (given_ports given) (used_ports (home ∷ []))
    × Honours wanted given
    × ((all_given given ≡ true) ⊎ (is_prototype_member "company" ≡ true))
unfolding allocate_ports given_ports used_ports
allocate_ports-Fits_example =
    allocate_ports-Fits (λ p. true) (home ∷ []) "company" wanted given refl
