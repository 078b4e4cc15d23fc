-- ===== src/Tests/Nodes.antt =====
-- The node registry on concrete inputs (apps/manager/src/state.ts).
use neuromem.Prelude.{
  ℕ, ◌+◌, ◌*◌, ◌==◌, String, true, false, not, ◌&&◌, ◌||◌, ◌≡◌, refl, none, some, List, [], ◌∷◌,
  length, keep, any, str_eq, includes, if◌then◌else◌,
}
use neuromem.Nodes.State.{
  NodePorts, NodeRecord, RegistryFile, NodeError, Outcome, done, refused, ids_of, aliases_of,
  projects_of, has_project, validate_registry,
}
use neuromem.Nodes.Mutations.{
  StateStore, current, add_to, add_node, remove_node, mutate_registry, write_snapshot, no_default,
}
use neuromem.Nodes.Operations.{
  OperationRecord, OperationKind, OperationState, is_running, recover_operations,
}
use neuromem.Nodes.Lock.{NodeLock, LockPhase, idle, acting, LockState, LockMove, LockStep, lock_run}
use neuromem.Nodes.Valid.{IsRegistry, validate_registry_iff}
use neuromem.Nodes.Laws.Registered.{Mutated, mutate_registry-Mutated}
use neuromem.Nodes.Laws.Removal.{remove_node-Removed}
use neuromem.Nodes.Laws.Addition.{addable, add_node-Added}
use neuromem.Nodes.Laws.Recovery.{runs_on, recover_operations-Settled}

abbrev node : NodeRecord
node = record {
  node_id = "A-b";
  alias = "home";
  ports = record { api = 1; dashboard = 2; mcp = 3 };
  generation = 1;
  desired_state = neuromem.Nodes.State.DesiredState.running;
  phase = neuromem.Nodes.State.NodePhase.ready;
  compose_project = "neuromem-ab";
  schema_revision = "";
  created_at = 0;
  updated_at = 0;
}

abbrev fresh : StateStore
fresh = record { registry = none; snapshots = [] }

abbrev one_node : RegistryFile
one_node = record { format = 1; default_node_id = some "A-b"; nodes = node ∷ [] }

abbrev settled : StateStore
settled = record { registry = some one_node; snapshots = [] }

one_node_accepted : validate_registry one_node ≡ none
unfolding validate_registry includes has_project ids_of
one_node_accepted = refl

fresh_accepted : validate_registry (current fresh) ≡ none
unfolding validate_registry
fresh_accepted = refl

validate_registry_iff_example :
    (validate_registry one_node ≡ none → IsRegistry one_node)
    × (IsRegistry one_node → validate_registry one_node ≡ none)
validate_registry_iff_example = validate_registry_iff one_node

mutate_registry-Mutated_example :
    Mutated (add_to node false) fresh (mutate_registry (add_to node false) fresh)
mutate_registry-Mutated_example = mutate_registry-Mutated (add_to node false) fresh

new_by_all_names : addable node (current fresh) ≡ true
unfolding ids_of includes has_project aliases_of projects_of
new_by_all_names = refl

add_node-Added_example :
    (r : RegistryFile) × IsRegistry r
    × (add_node node false fresh
        ≡ (done (some node), write_snapshot node (record fresh { registry = some r })))
    × (r.nodes ≡ node ∷ [])
    × (r.default_node_id ≡ (if false || no_default none then some "A-b" else none))
add_node-Added_example =
    add_node-Added node false fresh ((validate_registry_iff (current fresh)).0 fresh_accepted)
      new_by_all_names

node_there : includes (ids_of one_node.nodes) "A-b" ≡ true
unfolding ids_of includes
node_there = refl

remove_node-Removed_example :
    (r : RegistryFile) × (remove_node "A-b" settled
      ≡ (done r, record settled { registry = some r }))
    × IsRegistry r
    × (r.nodes ≡ keep (λ n. not (str_eq n.node_id "A-b")) (node ∷ []))
    × (includes (ids_of r.nodes) "A-b" ≡ false)
remove_node-Removed_example =
    remove_node-Removed "A-b" settled ((validate_registry_iff one_node).0 one_node_accepted)
      node_there

abbrev backup_op : OperationRecord
backup_op = record {
  operation_id = "op";
  node_id = "A-b";
  kind = OperationKind.backup;
  state = OperationState.running;
  phase = "starting";
  started_at = 1;
  updated_at = 1;
  completed_at = none;
  error = none;
  result = none;
}

recover_operations-Settled_example :
    ((recover_operations (λ id. false) 9 (node ∷ []) (backup_op ∷ [])).0
        + length
            (keep is_running (recover_operations (λ id. false) 9 (node ∷ []) (backup_op ∷ [])).1)
      ≡ length (keep is_running (backup_op ∷ [])))
    × ((id : String)
        → any (runs_on id) (recover_operations (λ id. false) 9 (node ∷ []) (backup_op ∷ [])).1 ≡ (
            if includes (ids_of (node ∷ [])) id && not false
            then false
            else any (runs_on id) (backup_op ∷ [])))
recover_operations-Settled_example =
    recover_operations-Settled (λ id. false) 9 (node ∷ []) (backup_op ∷ [])

abbrev held : NodeLock
held = record { owner = some 70; mtime = 100 }

-- Call 7 acts.
abbrev locked : LockState
locked = record { directory = some held; phase = λ c. if c == 7 then acting else idle }

-- Call 8 tries to take the lock, and call 9 dies on the way.
abbrev moves : List LockStep
moves =
    record { time = 200; caller = 8; move = LockMove.enter }
    ∷ record { time = 60000; caller = 8; move = LockMove.read_owner }
    ∷ record { time = 60001; caller = 9; move = LockMove.enter }
    ∷ record { time = 60002; caller = 8; move = LockMove.clear }
    ∷ record { time = 60003; caller = 9; move = LockMove.die }
    ∷ []

abbrev pid_of : ℕ → ℕ
pid_of c = c * 10

-- Call 8 reads that the owner is dead, call 9 takes the lock over, and call 8 then removes the lock that
-- call 9 holds: both act.
abbrev race : List LockStep
race =
    record { time = 1; caller = 8; move = LockMove.enter }
    ∷ record { time = 1; caller = 8; move = LockMove.read_owner }
    ∷ record { time = 1; caller = 9; move = LockMove.enter }
    ∷ record { time = 1; caller = 9; move = LockMove.read_owner }
    ∷ record { time = 1; caller = 9; move = LockMove.clear }
    ∷ record { time = 1; caller = 9; move = LockMove.make }
    ∷ record { time = 1; caller = 9; move = LockMove.write_owner }
    ∷ record { time = 1; caller = 8; move = LockMove.clear }
    ∷ record { time = 1; caller = 8; move = LockMove.make }
    ∷ record { time = 1; caller = 8; move = LockMove.write_owner }
    ∷ []

abbrev left_behind : LockState
left_behind = record { directory = some held; phase = λ c. idle }

abbrev both_act : LockState → LockPhase × LockPhase
both_act s = (s.phase 8, s.phase 9)

race_lets_both_act :
    both_act (lock_run (λ t p. not (p == 70)) pid_of race left_behind) ≡ (acting, acting)
unfolding lock_run
race_lets_both_act = refl
