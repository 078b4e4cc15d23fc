-- ===== src/Manager/Status.antt =====
-- `status` and `waitForReady` of the node manager (apps/manager/src/node-manager.ts). The models, the
-- endpoints and the message of an error are left out of a status.
use neuromem.Prelude.{
  ℕ, zero, suc, String, Bool, true, false, not, ◌&&◌, ◌||◌, List, [], ◌∷◌, str_eq, ◌==◌,
  if◌then◌else◌,
}
use neuromem.Nodes.State.{DesiredState, NodePhase, NodeRecord}
use neuromem.Manager.World.{
  ComponentStatus, Report, M, ◌>>=◌, ◌>>◌, return, catch, attempt, ask, call, observe, set_phase,
  this_node,
}

pub record NodeStatus : Type 0 where
  pub node : NodeRecord
  pub docker_available : Bool
  pub phase : NodePhase
  pub components : List ComponentStatus

unfoldable pub phase_number : NodePhase → ℕ
phase_number NodePhase.stopped = 0
phase_number NodePhase.starting = 1
phase_number NodePhase.ready = 2
phase_number NodePhase.degraded = 3
phase_number NodePhase.maintenance = 4
phase_number NodePhase.failed = 5

unfoldable pub same_phase : NodePhase → NodePhase → Bool
unfolding phase_number
same_phase p q = phase_number p == phase_number q

unfoldable pub wants_running : NodeRecord → Bool
wants_running n = elim n.desired_state [
  | DesiredState.running ↦ true
  | DesiredState.stopped ↦ false
]

-- A node whose phase has changed gets the new one, and the record as it is then is read.
unfoldable pub synchronize : NodeRecord → NodePhase → M NodeRecord
unfolding same_phase ◌>>=◌ set_phase this_node return
synchronize n p = if same_phase n.phase p then return n else (set_phase p >> this_node)

unfoldable pub any_running : List ComponentStatus → Bool
any_running [] = false
any_running (c ∷ cs) = c.running || any_running cs

unfoldable pub any_unhealthy : List ComponentStatus → Bool
any_unhealthy [] = false
any_unhealthy (c ∷ cs) = c.unhealthy || any_unhealthy cs

unfoldable pub component_running : String → List ComponentStatus → Bool
component_running name [] = false
component_running name (c ∷ cs) = str_eq c.name name && c.running || component_running name cs

unfoldable pub all_running : List String → List ComponentStatus → Bool
unfolding component_running
all_running [] cs = true
all_running (name ∷ names) cs = component_running name cs && all_running names cs

-- `probeReady` gives whether the node is operational and whether it is fully ready.
unfoldable pub probed_phase : List ComponentStatus → Bool → Bool → NodePhase
unfolding all_running any_unhealthy
probed_phase cs operational fully_ready =
    if all_running ("database" ∷ "core" ∷ "worker" ∷ "mcp" ∷ "web" ∷ []) cs
      && fully_ready
      && not (any_unhealthy cs)
    then NodePhase.ready
    else if operational
    then NodePhase.degraded
    else NodePhase.failed

-- A node that does not answer while its database runs may have another schema: the report tells
-- whether `migrationStatus` fails with a message about the schema.
unfoldable pub probe_schema : List ComponentStatus → Bool → NodePhase → M NodePhase
unfolding component_running observe ◌>>=◌ return
probe_schema cs operational p =
    if not operational && component_running "database" cs
    then (do
      outdated ← observe (λ r. not r.flag && r.operational)
      return (if outdated then NodePhase.maintenance else p))
    else return p

unfoldable pub unavailable : NodeRecord → M NodeStatus
unfolding ◌>>=◌ return synchronize attempt call wants_running
unavailable n =
    let p = if wants_running n then NodePhase.failed else NodePhase.stopped in
    do
      node ← synchronize n p
      attempt call
      return record { node = node; docker_available = false; phase = p; components = [] }

unfoldable pub at_rest : NodeRecord → List ComponentStatus → M NodeStatus
unfolding ◌>>=◌ return synchronize attempt call
at_rest n cs = do
  node ← synchronize n NodePhase.stopped
  attempt call
  return record { node = node; docker_available = true; phase = NodePhase.stopped; components = cs }

abbrev unready : Report
unready = record {
  flag = false;
  operational = false;
  number = 0;
  text = "";
  components = [];
  manifest = record {
    database_bytes = 0;
    schema_revision = "";
    row_counts = [];
    extensions = [];
    vector_columns = [];
  };
}

unfoldable pub probed : NodeRecord → List ComponentStatus → M NodeStatus
unfolding ◌>>=◌ return synchronize catch ask probed_phase probe_schema
probed n cs = do
  readiness ← catch ask (return unready)
  p ←
      probe_schema cs readiness.operational
        (probed_phase cs readiness.operational (readiness.operational && readiness.flag))
  node ← synchronize n p
  return record { node = node; docker_available = true; phase = p; components = cs }

unfoldable pub listed_status : NodeRecord → List ComponentStatus → M NodeStatus
unfolding at_rest probed any_running wants_running
listed_status n cs =
    if not (wants_running n) && not (any_running cs) then at_rest n cs else probed n cs

-- `status`
unfoldable pub status : M NodeStatus
unfolding ◌>>=◌ this_node observe ask unavailable listed_status
status = do
  n ← this_node
  available ← observe (λ r. r.flag)
  if available then (ask >>= λ listed. listed_status n listed.components) else unavailable n

unfoldable pub operational_phase : NodePhase → Bool
operational_phase NodePhase.ready = true
operational_phase NodePhase.degraded = true
operational_phase NodePhase.stopped = false
operational_phase NodePhase.starting = false
operational_phase NodePhase.maintenance = false
operational_phase NodePhase.failed = false

unfoldable pub settled_phase : NodePhase → Bool
unfolding operational_phase
settled_phase p = operational_phase p || same_phase p NodePhase.maintenance

-- The loop of `waitForReady`: the report tells whether the deadline lies ahead. A round takes a
-- second, so 180 rounds see the deadline of 180 seconds.
unfoldable pub wait_rounds : ℕ → NodeStatus → M NodeStatus
unfolding ◌>>=◌ return observe status settled_phase
wait_rounds zero s = return s
wait_rounds (suc n) s =
    let rest : M NodeStatus = status >>= wait_rounds n in
    do
      ahead ← observe (λ r. r.flag)
      if ahead && not (settled_phase s.phase) then rest else return s

unfoldable pub wait_for_ready : M NodeStatus
unfolding ◌>>=◌ status wait_rounds
wait_for_ready = status >>= wait_rounds 180
