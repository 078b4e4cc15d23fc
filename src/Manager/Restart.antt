-- ===== src/Manager/Restart.antt =====
-- What a restart of the manager does with an operation that was cut off
-- (apps/manager/src/state.ts, recoverInterruptedOperations; apps/manager/src/node-manager.ts,
-- `reconcileInterruptedCutovers`), for one node. The operations that ran are marked in one step.
use neuromem.Prelude.{
  ◌^◌, Bool, true, false, not, ◌&&◌, Option, none, some, List, [], ◌∷◌, str_eq, ltb, is_some,
  if◌then◌else◌,
}
use neuromem.Nodes.State.{NodePhase}
use neuromem.Nodes.Operations.{OperationState, recovered, needs_attention}
use neuromem.Manager.World.{
  Cutover, Operation, HostLibrary, ok, M, ◌>>=◌, ◌>>◌, return, catch, attempt, write, call, require,
  amend_node, set_phase, this_node,
}
use neuromem.Manager.Status.{wants_running}
use neuromem.Manager.Generations.{read_env, write_volume, bring_up}

unfoldable pub runs : OperationState → Bool
runs OperationState.running = true
runs OperationState.succeeded = false
runs OperationState.failed = false
runs OperationState.recovered = false
runs OperationState.needs_attention = false

unfoldable pub cut_off : Operation → Operation
unfolding runs
cut_off op =
    if runs op.state then record op { state = needs_attention; phase = "manager_restarted" } else op

unfoldable pub cut_off_all : List Operation → List Operation
unfolding cut_off
cut_off_all [] = []
cut_off_all (op ∷ ops) = cut_off op ∷ cut_off_all ops

unfoldable pub wants_attention : OperationState → Bool
wants_attention OperationState.running = false
wants_attention OperationState.succeeded = false
wants_attention OperationState.failed = false
wants_attention OperationState.recovered = false
wants_attention OperationState.needs_attention = true

unfoldable pub is_interrupted : Operation → Bool
unfolding wants_attention
is_interrupted op =
    wants_attention op.state
    && str_eq op.phase "manager_restarted"
    && is_some op.cutover
    && not op.recovery

-- The journal of the newest operation that was cut off during a cutover.
unfoldable pub interrupted : List Operation → Option Cutover
unfolding is_interrupted
interrupted [] = none
interrupted (op ∷ ops) = if is_interrupted op then op.cutover else interrupted ops

-- That operation is recorded as rolled back.
unfoldable pub mark_recovered : List Operation → List Operation
unfolding is_interrupted
mark_recovered [] = []
mark_recovered (op ∷ ops) =
    let rest = mark_recovered ops in
    if is_interrupted op
    then record op {
      state = recovered;
      phase = "rolled_back_after_manager_restart";
      recovery = true;
    }
      ∷ ops
    else op ∷ rest

-- `recoverInterruptedOperations`; a node whose lock has an owner that is found alive is left out.
unfoldable pub recover_interrupted : Bool → M (Unit {0})
unfolding write cut_off_all return
recover_interrupted owner_alive =
    if owner_alive then return tt else write (λ w. record w { history = cut_off_all w.history })

unfoldable pub find_cutover : M (Option Cutover)
unfolding interrupted
find_cutover w = (ok (interrupted w.history), w)

unfoldable pub is_complete : Cutover → Bool
is_complete c =
    ltb c.from_generation (2 ^ 53) && not (str_eq c.from_volume "") && not (str_eq c.from_schema "")

-- The record as it was before the cutover.
unfoldable pub reinstate : Cutover → M (Unit {0})
unfolding amend_node wants_running
reinstate c = amend_node (λ n. record n {
  generation = c.from_generation;
  schema_revision = c.from_schema;
  phase = if wants_running n then NodePhase.starting else NodePhase.stopped;
})

unfoldable pub resume_wanted : M (Unit {0})
unfolding ◌>>=◌ this_node wants_running bring_up return
resume_wanted =
    this_node >>= λ n. if wants_running n then (bring_up >>= λ s. return tt) else return tt

unfoldable pub record_recovery : M (Unit {0})
unfolding write mark_recovered
record_recovery = write (λ w. record w { history = mark_recovered w.history })

unfoldable pub roll_back_cutover : HostLibrary → Cutover → M (Unit {0})
unfolding ◌>>=◌ attempt call read_env require write_volume reinstate resume_wanted record_recovery
roll_back_cutover lib c = do
  attempt call
  env ← read_env
  require (str_eq (lib.digest c.from_volume env.1) c.env_sha256)
  write_volume c.from_volume
  reinstate c
  resume_wanted
  record_recovery

-- `reconcileInterruptedCutovers`
unfoldable pub reconcile : HostLibrary → Option Cutover → M (Unit {0})
unfolding return catch roll_back_cutover set_phase is_complete
reconcile lib none = return tt
reconcile lib (some c) =
    if is_complete c
    then catch (roll_back_cutover lib c) (set_phase NodePhase.failed)
    else return tt

-- `initialize` with the recovery of what was interrupted, by whether the process that `owner.json` of
-- the node's lock names is found alive.
unfoldable pub restart : HostLibrary → Bool → M (Unit {0})
unfolding ◌>>=◌ recover_interrupted find_cutover reconcile
restart lib owner_alive = do recover_interrupted owner_alive; c ← find_cutover; reconcile lib c
