-- ===== src/Nodes/Operations.antt =====
-- The operation records of the nodes (apps/manager/src/state.ts): beginOperation, updateOperation,
-- operations and recoverInterruptedOperations. The list has the files of all nodes' directories,
-- each in its place; a file that cannot be read has no place here.
use neuromem.Prelude.{
  ℕ, ◌+◌, String, Bool, true, false, ◌&&◌, Option, none, some, List, [], ◌∷◌, keep, str_eq, leb,
  if◌then◌else◌, get_or_else,
}
use neuromem.Json.{Json}
use neuromem.Nodes.State.{NodeRecord}

pub data OperationKind : Type 0 where
  create start stop restart backup backup_verify restore_plan restore_apply : OperationKind
  migrate_plan migrate_apply migrate_verify models_configure delete : OperationKind

pub data OperationState : Type 0 where
  running succeeded failed recovered needs_attention : OperationState

pub record OperationRecord : Type 0 where
  pub operation_id : String
  pub node_id : String
  pub kind : OperationKind
  pub state : OperationState
  pub phase : String
  pub started_at : ℕ
  pub updated_at : ℕ
  pub completed_at : Option ℕ
  pub error : Option String
  pub result : Option Json

-- `Partial<OperationRecord>`, less the fields that updateOperation puts back.
pub record OperationPatch : Type 0 where
  pub state : Option OperationState
  pub phase : Option String
  pub completed_at : Option ℕ
  pub error : Option String
  pub result : Option Json

unfoldable pub is_file : OperationRecord → OperationRecord → Bool
is_file a b = str_eq a.node_id b.node_id && str_eq a.operation_id b.operation_id

-- `writeOperation`
unfoldable pub write_operation : OperationRecord → List OperationRecord → List OperationRecord
unfolding is_file
write_operation op [] = op ∷ []
write_operation op (x ∷ xs) =
    let rest = write_operation op xs in if is_file op x then op ∷ xs else x ∷ rest

-- beginOperation; `id` is what randomUUID gives.
unfoldable pub begin_operation :
    String
    → String
    → OperationKind
    → String
    → ℕ
    → List OperationRecord
    → OperationRecord × List OperationRecord
unfolding write_operation
begin_operation id node_id kind phase now ops =
    let op : OperationRecord = record {
      operation_id = id;
      node_id = node_id;
      kind = kind;
      state = running;
      phase = phase;
      started_at = now;
      updated_at = now;
      completed_at = none;
      error = none;
      result = none;
    } in
    (op, write_operation op ops)

abbrev or_old {ℓ} : {A : Type ℓ} → Option A → Option A → Option A
or_old none old = old
or_old (some a) old = some a

unfoldable pub patched : OperationRecord → OperationPatch → ℕ → OperationRecord
patched op patch now = record op {
  state = get_or_else patch.state op.state;
  phase = get_or_else patch.phase op.phase;
  completed_at = or_old patch.completed_at op.completed_at;
  error = or_old patch.error op.error;
  result = or_old patch.result op.result;
  updated_at = now;
}

-- updateOperation
unfoldable pub update_operation :
    OperationRecord
    → OperationPatch
    → ℕ
    → List OperationRecord
    → OperationRecord × List OperationRecord
unfolding patched write_operation
update_operation op patch now ops =
    let next = patched op patch now in (next, write_operation next ops)

unfoldable pub is_running : OperationRecord → Bool
is_running op = elim op.state [ OperationState.running ↦ true | _ ↦ false ]

abbrev restarted : ℕ → OperationPatch
restarted now = record {
  state = some needs_attention;
  phase = some "manager_restarted";
  completed_at = some now;
  error =
      some "The Node Manager restarted during this operation; it was not replayed automatically";
  result = none;
}

abbrev counted : ℕ × List OperationRecord → ℕ → OperationRecord → ℕ × List OperationRecord
counted (n, ops) k op = (k + n, op ∷ ops)

-- The loop over the files of one node; each operation that runs is written back to its file.
unfoldable pub recover_node : String → ℕ → List OperationRecord → ℕ × List OperationRecord
unfolding is_running patched
recover_node id now [] = (0, [])
recover_node id now (op ∷ ops) =
    let rest = recover_node id now ops in
    if str_eq op.node_id id && is_running op
    then counted rest 1 (patched op (restarted now) now)
    else counted rest 0 op

abbrev added : ℕ → ℕ × List OperationRecord → ℕ × List OperationRecord
added k (n, ops) = (k + n, ops)

-- recoverInterruptedOperations on the nodes of the registry; `owned` tells whether the node's lock
-- has an owner that is alive.
unfoldable pub recover_operations :
    (String → Bool) → ℕ → List NodeRecord → List OperationRecord → ℕ × List OperationRecord
unfolding recover_node
recover_operations owned now [] ops = (0, ops)
recover_operations owned now (n ∷ ns) ops =
    let visited = recover_node n.node_id now ops in
    if owned n.node_id
    then recover_operations owned now ns ops
    else added visited.0 (recover_operations owned now ns visited.1)

unfoldable pub insert_operation : OperationRecord → List OperationRecord → List OperationRecord
insert_operation op [] = op ∷ []
insert_operation op (x ∷ xs) =
    if leb op.started_at x.started_at then op ∷ x ∷ xs else x ∷ insert_operation op xs

unfoldable pub sort_operations : List OperationRecord → List OperationRecord
unfolding insert_operation
sort_operations [] = []
sort_operations (op ∷ ops) = insert_operation op (sort_operations ops)

-- operations
unfoldable pub operations : String → List OperationRecord → List OperationRecord
unfolding sort_operations keep
operations id ops = sort_operations (keep (λ op. str_eq op.node_id id) ops)
