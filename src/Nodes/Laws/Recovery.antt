-- ===== src/Nodes/Laws/Recovery.antt =====
-- What a restart of the manager leaves of the operations (apps/manager/src/state.ts).
use neuromem.Prelude.{
  ℕ, ◌+◌, String, Bool, false, ◌≡◌, ◌&&◌, refl, List, [], ◌∷◌, arith, length, keep, any, not,
  str_eq, str_eq_iff, includes, if◌then◌else◌,
}
use neuromem.Nodes.State.{NodeRecord, ids_of}
use neuromem.Nodes.Operations.{
  OperationRecord, patched, is_running, recover_node, recover_operations,
}

-- Whether the operation of a node is still running.
abbrev pub runs_on : String → OperationRecord → Bool
runs_on id op = str_eq op.node_id id && is_running op

recover_node_count :
    (id : String) (now : ℕ) (ops : List OperationRecord)
    → (recover_node id now ops).0 + length (keep is_running (recover_node id now ops).1)
      ≡ length (keep is_running ops)
unfolding recover_node keep is_running patched
recover_node_count id now [] = refl
recover_node_count id now (op ∷ ops) = ground (arith, recover_node_count id now ops)

recover_node-runs_on :
    (id other : String) (now : ℕ) (ops : List OperationRecord)
    → any (runs_on other) (recover_node id now ops).1
      ≡ (if str_eq id other then false else any (runs_on other) ops)
unfolding recover_node any is_running patched
recover_node-runs_on id other now [] = ground arith
recover_node-runs_on id other now (op ∷ ops) = ground (
  arith,
  recover_node-runs_on id other now ops,
  str_eq_iff op.node_id id,
  str_eq_iff op.node_id other,
  str_eq_iff id other,
)

recover_operations_count :
    (owned : String → Bool) (now : ℕ) (nodes : List NodeRecord) (ops : List OperationRecord)
    → (recover_operations owned now nodes ops).0
        + length (keep is_running (recover_operations owned now nodes ops).1)
      ≡ length (keep is_running ops)
unfolding recover_operations
recover_operations_count owned now [] ops = omega arith
recover_operations_count owned now (n ∷ ns) ops = ground (
  arith,
  recover_node_count n.node_id now ops,
  recover_operations_count owned now ns ops,
  recover_operations_count owned now ns (recover_node n.node_id now ops).1,
)

recover_operations-runs_on :
    (owned : String → Bool) (now : ℕ) (nodes : List NodeRecord) (ops : List OperationRecord)
    (id : String)
    → any (runs_on id) (recover_operations owned now nodes ops).1
      ≡ (if includes (ids_of nodes) id && not (owned id) then false else any (runs_on id) ops)
unfolding recover_operations ids_of includes
recover_operations-runs_on owned now [] ops id = ground arith
recover_operations-runs_on owned now (n ∷ ns) ops id = ground (
  arith,
  recover_node-runs_on n.node_id id now ops,
  recover_operations-runs_on owned now ns ops id,
  recover_operations-runs_on owned now ns (recover_node n.node_id now ops).1 id,
  str_eq_iff n.node_id id,
)

-- After a restart no operation runs on a node of the registry unless the node's lock has a living
-- owner; the other nodes' operations run on as before, and the count that is returned is the
-- number of operations that ceased to run.
pub recover_operations-Settled :
    (owned : String → Bool) (now : ℕ) (nodes : List NodeRecord) (ops : List OperationRecord)
    → ((recover_operations owned now nodes ops).0
          + length (keep is_running (recover_operations owned now nodes ops).1)
        ≡ length (keep is_running ops))
      × ((id : String)
          → any (runs_on id) (recover_operations owned now nodes ops).1 ≡ (
              if includes (ids_of nodes) id && not (owned id) then false else any (runs_on id) ops))
recover_operations-Settled owned now nodes ops = (
  recover_operations_count owned now nodes ops,
  λ id. recover_operations-runs_on owned now nodes ops id,
)
