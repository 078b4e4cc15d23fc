-- ===== src/Nodes/Mutations.antt =====
-- addNode, updateNode, removeNode, findNode and defaultNode of StateStore, with `mutateRegistry`
-- and initialize (apps/manager/src/state.ts). Mutations run one after the other. The registry's
-- file is `none` before the first start; directories and their modes have no place here.
use neuromem.Prelude.{
  ℕ, String, Bool, true, false, not, ◌||◌, Option, none, some, List, [], ◌∷◌, ◌++◌, length, keep,
  any, find, str_eq, ◌==◌, if◌then◌else◌, get_or_else,
}
use neuromem.Nodes.State.{
  NodeRecord, RegistryFile, NodeError, unknown_node, uuid_exists, alias_exists, Outcome, done,
  refused, empty_registry, validate_registry,
}

-- The registry's file and the node.json of each node's directory.
pub record StateStore : Type 0 where
  pub registry : Option RegistryFile
  pub snapshots : List (String × NodeRecord)

-- The registry after initialize.
abbrev pub current : StateStore → RegistryFile
current s = get_or_else s.registry empty_registry

unfoldable pub initialize : StateStore → StateStore
initialize s = record s { registry = some (current s) }

unfoldable pub validated : Option NodeError → RegistryFile → Outcome RegistryFile
validated none r = done r
validated (some e) r = refused e

-- `registry()`
unfoldable pub read_registry : StateStore → Outcome RegistryFile
unfolding validated
read_registry s = validated (validate_registry (current s)) (current s)

unfoldable pub no_default : Option String → Bool
no_default none = true
no_default (some id) = str_eq id ""

-- The mutation of addNode.
unfoldable pub add_to : NodeRecord → Bool → RegistryFile → Outcome RegistryFile
unfolding any no_default
add_to node make_default r =
    if any (λ c. str_eq c.node_id node.node_id) r.nodes
    then refused uuid_exists
    else if any (λ c. str_eq c.alias node.alias) r.nodes
    then refused alias_exists
    else done (record r {
      nodes = r.nodes ++ node ∷ [];
      default_node_id =
          if make_default || no_default r.default_node_id
          then some node.node_id
          else r.default_node_id;
    })

-- `update(node)`, then the time; `update` is the caller's.
unfoldable pub update_first :
    String → (NodeRecord → NodeRecord) → ℕ → List NodeRecord → List NodeRecord
update_first id update now [] = []
update_first id update now (n ∷ ns) =
    let rest = update_first id update now ns in
    if str_eq n.node_id id then record (update n) { updated_at = now } ∷ ns else n ∷ rest

-- The mutation of updateNode.
unfoldable pub update_in :
    String → (NodeRecord → NodeRecord) → ℕ → RegistryFile → Outcome RegistryFile
unfolding any update_first
update_in id update now r =
    if any (λ c. str_eq c.node_id id) r.nodes
    then done (record r { nodes = update_first id update now r.nodes })
    else refused unknown_node

abbrev pub first_id : List NodeRecord → Option String
first_id [] = none
first_id (n ∷ ns) = if str_eq n.node_id "" then none else some n.node_id

unfoldable pub is_default : Option String → String → Bool
is_default none id = false
is_default (some d) id = str_eq d id

-- The mutation of removeNode.
unfoldable pub remove_from : String → RegistryFile → Outcome RegistryFile
unfolding keep is_default
remove_from id r =
    let rest = keep (λ n. not (str_eq n.node_id id)) r.nodes in
    if length rest == length r.nodes
    then refused unknown_node
    else done (record r {
      nodes = rest;
      default_node_id =
          if is_default r.default_node_id id then first_id rest else r.default_node_id;
    })

unfoldable pub write_registry :
    StateStore → Outcome RegistryFile → Outcome RegistryFile × StateStore
write_registry s (refused e) = (refused e, s)
write_registry s (done r) = (done r, record s { registry = some r })

-- The result is validated before it is written.
unfoldable pub commit : StateStore → Outcome RegistryFile → Outcome RegistryFile × StateStore
unfolding validated write_registry
commit s (refused e) = (refused e, s)
commit s (done r) = write_registry s (validated (validate_registry r) r)

unfoldable pub mutate_with :
    (RegistryFile → Outcome RegistryFile)
    → StateStore
    → Outcome RegistryFile
    → Outcome RegistryFile × StateStore
unfolding commit
mutate_with mutation s (refused e) = (refused e, s)
mutate_with mutation s (done r) = commit s (mutation r)

-- `mutateRegistry`, with the registry that it has written.
unfoldable pub mutate_registry :
    (RegistryFile → Outcome RegistryFile) → StateStore → Outcome RegistryFile × StateStore
unfolding initialize mutate_with read_registry
mutate_registry mutation s = mutate_with mutation (initialize s) (read_registry s)

unfoldable pub write_snapshot : NodeRecord → StateStore → StateStore
write_snapshot n s = record s {
  snapshots = (n.node_id, n) ∷ keep (λ f. not (str_eq f.0 n.node_id)) s.snapshots;
}

-- The snapshot that follows a mutation, of the node where there is one.
unfoldable pub with_snapshot :
    (RegistryFile → Option NodeRecord)
    → Outcome RegistryFile × StateStore
    → Outcome (Option NodeRecord) × StateStore
unfolding write_snapshot
with_snapshot pick (refused e, s) = (refused e, s)
with_snapshot pick (done r, s) = elim (pick r) [
  | none ↦ (done none, s)
  | some n ↦ (done (some n), write_snapshot n s)
]

-- The node at the place of the one that was updated.
unfoldable pub updated :
    String → (NodeRecord → NodeRecord) → ℕ → List NodeRecord → Option NodeRecord
unfolding find
updated id update now nodes = elim (find (λ c. str_eq c.node_id id) nodes) [
  | none ↦ none
  | some n ↦ some (record (update n) { updated_at = now })
]

unfoldable pub add_node : NodeRecord → Bool → StateStore → Outcome (Option NodeRecord) × StateStore
unfolding mutate_registry with_snapshot
add_node node make_default s =
    with_snapshot (λ r. some node) (mutate_registry (add_to node make_default) s)

unfoldable pub update_node :
    String → (NodeRecord → NodeRecord) → ℕ → StateStore → Outcome (Option NodeRecord) × StateStore
unfolding mutate_registry with_snapshot
update_node id update now s =
    with_snapshot (λ r. updated id update now (current s).nodes)
      (mutate_registry (update_in id update now) s)

unfoldable pub remove_node : String → StateStore → Outcome RegistryFile × StateStore
unfolding mutate_registry
remove_node id s = mutate_registry (remove_from id) s

abbrev selected : Option NodeRecord → Outcome NodeRecord
selected none = refused unknown_node
selected (some n) = done n

-- findNode
unfoldable pub find_node : String → StateStore → Outcome NodeRecord
unfolding read_registry find
find_node selector s = elim (read_registry s) [
  | refused e ↦ refused e
  | done r ↦ selected (find (λ c. str_eq c.node_id selector || str_eq c.alias selector) r.nodes)
]

-- defaultNode
unfoldable pub default_node : StateStore → Outcome (Option NodeRecord)
unfolding read_registry find
default_node s = elim (read_registry s) [
  | refused e ↦ refused e
  | done r ↦ elim r.default_node_id [
    | none ↦ done none
    | some id ↦ if str_eq id "" then done none else done (find (λ c. str_eq c.node_id id) r.nodes)
  ]
]
