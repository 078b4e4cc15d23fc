-- ===== src/Nodes/Laws/Addition.antt =====
-- Which nodes addNode accepts (apps/manager/src/state.ts).
use neuromem.Prelude.{
  String, Bool, true, false, not, ◌&&◌, ◌||◌, ◌≡◌, refl, Option, none, some, List, [], ◌∷◌, ◌++◌,
  any, all, all-append, includes, Distinct, str_eq, str_eq_iff, str_eq_self, arith, if◌then◌else◌,
}
use neuromem.Nodes.State.{
  NodeRecord, RegistryFile, done, ids_of, aliases_of, projects_of, has_project, known_default,
}
use neuromem.Nodes.Mutations.{
  StateStore, current, no_default, add_to, add_node, with_snapshot, write_snapshot,
}
use neuromem.Nodes.Valid.{IsRegistry}
use neuromem.Nodes.Laws.Registered.{mutate_registry-accepted}

includes-ids_of-snoc :
    (nodes : List NodeRecord) (node : NodeRecord) (i : String)
    → includes (ids_of (nodes ++ node ∷ [])) i
      ≡ (includes (ids_of nodes) i || str_eq node.node_id i)
unfolding ids_of includes
includes-ids_of-snoc [] node i = ground arith
includes-ids_of-snoc (n ∷ ns) node i = ground (arith, includes-ids_of-snoc ns node i)

includes-aliases_of-snoc :
    (nodes : List NodeRecord) (node : NodeRecord) (i : String)
    → includes (aliases_of (nodes ++ node ∷ [])) i
      ≡ (includes (aliases_of nodes) i || str_eq node.alias i)
unfolding aliases_of includes
includes-aliases_of-snoc [] node i = ground arith
includes-aliases_of-snoc (n ∷ ns) node i = ground (arith, includes-aliases_of-snoc ns node i)

includes-projects_of-snoc :
    (nodes : List NodeRecord) (node : NodeRecord) (i : String)
    → includes (projects_of (nodes ++ node ∷ [])) i
      ≡ (includes (projects_of nodes) i || str_eq node.compose_project i)
unfolding projects_of includes
includes-projects_of-snoc [] node i = ground arith
includes-projects_of-snoc (n ∷ ns) node i = ground (arith, includes-projects_of-snoc ns node i)

-- The node is new by all three names, and its Compose project is the one of its id.
abbrev pub addable : NodeRecord → RegistryFile → Bool
addable node r =
    not (includes (ids_of r.nodes) node.node_id)
    && not (includes (aliases_of r.nodes) node.alias)
    && not (includes (projects_of r.nodes) node.compose_project)
    && has_project node

snoc-Distinct :
    (nodes : List NodeRecord) (node : NodeRecord)
    → Distinct (ids_of nodes)
    → Distinct (aliases_of nodes)
    → Distinct (projects_of nodes)
    → includes (ids_of nodes) node.node_id ≡ false
    → includes (aliases_of nodes) node.alias ≡ false
    → includes (projects_of nodes) node.compose_project ≡ false
    → Distinct (ids_of (nodes ++ node ∷ []))
      × Distinct (aliases_of (nodes ++ node ∷ []))
      × Distinct (projects_of (nodes ++ node ∷ []))
unfolding ids_of aliases_of projects_of includes
snoc-Distinct [] node i a p x y z = ((refl, tt), (refl, tt), (refl, tt))
snoc-Distinct (n ∷ ns) node i a p x y z = ground (
  arith,
  snoc-Distinct ns node,
  includes-ids_of-snoc ns node n.node_id,
  includes-aliases_of-snoc ns node n.alias,
  includes-projects_of-snoc ns node n.compose_project,
  str_eq_iff n.node_id node.node_id,
  str_eq_iff n.alias node.alias,
  str_eq_iff n.compose_project node.compose_project,
  str_eq_iff node.node_id n.node_id,
  str_eq_iff node.alias n.alias,
  str_eq_iff node.compose_project n.compose_project,
)

any-ids_of :
    (id : String) (nodes : List NodeRecord)
    → any (λ c. str_eq c.node_id id) nodes ≡ includes (ids_of nodes) id
unfolding any ids_of includes
any-ids_of id [] = refl
any-ids_of id (n ∷ ns) = ground (arith, any-ids_of id ns)

any-aliases_of :
    (a : String) (nodes : List NodeRecord)
    → any (λ c. str_eq c.alias a) nodes ≡ includes (aliases_of nodes) a
unfolding any aliases_of includes
any-aliases_of a [] = refl
any-aliases_of a (n ∷ ns) = ground (arith, any-aliases_of a ns)

abbrev extended : NodeRecord → Bool → RegistryFile → RegistryFile
extended node make_default r = record r {
  nodes = r.nodes ++ node ∷ [];
  default_node_id =
      if make_default || no_default r.default_node_id then some node.node_id else r.default_node_id;
}

default-extended :
    (node : NodeRecord) (make_default : Bool) (default : Option String) (nodes : List NodeRecord)
    → known_default default (ids_of nodes) ≡ true
    → known_default
        (if make_default || no_default default then some node.node_id else default)
        (ids_of (nodes ++ node ∷ []))
      ≡ true
unfolding known_default no_default
default-extended node make_default none nodes h =
    ground (arith, includes-ids_of-snoc nodes node node.node_id, str_eq_self node.node_id)
default-extended node make_default (some d) nodes h = ground (
  arith,
  includes-ids_of-snoc nodes node node.node_id,
  includes-ids_of-snoc nodes node d,
  str_eq_self node.node_id,
)

extended-IsRegistry :
    (node : NodeRecord) (make_default : Bool) (r : RegistryFile)
    → IsRegistry r
    → addable node r ≡ true
    → IsRegistry (extended node make_default r)
unfolding all
extended-IsRegistry node make_default r v h =
    let (i, a, p) =
      snoc-Distinct r.nodes node v.ids v.aliases v.projects (ground arith) (ground arith)
        (ground arith) in
    record {
      format = v.format;
      ids = i;
      aliases = a;
      projects = p;
      named = ground (arith, all-append has_project r.nodes (node ∷ []), v.named);
      default = default-extended node make_default r.default_node_id r.nodes v.default;
    }

add_to_lem :
    (node : NodeRecord) (make_default : Bool) (r : RegistryFile)
    → addable node r ≡ true
    → add_to node make_default r ≡ done (extended node make_default r)
unfolding add_to
add_to_lem node make_default r h =
    ground (arith, any-ids_of node.node_id r.nodes, any-aliases_of node.alias r.nodes)

-- In a well-formed registry a node that is new by its id, alias and Compose project, where the
-- project is that of the id, is always accepted: it comes after the nodes that were there, its snapshot is written, and it is
-- the default if that was asked for or there was none.
pub add_node-Added :
    (node : NodeRecord) (make_default : Bool) (s : StateStore)
    → IsRegistry (current s)
    → addable node (current s) ≡ true
    → (r : RegistryFile) × IsRegistry r
      × (add_node node make_default s
          ≡ (done (some node), write_snapshot node (record s { registry = some r })))
      × (r.nodes ≡ (current s).nodes ++ node ∷ [])
      × (r.default_node_id ≡ (
          if make_default || no_default (current s).default_node_id
          then some node.node_id
          else (current s).default_node_id))
unfolding add_node with_snapshot
add_node-Added node make_default s v h =
    let r = extended node make_default (current s) in
    let valid = extended-IsRegistry node make_default (current s) v h in
    (
      r,
      valid,
      rw
          (mutate_registry-accepted (add_to node make_default) s r v
            (add_to_lem node make_default (current s) h) valid)
          refl,
      refl,
      refl,
    )
