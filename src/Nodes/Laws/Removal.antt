-- ===== src/Nodes/Laws/Removal.antt =====
-- Which nodes addNode and removeNode leave in the registry (apps/manager/src/state.ts).
use neuromem.Prelude.{
  String, true, false, not, ◌≡◌, ◌<◌, refl, Option, none, some, List, [], ◌∷◌, length, keep,
  all-keep, length-keep-le, includes, Distinct, str_eq, str_eq_iff, str_eq_self, arith, Bool-cases,
  inl, inr, if◌then◌else◌, ◌==◌,
}
use neuromem.Nodes.State.{
  NodeRecord, RegistryFile, done, ids_of, aliases_of, projects_of, has_project, known_default,
}
use neuromem.Nodes.Mutations.{StateStore, current, is_default, remove_from, remove_node, first_id}
use neuromem.Nodes.Valid.{IsRegistry}
use neuromem.Nodes.Laws.Registered.{mutate_registry-accepted}

abbrev others : String → List NodeRecord → List NodeRecord
others id nodes = keep (λ n. not (str_eq n.node_id id)) nodes

includes-ids_of-others :
    (id i : String) (nodes : List NodeRecord)
    → includes (ids_of (others id nodes)) i
      ≡ (if str_eq id i then false else includes (ids_of nodes) i)
unfolding keep ids_of includes
includes-ids_of-others id i [] = ground arith
includes-ids_of-others id i (n ∷ ns) = ground (
  arith,
  includes-ids_of-others id i ns,
  str_eq_iff n.node_id id,
  str_eq_iff n.node_id i,
  str_eq_iff id i,
)

includes-aliases_of-others :
    (id a : String) (nodes : List NodeRecord)
    → includes (aliases_of nodes) a ≡ false
    → includes (aliases_of (others id nodes)) a ≡ false
unfolding keep aliases_of includes
includes-aliases_of-others id a [] h = h
includes-aliases_of-others id a (n ∷ ns) h = ground (arith, includes-aliases_of-others id a ns)

includes-projects_of-others :
    (id a : String) (nodes : List NodeRecord)
    → includes (projects_of nodes) a ≡ false
    → includes (projects_of (others id nodes)) a ≡ false
unfolding keep projects_of includes
includes-projects_of-others id a [] h = h
includes-projects_of-others id a (n ∷ ns) h = ground (arith, includes-projects_of-others id a ns)

others-Distinct :
    (id : String) (nodes : List NodeRecord)
    → Distinct (ids_of nodes)
    → Distinct (aliases_of nodes)
    → Distinct (projects_of nodes)
    → Distinct (ids_of (others id nodes))
      × Distinct (aliases_of (others id nodes))
      × Distinct (projects_of (others id nodes))
unfolding keep ids_of aliases_of projects_of
others-Distinct id [] i a p = (tt, tt, tt)
others-Distinct id (n ∷ ns) i a p = ground (
  arith,
  others-Distinct id ns,
  includes-ids_of-others id n.node_id ns,
  includes-aliases_of-others id n.alias ns,
  includes-projects_of-others id n.compose_project ns,
)

length-others :
    (id : String) (nodes : List NodeRecord)
    → includes (ids_of nodes) id ≡ true
    → length (others id nodes) < length nodes
unfolding keep ids_of includes
length-others id [] h = ground arith
length-others id (n ∷ ns) h =
    ground (arith, length-others id ns, length-keep-le (λ m. not (str_eq m.node_id id)) ns)

known_default-first_id :
    (nodes : List NodeRecord) → known_default (first_id nodes) (ids_of nodes) ≡ true
unfolding known_default ids_of includes
known_default-first_id [] = refl
known_default-first_id (n ∷ ns) = ground (arith, str_eq_self n.node_id)

-- The default after the removal is one of the nodes that are left.
default-others :
    (id : String) (default : Option String) (nodes : List NodeRecord)
    → known_default default (ids_of nodes) ≡ true
    → known_default
        (if is_default default id then first_id (others id nodes) else default)
        (ids_of (others id nodes))
      ≡ true
unfolding known_default is_default
default-others id none nodes h = refl
default-others id (some d) nodes h = elim (Bool-cases (str_eq d id)) [
  | inl e ↦ rw e (known_default-first_id (others id nodes))
  | inr n ↦
      rw n (ground (arith, includes-ids_of-others id d nodes, str_eq_iff d id, str_eq_iff id d))
]

abbrev remaining : String → RegistryFile → RegistryFile
remaining id r = record r {
  nodes = others id r.nodes;
  default_node_id =
      if is_default r.default_node_id id then first_id (others id r.nodes) else r.default_node_id;
}

remaining-IsRegistry : (id : String) (r : RegistryFile) → IsRegistry r → IsRegistry (remaining id r)
remaining-IsRegistry id r v =
    let (i, a, p) = others-Distinct id r.nodes v.ids v.aliases v.projects in
    record {
      format = v.format;
      ids = i;
      aliases = a;
      projects = p;
      named = all-keep has_project (λ n. not (str_eq n.node_id id)) r.nodes v.named;
      default = default-others id r.default_node_id r.nodes v.default;
    }

remove_from_lem :
    (id : String) (r : RegistryFile)
    → includes (ids_of r.nodes) id ≡ true
    → remove_from id r ≡ done (remaining id r)
unfolding remove_from
remove_from_lem id r h =
    let shorter : (length (others id r.nodes) == length r.nodes) ≡ false =
      ground (arith, length-others id r.nodes h) in
    rw shorter refl

-- Removing a node of a well-formed registry always succeeds: the registry is written, stays well formed, and
-- has exactly the other nodes, as they were. Whatever node was the default, the default is absent
-- or one of those.
pub remove_node-Removed :
    (id : String) (s : StateStore)
    → IsRegistry (current s)
    → includes (ids_of (current s).nodes) id ≡ true
    → (r : RegistryFile) × (remove_node id s ≡ (done r, record s { registry = some r }))
      × IsRegistry r
      × (r.nodes ≡ keep (λ n. not (str_eq n.node_id id)) (current s).nodes)
      × (includes (ids_of r.nodes) id ≡ false)
unfolding remove_node
remove_node-Removed id s v h =
    let r = remaining id (current s) in
    let valid = remaining-IsRegistry id (current s) v in
    (
      r,
      mutate_registry-accepted (remove_from id) s r v (remove_from_lem id (current s) h) valid,
      valid,
      refl,
      ground (arith, includes-ids_of-others id id (current s).nodes, str_eq_self id),
    )
