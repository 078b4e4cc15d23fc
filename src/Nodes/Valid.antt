-- ===== src/Nodes/Valid.antt =====
-- What a registry that `validateRegistry` accepts is (apps/manager/src/state.ts).
use neuromem.Prelude.{
  String, Bool, true, not, ◌&&◌, ◌≡◌, refl, none, List, [], ◌∷◌, arith, all, includes, Distinct,
  str_eq_iff, Option-cases, inl, inr,
}
use neuromem.Nodes.State.{
  NodeRecord, RegistryFile, ids_of, aliases_of, projects_of, has_project, validate_nodes,
  known_default, validate_registry,
}

-- Three names identify a node each, the Compose project follows from the id, and the default is
-- one of the nodes.
pub record IsRegistry (r : RegistryFile) : Type 0 where
  pub format : r.format ≡ 1
  pub ids : Distinct (ids_of r.nodes)
  pub aliases : Distinct (aliases_of r.nodes)
  pub projects : Distinct (projects_of r.nodes)
  pub named : all has_project r.nodes ≡ true
  pub default : known_default r.default_node_id (ids_of r.nodes) ≡ true

-- None of the texts is in the set.
unfoldable apart : List String → List String → Bool
apart seen [] = true
apart seen (x ∷ xs) = not (includes seen x) && apart seen xs

apart-cons :
    (y : String) (seen xs : List String)
    → apart (y ∷ seen) xs ≡ (apart seen xs && not (includes xs y))
unfolding apart includes
apart-cons y seen [] = refl
apart-cons y seen (x ∷ xs) = ground (arith, apart-cons y seen xs, str_eq_iff x y, str_eq_iff y x)

apart-nil : (xs : List String) → apart [] xs ≡ true
unfolding apart includes
apart-nil [] = refl
apart-nil (x ∷ xs) = ground (arith, apart-nil xs)

-- What the loop has checked when it ends.
abbrev Sound : List NodeRecord → List String → List String → List String → Type 0
Sound ns ids aliases projects =
    (apart ids (ids_of ns) ≡ true)
    × (apart aliases (aliases_of ns) ≡ true)
    × (apart projects (projects_of ns) ≡ true)
    × Distinct (ids_of ns)
    × Distinct (aliases_of ns)
    × Distinct (projects_of ns)
    × (all has_project ns ≡ true)

validate_nodes-Sound :
    (ns : List NodeRecord) (ids aliases projects : List String)
    → validate_nodes ns ids aliases projects ≡ none
    → Sound ns ids aliases projects
unfolding validate_nodes ids_of aliases_of projects_of all apart
validate_nodes-Sound [] ids aliases projects h = (refl, refl, refl, tt, tt, tt, refl)
validate_nodes-Sound (n ∷ ns) ids aliases projects h = ground (
  arith,
  validate_nodes-Sound ns (n.node_id ∷ ids) (n.alias ∷ aliases) (n.compose_project ∷ projects),
  apart-cons n.node_id ids (ids_of ns),
  apart-cons n.alias aliases (aliases_of ns),
  apart-cons n.compose_project projects (projects_of ns),
)

validate_nodes_complete :
    (ns : List NodeRecord) (ids aliases projects : List String)
    → Sound ns ids aliases projects
    → validate_nodes ns ids aliases projects ≡ none
unfolding validate_nodes ids_of aliases_of projects_of all apart
validate_nodes_complete [] ids aliases projects h = refl
validate_nodes_complete (n ∷ ns) ids aliases projects h = ground (
  arith,
  validate_nodes_complete ns (n.node_id ∷ ids) (n.alias ∷ aliases) (n.compose_project ∷ projects),
  apart-cons n.node_id ids (ids_of ns),
  apart-cons n.alias aliases (aliases_of ns),
  apart-cons n.compose_project projects (projects_of ns),
)

accepted-IsRegistry :
    (r : RegistryFile)
    → validate_registry r ≡ none
    → (validate_nodes r.nodes [] [] [] ≡ none) × IsRegistry r
unfolding validate_registry
accepted-IsRegistry r h = elim (Option-cases (validate_nodes r.nodes [] [] [])) [
  | inl e ↦
      let (_, _, _, i, a, p, named) = validate_nodes-Sound r.nodes [] [] [] e in
      (
        e,
        record {
          format = ground (arith);
          ids = i;
          aliases = a;
          projects = p;
          named = named;
          default = ground (arith, e);
        },
      )
  | inr (x, e) ↦ absurd (ground (arith, e))
]

-- `validateRegistry` accepts exactly the well-formed registries.
pub validate_registry_iff :
    (r : RegistryFile)
    → (validate_registry r ≡ none → IsRegistry r) × (IsRegistry r → validate_registry r ≡ none)
unfolding validate_registry
validate_registry_iff r = (
  (λ h. (accepted-IsRegistry r h).1),
  λ v.
      rw
        (
          v.format,
          validate_nodes_complete r.nodes [] [] []
              (apart-nil _, apart-nil _, apart-nil _, v.ids, v.aliases, v.projects, v.named),
          v.default,
        )
        refl,
)
