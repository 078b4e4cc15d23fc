-- ===== src/Nodes/State.antt =====
-- The node registry (apps/manager/src/state.ts, apps/manager/src/types.ts) and `validateRegistry`.
-- Times are milliseconds. A registry file that is not JSON has no place here.
use neuromem.Prelude.{
  ℕ, ◌+◌, String, Bool, true, not, ◌&&◌, ◌||◌, Option, none, some, List, [], ◌∷◌, ◌++◌, includes,
  str_eq, leb, ◌==◌, if◌then◌else◌, codes,
}
use neuromem.Json.Canonical.{same_text}
use neuromem.Ids.OccurredAt.{strip_dashes}

pub data DesiredState : Type 0 where
  running stopped : DesiredState

pub data NodePhase : Type 0 where
  stopped starting ready degraded maintenance failed : NodePhase

pub record NodePorts : Type 0 where
  pub api : ℕ
  pub dashboard : ℕ
  pub mcp : ℕ

pub record NodeRecord : Type 0 where
  pub node_id : String
  pub alias : String
  pub ports : NodePorts
  pub generation : ℕ
  pub desired_state : DesiredState
  pub phase : NodePhase
  pub compose_project : String
  pub schema_revision : String
  pub created_at : ℕ
  pub updated_at : ℕ

pub record RegistryFile : Type 0 where
  pub format : ℕ
  pub default_node_id : Option String
  pub nodes : List NodeRecord

pub data NodeError : Type 0 where
  unsupported_format duplicate_uuid duplicate_alias duplicate_project invalid_project : NodeError
  missing_default unknown_node uuid_exists alias_exists : NodeError

pub data Outcome {ℓ} (A : Type ℓ) : Type ℓ where
  done : A → Outcome A
  refused : NodeError → Outcome A

abbrev pub empty_registry : RegistryFile
empty_registry = record { format = 1; default_node_id = none; nodes = [] }

unfoldable pub ids_of : List NodeRecord → List String
ids_of [] = []
ids_of (n ∷ ns) = n.node_id ∷ ids_of ns

unfoldable pub aliases_of : List NodeRecord → List String
aliases_of [] = []
aliases_of (n ∷ ns) = n.alias ∷ aliases_of ns

unfoldable pub projects_of : List NodeRecord → List String
projects_of [] = []
projects_of (n ∷ ns) = n.compose_project ∷ projects_of ns

-- `toLowerCase()`; a node's id is ASCII.
lower_codes : List ℕ → List ℕ
lower_codes [] = []
lower_codes (c ∷ cs) = (if leb b'A' c && leb c b'Z' then c + 32 else c) ∷ lower_codes cs

expected_project : String → List ℕ
unfolding lower_codes strip_dashes
expected_project id = codes "neuromem-" ++ lower_codes (strip_dashes (codes id))

unfoldable pub has_project : NodeRecord → Bool
unfolding expected_project same_text
has_project n = same_text (codes n.compose_project) (expected_project n.node_id)

-- The loop of `validateRegistry` with its three sets; `none` is a loop that ends.
unfoldable pub validate_nodes :
    List NodeRecord → List String → List String → List String → Option NodeError
validate_nodes [] ids aliases projects = none
validate_nodes (n ∷ ns) ids aliases projects =
    let rest =
      validate_nodes ns (n.node_id ∷ ids) (n.alias ∷ aliases) (n.compose_project ∷ projects) in
    if includes ids n.node_id
    then some duplicate_uuid
    else if includes aliases n.alias
    then some duplicate_alias
    else if includes projects n.compose_project
    then some duplicate_project
    else if not (has_project n)
    then some invalid_project
    else rest

-- No default, or one of the ids; an empty text counts as no default.
unfoldable pub known_default : Option String → List String → Bool
known_default none ids = true
known_default (some id) ids = str_eq id "" || includes ids id

-- `validateRegistry`: what it throws, if anything.
unfoldable pub validate_registry : RegistryFile → Option NodeError
unfolding validate_nodes known_default
validate_registry r =
    if not (r.format == 1)
    then some unsupported_format
    else elim (validate_nodes r.nodes [] [] []) [
      | some e ↦ some e
      | none ↦
          if known_default r.default_node_id (ids_of r.nodes) then none else some missing_default
    ]
