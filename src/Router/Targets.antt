-- ===== src/Router/Targets.antt =====
-- The router's configuration and the checks of its arguments: the constructor, `#selectTargets`,
-- targetsFor, `#scopeFor`, `#limit` and `#retryLimit` (apps/mcp/src/router.ts).
use Prim.Native.String
use neuromem.Prelude.{
  ℕ, String, Bool, true, ◌&&◌, ◌||◌, ◌≡◌, Option, none, some, List, [], ◌∷◌, arith, any, find,
  includes, unique, Distinct, includes-unique, Distinct-unique, str_eq, str_eq_iff, ◌≢◌, leb, ltb,
  if◌then◌else◌, get_or_else,
}
use neuromem.Json.{Number}

pub record MemoryScope : Type 0 where
  pub workspace_id : String
  pub project_id : String

-- `scopeMap` by the logical project's id in lower case.
pub record CoreNodeConfig : Type 0 where
  pub id : String
  pub token : Option String
  pub scope_map : List (String × MemoryScope)

pub data TargetError : Type 0 where
  no_nodes weak_token no_target unknown_target unavailable_target bad_limit : TargetError

pub data Checked {ℓ} (A : Type ℓ) : Type ℓ where
  accepted : A → Checked A
  denied : TargetError → Checked A

abbrev pub node_ids : List CoreNodeConfig → List String
node_ids [] = []
node_ids (n ∷ ns) = n.id ∷ node_ids ns

-- `!requested || requested.length === 0` falls back to the defaults.
abbrev pub chosen : Option (List String) → List String → List String
chosen none defaults = defaults
chosen (some []) defaults = defaults
chosen (some (t ∷ ts)) defaults = t ∷ ts

unfoldable pub all_known : List String → List String → Bool
all_known nodes [] = true
all_known nodes (t ∷ ts) = includes nodes t && all_known nodes ts

-- `#selectTargets`, from the selected set on.
unfoldable pub check_targets : List CoreNodeConfig → List String → Checked (List String)
unfolding all_known
check_targets nodes [] = denied no_target
check_targets nodes (t ∷ ts) =
    if all_known (node_ids nodes) (t ∷ ts) then accepted (t ∷ ts) else denied unknown_target

-- `#selectTargets`
unfoldable pub select_targets :
    List CoreNodeConfig → Option (List String) → List String → Checked (List String)
unfolding check_targets
select_targets nodes requested defaults = check_targets nodes (unique (chosen requested defaults))

-- targetsFor
unfoldable pub targets_for : List CoreNodeConfig → Option String → Checked (Option (List String))
unfolding all_known
targets_for nodes none = accepted none
targets_for nodes (some target) =
    let requested = if str_eq target "all" then node_ids nodes else target ∷ [] in
    if all_known (node_ids nodes) requested
    then accepted (some requested)
    else denied unavailable_target

abbrev find_node : String → List CoreNodeConfig → Option CoreNodeConfig
find_node target nodes = find (λ n. str_eq n.id target) nodes

unfoldable pub find_scope : String → List (String × MemoryScope) → Option MemoryScope
find_scope project [] = none
find_scope project ((p, s) ∷ m) = if str_eq p project then some s else find_scope project m

-- `#scopeFor`; `lower` is the logical project's id in lower case.
unfoldable pub scope_for : List CoreNodeConfig → String → String → MemoryScope → MemoryScope
unfolding find_scope find
scope_for nodes target lower logical = elim (find_node target nodes) [
  | none ↦ logical
  | some n ↦ get_or_else (find_scope lower n.scope_map) logical
]

-- `Number.isInteger(parsed) && 1 <= parsed <= maximum` for a value that is a number or absent.
unfoldable pub bounded_integer : ℕ → ℕ → Option Number → Checked ℕ
bounded_integer maximum default none = accepted default
bounded_integer maximum default (some (Number.nat n)) =
    if leb 1 n && leb n maximum then accepted n else denied bad_limit
bounded_integer maximum default (some (Number.minus n)) = denied bad_limit
bounded_integer maximum default (some (Number.fraction s)) = denied bad_limit

-- `#limit` and `#retryLimit`
unfoldable pub limit : Option Number → Checked ℕ
unfolding bounded_integer
limit value = bounded_integer 50 10 value

unfoldable pub retry_limit : Option Number → Checked ℕ
unfolding bounded_integer
retry_limit value = bounded_integer 1000 100 value

weak_token_of : CoreNodeConfig → Bool
weak_token_of n = elim n.token [ none ↦ true | some t ↦ str_eq t "" || ltb (String.len t) 32 ]

-- The constructor's checks, with the default targets that it settles on.
unfoldable pub configure :
    List CoreNodeConfig
    → Option (List String)
    → Option (List String)
    → Checked (List String × List String)
unfolding weak_token_of any
configure [] reads writes = denied no_nodes
configure (n ∷ ns) reads writes =
    let read = get_or_else reads (n.id ∷ []) in
    let write = get_or_else writes (n.id ∷ []) in
    if any weak_token_of (n ∷ ns)
    then denied weak_token
    else elim (select_targets (n ∷ ns) (some read) []) [
      | denied e ↦ denied e
      | accepted _ ↦ elim (select_targets (n ∷ ns) (some write) []) [
        | denied e ↦ denied e
        | accepted _ ↦ accepted (read, write)
      ]
    ]

all_known-includes :
    (nodes ts : List String) (t : String)
    → all_known nodes ts ≡ true
    → includes ts t ≡ true
    → includes nodes t ≡ true
unfolding all_known includes
all_known-includes nodes [] t h m = cc
all_known-includes nodes (u ∷ ts) t h m =
    ground (arith, all_known-includes nodes ts t, str_eq_iff u t)

check_targets-accepted :
    (nodes : List CoreNodeConfig) (us ts : List String)
    → check_targets nodes us ≡ accepted ts
    → (ts ≡ us) × (us ≢ []) × (all_known (node_ids nodes) us ≡ true)
unfolding check_targets
check_targets-accepted nodes [] ts h = cc
check_targets-accepted nodes (u ∷ us) ts h = (ground arith, (λ e. cc), ground arith)

-- A selection that is accepted is not empty, names no node twice, only configured ones, and
-- exactly those that were asked for, or the defaults where none were.
pub select_targets-accepted :
    (nodes : List CoreNodeConfig) (requested : Option (List String)) (defaults ts : List String)
    → select_targets nodes requested defaults ≡ accepted ts
    → (ts ≢ [])
      × Distinct ts
      × ((t : String) → includes ts t ≡ true → includes (node_ids nodes) t ≡ true)
      × ((t : String) → includes ts t ≡ includes (chosen requested defaults) t)
unfolding select_targets
select_targets-accepted nodes requested defaults ts h =
    let us = unique (chosen requested defaults) in
    let (same, some_target, known) = check_targets-accepted nodes us ts h in
    rw same (
      some_target,
      Distinct-unique (chosen requested defaults),
      (λ t m. all_known-includes (node_ids nodes) us t known m),
      λ t. includes-unique (chosen requested defaults) t,
    )
