-- ===== src/Manager/Ports.antt =====
-- `allocatePorts` of the node manager (apps/manager/src/node-manager.ts). What `portIsFree` finds is
-- an argument. A member of an object of ports is absent or a number; the order of the members, which
-- decides only between two errors, is that of the type.
use neuromem.Prelude.{
  ℕ, String, Bool, true, false, not, ◌&&◌, ◌||◌, Option, none, some, List, [], ◌∷◌, ◌++◌, str_eq,
  includes, leb, ◌==◌, if◌then◌else◌,
}
use neuromem.Nodes.State.{NodePorts, NodeRecord}

-- `Partial<NodeRecord["ports"]>`, and what `allocatePorts` returns.
pub record RequestedPorts : Type 0 where
  pub api : Option ℕ
  pub dashboard : Option ℕ
  pub mcp : Option ℕ

pub data PortError : Type 0 where
  ports_required invalid_port port_assigned port_in_use : PortError

pub data Allocation : Type 0 where
  allocated : RequestedPorts → Allocation
  rejected : PortError → Allocation

-- The members that every object has from `Object.prototype`; each is truthy.
unfoldable pub is_prototype_member : String → Bool
unfolding includes
is_prototype_member alias =
    includes
      ("constructor" ∷ "__proto__" ∷ "__defineGetter__" ∷ "__defineSetter__" ∷ "__lookupGetter__"
        ∷ "__lookupSetter__" ∷ "hasOwnProperty" ∷ "isPrototypeOf" ∷ "propertyIsEnumerable"
        ∷ "toLocaleString" ∷ "toString" ∷ "valueOf" ∷ [])
      alias

abbrev pub all_ports : ℕ → ℕ → ℕ → RequestedPorts
all_ports a d m = record { api = some a; dashboard = some d; mcp = some m }

abbrev pub no_ports : RequestedPorts
no_ports = record { api = none; dashboard = none; mcp = none }

-- `ALIAS_PORTS[alias]`; the spread of a member of `Object.prototype` is empty.
unfoldable pub alias_ports : String → Option RequestedPorts
unfolding is_prototype_member
alias_ports alias =
    if str_eq alias "personal"
    then some (all_ports 18001 14173 18765)
    else if str_eq alias "company"
    then some (all_ports 28001 24173 28765)
    else if is_prototype_member alias
    then some no_ports
    else none

unfoldable pub ports_of : NodePorts → List ℕ
ports_of p = p.api ∷ p.dashboard ∷ p.mcp ∷ []

unfoldable pub used_ports : List NodeRecord → List ℕ
unfolding ports_of
used_ports [] = []
used_ports (n ∷ ns) = ports_of n.ports ++ used_ports ns

unfoldable pub port_in : ℕ → List ℕ → Bool
port_in p [] = false
port_in p (q ∷ qs) = q == p || port_in p qs

unfoldable pub is_given : Option ℕ → Bool
is_given none = false
is_given (some p) = true

unfoldable pub all_given : RequestedPorts → Bool
unfolding is_given
all_given r = is_given r.api && is_given r.dashboard && is_given r.mcp

unfoldable pub port_or : Option ℕ → Option ℕ → Option ℕ
port_or none p = p
port_or (some q) p = some q

unfoldable pub port_list : Option ℕ → List ℕ → List ℕ
port_list none ps = ps
port_list (some p) ps = p ∷ ps

-- The ports that are there.
unfoldable pub given_ports : RequestedPorts → List ℕ
unfolding port_list
given_ports r = port_list r.api (port_list r.dashboard (port_list r.mcp []))

-- `{ ...defaults, ...requested }`
unfoldable pub merged_ports : RequestedPorts → RequestedPorts → RequestedPorts
unfolding port_or
merged_ports p r = record {
  api = port_or r.api p.api;
  dashboard = port_or r.dashboard p.dashboard;
  mcp = port_or r.mcp p.mcp;
}

-- `validatePort` does not throw.
unfoldable pub valid_port : ℕ → Bool
valid_port p = leb 1024 p && leb p 65535

-- The loop over the ports, with the set of those in use; `none` is a loop that ends.
unfoldable pub check_ports : (ℕ → Bool) → List ℕ → List ℕ → Option PortError
unfolding valid_port port_in
check_ports free [] used = none
check_ports free (p ∷ ps) used =
    let rest = check_ports free ps (p ∷ used) in
    if not (valid_port p)
    then some invalid_port
    else if port_in p used
    then some port_assigned
    else if not (free p)
    then some port_in_use
    else rest

unfoldable pub checked_ports : RequestedPorts → Option PortError → Allocation
checked_ports p none = allocated p
checked_ports p (some e) = rejected e

unfoldable pub allocate_with :
    (ℕ → Bool) → List NodeRecord → RequestedPorts → RequestedPorts → Allocation
unfolding merged_ports check_ports given_ports used_ports checked_ports
allocate_with free existing r defaults =
    let output = merged_ports defaults r in
    checked_ports output (check_ports free (given_ports output) (used_ports existing))

unfoldable pub allocate_from :
    (ℕ → Bool) → List NodeRecord → RequestedPorts → Option RequestedPorts → Allocation
unfolding all_given allocate_with
allocate_from free existing r (some defaults) = allocate_with free existing r defaults
allocate_from free existing r none =
    if all_given r then allocate_with free existing r (all_ports 0 0 0) else rejected ports_required

-- `allocatePorts`
unfoldable pub allocate_ports : (ℕ → Bool) → List NodeRecord → String → RequestedPorts → Allocation
unfolding alias_ports allocate_from
allocate_ports free existing alias r = allocate_from free existing r (alias_ports alias)
