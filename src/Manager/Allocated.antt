-- ===== src/Manager/Allocated.antt =====
-- The ports that a new node gets (apps/manager/src/node-manager.ts, `allocatePorts`).
use neuromem.Prelude.{
  ℕ, ◌≤◌, ◌⊎◌, str_eq, String, Bool, true, false, ◌≡◌, refl, ap, subst, inl, inr, Option, none,
  some, List, [], ◌∷◌, Bool-cases, arith,
}
use neuromem.Nodes.State.{NodeRecord}
use neuromem.Manager.Ports.{
  RequestedPorts, PortError, Allocation, allocated, rejected, ports_required, alias_ports,
  used_ports, port_in, port_or, merged_ports, all_given, is_given, given_ports, all_ports,
  is_prototype_member, valid_port, check_ports, checked_ports, allocate_with, allocate_from,
  allocate_ports,
}

-- Every port is unprivileged and free, no node has it, and it does not occur again.
unfoldable pub Usable : (ℕ → Bool) → List ℕ → List ℕ → Type 0
Usable free [] used = Unit
Usable free (p ∷ ps) used =
    ((1024 ≤ p) × (p ≤ 65535) × (free p ≡ true) × (port_in p used ≡ false))
    × Usable free ps (p ∷ used)

check_ports-Usable :
    (free : ℕ → Bool) (ps used : List ℕ) → check_ports free ps used ≡ none → Usable free ps used
unfolding check_ports Usable valid_port
check_ports-Usable free [] used h = tt
check_ports-Usable free (p ∷ ps) used h = elim (Bool-cases (port_in p used)) [
  | inl taken ↦ ground (arith, taken)
  | inr new ↦ (
    (ground arith, ground arith, ground arith, new),
    check_ports-Usable free ps (p ∷ used) (ground arith),
  )
]

ports_in : Allocation → RequestedPorts → RequestedPorts
ports_in (allocated p) q = p
ports_in (rejected e) q = q

allocated_injective : (p q : RequestedPorts) → allocated p ≡ allocated q → p ≡ q
unfolding ports_in
allocated_injective p q e = ap (λ a. ports_in a p) e

-- The port that was asked for, where one was.
unfoldable pub Honours : RequestedPorts → RequestedPorts → Type 0
unfolding port_or
Honours r p =
    (port_or r.api p.api ≡ p.api)
    × (port_or r.dashboard p.dashboard ≡ p.dashboard)
    × (port_or r.mcp p.mcp ≡ p.mcp)

port_or_again : (o d : Option ℕ) → port_or o (port_or o d) ≡ port_or o d
unfolding port_or
port_or_again none d = refl
port_or_again (some p) d = refl

merged_ports-Honours : (d r : RequestedPorts) → Honours r (merged_ports d r)
unfolding Honours merged_ports
merged_ports-Honours d r =
    (port_or_again r.api d.api, port_or_again r.dashboard d.dashboard, port_or_again r.mcp d.mcp)

is_given-port_or : (o d : Option ℕ) → is_given d ≡ true → is_given (port_or o d) ≡ true
unfolding port_or is_given
is_given-port_or none d h = h
is_given-port_or (some p) d h = refl

all_given-merged_ports :
    (d r : RequestedPorts) → all_given d ≡ true → all_given (merged_ports d r) ≡ true
unfolding all_given merged_ports
all_given-merged_ports d r h = ground (
  arith,
  is_given-port_or r.api d.api,
  is_given-port_or r.dashboard d.dashboard,
  is_given-port_or r.mcp d.mcp,
)

all_given-all_ports : (a d m : ℕ) → all_given (all_ports a d m) ≡ true
unfolding all_given is_given
all_given-all_ports a d m = refl

some_ports : RequestedPorts → Option RequestedPorts → RequestedPorts
some_ports d none = d
some_ports d (some q) = q

some_injective : (q d : RequestedPorts) → some q ≡ some d → q ≡ d
unfolding some_ports
some_injective q d e = ap (some_ports d) e

nothing_found : (d : RequestedPorts) → ◌≡◌ {A = Option RequestedPorts} none (some d) → ⊥
nothing_found d e = ground arith

alias_ports-given :
    (alias : String) (d : RequestedPorts)
    → alias_ports alias ≡ some d
    → (all_given d ≡ true) ⊎ (is_prototype_member alias ≡ true)
unfolding alias_ports
alias_ports-given alias d e = elim (Bool-cases (is_prototype_member alias)) [
  | inl member ↦ inr member
  | inr other ↦ elim (Bool-cases (str_eq alias "personal")) [
    | inl personal ↦ inl (
        subst (λ p. all_given p ≡ true) (some_injective _ d (rw personal at e))
          (all_given-all_ports _ _ _))
    | inr not_personal ↦ elim (Bool-cases (str_eq alias "company")) [
      | inl company ↦ inl (
          subst (λ p. all_given p ≡ true) (some_injective _ d (rw (not_personal, company) at e))
            (all_given-all_ports _ _ _))
      | inr neither ↦ absurd (nothing_found d (rw (not_personal, neither, other) at e))
    ]
  ]
]

abbrev Fits : (ℕ → Bool) → List NodeRecord → String → RequestedPorts → RequestedPorts → Type 0
Fits free existing alias r p =
    Usable free (given_ports p) (used_ports existing)
    × Honours r p
    × ((all_given p ≡ true) ⊎ (is_prototype_member alias ≡ true))

module _ (free : ℕ → Bool) (existing : List NodeRecord) (alias : String) (r : RequestedPorts) where
  checked_ports-Fits :
      (q p : RequestedPorts) (o : Option PortError)
      → check_ports free (given_ports q) (used_ports existing) ≡ o
      → Honours r q
      → (all_given q ≡ true) ⊎ (is_prototype_member alias ≡ true)
      → checked_ports q o ≡ allocated p
      → Fits free existing alias r p
  unfolding checked_ports
  checked_ports-Fits q p none c h g e =
      subst (Fits free existing alias r) (allocated_injective q p e)
        (check_ports-Usable free (given_ports q) (used_ports existing) c, h, g)
  checked_ports-Fits q p (some x) c h g e = ground arith

  allocate_with-Fits :
      (d p : RequestedPorts)
      → (all_given d ≡ true) ⊎ (is_prototype_member alias ≡ true)
      → allocate_with free existing r d ≡ allocated p
      → Fits free existing alias r p
  unfolding allocate_with
  allocate_with-Fits d p (inl g) e =
      checked_ports-Fits (merged_ports d r) p
        (check_ports free (given_ports (merged_ports d r)) (used_ports existing)) refl
        (merged_ports-Honours d r) (inl (all_given-merged_ports d r g)) e
  allocate_with-Fits d p (inr m) e =
      checked_ports-Fits (merged_ports d r) p
        (check_ports free (given_ports (merged_ports d r)) (used_ports existing)) refl
        (merged_ports-Honours d r) (inr m) e

  not_given :
      (p : RequestedPorts) → rejected ports_required ≡ allocated p → Fits free existing alias r p
  not_given p e = ground arith

  allocate_from-Fits :
      (o : Option RequestedPorts) (p : RequestedPorts)
      → alias_ports alias ≡ o
      → allocate_from free existing r o ≡ allocated p
      → Fits free existing alias r p
  unfolding allocate_from
  allocate_from-Fits none p a e = elim (Bool-cases (all_given r)) [
    | inl given ↦
        allocate_with-Fits (all_ports 0 0 0) p (inl (all_given-all_ports 0 0 0)) (rw given at e)
    | inr short ↦ not_given p (rw short at e)
  ]
  allocate_from-Fits (some d) p a e = allocate_with-Fits d p (alias_ports-given alias d a) e

-- The ports that allocatePorts gives a new node lie between 1024 and 65535 and are free, no other node
-- has one of them, they are different, and each that was asked for is given. There are three of them,
-- unless the alias is a member of `Object.prototype`.
pub allocate_ports-Fits :
    (free : ℕ → Bool) (existing : List NodeRecord) (alias : String) (r p : RequestedPorts)
    → allocate_ports free existing alias r ≡ allocated p
    → Usable free (given_ports p) (used_ports existing)
      × Honours r p
      × ((all_given p ≡ true) ⊎ (is_prototype_member alias ≡ true))
unfolding allocate_ports
allocate_ports-Fits free existing alias r p e =
    allocate_from-Fits free existing alias r (alias_ports alias) p refl e
