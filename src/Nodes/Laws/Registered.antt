-- ===== src/Nodes/Laws/Registered.antt =====
-- Each mutation of the registry keeps it well formed (apps/manager/src/state.ts).
use neuromem.Prelude.{◌≡◌, refl, some, Option-cases, inl, inr, ◌⊎◌}
use neuromem.Nodes.State.{RegistryFile, NodeError, Outcome, done, refused, validate_registry}
use neuromem.Nodes.Mutations.{
  StateStore, current, initialize, validated, read_registry, write_registry, commit, mutate_with,
  mutate_registry,
}
use neuromem.Nodes.Valid.{IsRegistry, validate_registry_iff}

-- What a mutation does to the registry: it is refused and the registry stays, or the new registry
-- is well formed, written, and the result of the mutation on the old one.
abbrev pub Mutated :
    (RegistryFile → Outcome RegistryFile) → StateStore → Outcome RegistryFile × StateStore → Type 0
Mutated mutation s x =
    (x.1.snapshots ≡ s.snapshots)
    × (((e : NodeError) × (x.0 ≡ refused e) × (current x.1 ≡ current s))
        ⊎ ((r : RegistryFile) × (x.0 ≡ done r)
            × (mutation (current s) ≡ done r)
            × (x.1.registry ≡ some r)
            × IsRegistry r))

commit-Mutated :
    (mutation : RegistryFile → Outcome RegistryFile) (s : StateStore) (o : Outcome RegistryFile)
    → mutation (current s) ≡ o
    → Mutated mutation s (commit (initialize s) o)
unfolding commit write_registry initialize
commit-Mutated mutation s (refused e) m = (refl, inl (e, refl, refl))
commit-Mutated mutation s (done r) m = elim (Option-cases (validate_registry r)) [
  | inl v ↦ rw (v, validated) (refl, inr (r, refl, m, refl, (validate_registry_iff r).0 v))
  | inr (e, v) ↦ rw (v, validated) (refl, inl (e, refl, refl))
]

-- Whatever the mutation, `mutateRegistry` writes a well-formed registry, which is the mutation's
-- result, or throws and leaves the registry as it was.
pub mutate_registry-Mutated :
    (mutation : RegistryFile → Outcome RegistryFile) (s : StateStore)
    → Mutated mutation s (mutate_registry mutation s)
unfolding mutate_registry mutate_with read_registry initialize
mutate_registry-Mutated mutation s = elim (Option-cases (validate_registry (current s))) [
  | inl v ↦ rw (v, validated) (commit-Mutated mutation s (mutation (current s)) refl)
  | inr (e, v) ↦ rw (v, validated) (refl, inl (e, refl, refl))
]

-- On a well-formed registry a mutation with a well-formed result is written.
pub mutate_registry-accepted :
    (mutation : RegistryFile → Outcome RegistryFile) (s : StateStore) (r : RegistryFile)
    → IsRegistry (current s)
    → mutation (current s) ≡ done r
    → IsRegistry r
    → mutate_registry mutation s ≡ (done r, record s { registry = some r })
unfolding mutate_registry mutate_with read_registry initialize commit write_registry
mutate_registry-accepted mutation s r old m new =
    rw ((validate_registry_iff (current s)).1 old, validated)
      (rw m (rw ((validate_registry_iff r).1 new, validated) refl))
