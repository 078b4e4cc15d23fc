-- ===== src/Nodes/Laws/Exclusion.antt =====
-- Mutual exclusion by the lock of a node (apps/manager/src/state.ts).
use neuromem.Prelude.{ℕ, Bool, true, false, ◌&&◌, ◌≡◌, ◌⊎◌, some, List, [], ◌∷◌, ◌==◌}
use neuromem.Nodes.Lock.{
  NodeLock, LockPhase, idle, refused, acting, LockState, LockMove, enter, read_owner, check_age,
  clear, make, write_owner, leave, die, LockStep,
}

abbrev ends : LockMove → Bool
ends enter = false
ends read_owner = false
ends check_age = false
ends clear = false
ends make = false
ends write_owner = false
ends leave = true
ends die = true

-- The call neither ends its action nor dies in these steps.
abbrev pub Stays : ℕ → List LockStep → Type 0
Stays h [] = Unit
Stays h (e ∷ es) = (e.caller == h && ends e.move ≡ false) × Stays h es

-- A call that is not in the function, or that found the directory and has not read the owner.
abbrev pub Outside : LockPhase → Type 0
Outside p = (p ≡ idle) ⊎ (p ≡ refused)

-- The call has the lock, with its owner's file, and every other call is outside.
pub record Holds (pid_of : ℕ → ℕ) (h : ℕ) (l : NodeLock) (s : LockState) : Type 0 where
  pub there : s.directory ≡ some l
  pub own : l.owner ≡ some (pid_of h)
  pub acts : s.phase h ≡ acting
  pub others : (c : ℕ) → (c == h) ≡ false → Outside (s.phase c)
