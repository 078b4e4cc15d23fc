-- ===== src/Nodes/Lock.antt =====
-- `withNodeLock` (apps/manager/src/state.ts) for one node: the lock directory, and where each call of
-- it stands. Each access to the file system is a step of its own, so the steps of calls, of one process
-- or of several, come in any order. What `processIsAlive` finds at a time, and the pid of the process of
-- a call, are arguments. A call that dies leaves the directory as it is.
use neuromem.Prelude.{ℕ, ◌-◌, Bool, Option, none, some, List, [], ◌∷◌, ltb, ◌==◌, if◌then◌else◌}

-- The lock directory: the pid in `owner.json`, if it is there, and the time of the directory.
pub record NodeLock : Type 0 where
  pub owner : Option ℕ
  pub mtime : ℕ

-- Where a call stands: not in the function; after `mkdir` found the directory; after `owner.json` could
-- not be read; resolved to take the lock over; after `rm`; after `mkdir`; in the action.
pub data LockPhase : Type 0 where
  idle refused unowned taking cleared made acting : LockPhase

pub record LockState : Type 0 where
  pub directory : Option NodeLock
  pub phase : ℕ → LockPhase

-- The steps: `mkdir`, the read of the owner, `stat`, `rm`, the second `mkdir`, the write of the owner,
-- the `rm` in `finally`, and the death of the call.
pub data LockMove : Type 0 where
  enter read_owner check_age clear make write_owner leave die : LockMove

-- The first `mkdir`.
unfoldable pub first_mkdir : ℕ → Option NodeLock → LockPhase × Option NodeLock
first_mkdir now none = (made, some record { owner = none; mtime = now })
first_mkdir now (some l) = (refused, some l)

-- The read of the owner, and the refusal if that lives.
unfoldable pub owner_read : (ℕ → Bool) → Option NodeLock → LockPhase × Option NodeLock
owner_read alive none = (unowned, none)
owner_read alive (some l) = elim l.owner [
  | none ↦ (unowned, some l)
  | some pid ↦ (if alive pid then idle else taking, some l)
]

-- The age of a directory that has no owner; `stat` throws where there is none.
unfoldable pub age_checked : ℕ → Option NodeLock → LockPhase × Option NodeLock
age_checked now none = (idle, none)
age_checked now (some l) = (if ltb (now - l.mtime) 30000 then idle else taking, some l)

-- The second `mkdir`, which throws where the directory is there again.
unfoldable pub made_again : ℕ → Option NodeLock → LockPhase × Option NodeLock
made_again now none = (made, some record { owner = none; mtime = now })
made_again now (some l) = (idle, some l)

-- A move of a call of process `pid`; a move that its phase does not have changes nothing. The write of
-- the owner makes the directory if need be.
unfoldable pub advance_call :
    (ℕ → Bool) → ℕ → ℕ → LockMove → LockPhase → Option NodeLock → LockPhase × Option NodeLock
unfolding first_mkdir owner_read age_checked made_again
advance_call alive now pid enter idle d = first_mkdir now d
advance_call alive now pid read_owner refused d = owner_read alive d
advance_call alive now pid check_age unowned d = age_checked now d
advance_call alive now pid clear taking d = (cleared, none)
advance_call alive now pid make cleared d = made_again now d
advance_call alive now pid write_owner made d =
    (acting, some record { owner = some pid; mtime = now })
advance_call alive now pid leave acting d = (idle, none)
advance_call alive now pid die p d = (idle, d)
advance_call alive now pid mv p d = (p, d)

-- A move of one call, at a time.
pub record LockStep : Type 0 where
  pub time : ℕ
  pub caller : ℕ
  pub move : LockMove

unfoldable pub lock_step : (ℕ → ℕ → Bool) → (ℕ → ℕ) → LockStep → LockState → LockState
unfolding advance_call
lock_step alive pid_of e s =
    let r =
      advance_call (alive e.time) e.time (pid_of e.caller) e.move (s.phase e.caller) s.directory in
    record { directory = r.1; phase = λ c. if c == e.caller then r.0 else s.phase c }

unfoldable pub lock_run : (ℕ → ℕ → Bool) → (ℕ → ℕ) → List LockStep → LockState → LockState
unfolding lock_step
lock_run alive pid_of [] s = s
lock_run alive pid_of (e ∷ es) s = lock_run alive pid_of es (lock_step alive pid_of e s)
