-- ===== src/Router/Locks.antt =====
-- wyndpy/core/router.py, `async with self._lock_for(item.id)` in concurrent tasks of one event loop.
-- A task is a number, and goes from one locked section to the next. Any task that waits may be let
-- in when the lock is free: the order in which asyncio lets them in is left open.
pub mod Table
pub mod Invariant
pub mod Exclusion
mod Tests
use wyndpy.Base.{ℕ, String, [], Option, none, some, ◌==◌, ℕ_eq, ◌≡◌, if◌then◌else◌}
use wyndpy.Base.Dict.{Dict}
use wyndpy.Router.Action.{setdefault_lock}

-- Where a task stands: in no section, before the lock of an item's id, or under it.
pub data Pc : Type 0 where
  outside : Pc
  waiting inside : String → ℕ → Pc

-- `locks` is `Router._locks`. `owner` gives the task that has acquired a lock.
pub record Tasks : Type 0 where
  pub locks : Dict String ℕ
  pub owner : ℕ → Option ℕ
  pub pc : ℕ → Pc

abbrev pub update {ℓ} : {A : Type ℓ} → ℕ → A → (ℕ → A) → ℕ → A
update i a f j = if j == i then a else f j

abbrev pub new_tasks : Tasks
new_tasks = record { locks = []; owner = λ l. none; pc = λ i. outside }

-- One move of a task: it asks for the lock of an item's id, is let in, goes out again, however the
-- section ends, or is cancelled while it waits.
pub data Step (s : Tasks) : Tasks → Type 0 where
  ask :
      (i : ℕ) (id : String)
      → s.pc i ≡ outside
      → Step s (record s {
        locks = (setdefault_lock id s.locks).1;
        pc = update i (waiting id (setdefault_lock id s.locks).0) s.pc;
      })
  enter :
      (i : ℕ) (id : String) (l : ℕ)
      → s.pc i ≡ waiting id l
      → s.owner l ≡ none
      → Step s (record s { owner = update l (some i) s.owner; pc = update i (inside id l) s.pc })
  leave :
      (i : ℕ) (id : String) (l : ℕ)
      → s.pc i ≡ inside id l
      → Step s (record s { owner = update l none s.owner; pc = update i outside s.pc })
  cancel :
      (i : ℕ) (id : String) (l : ℕ)
      → s.pc i ≡ waiting id l
      → Step s (record s { pc = update i outside s.pc })

pub data Reach : Tasks → Type 0 where
  start : Reach new_tasks
  next : {s t : Tasks} → Reach s → Step s t → Reach t
