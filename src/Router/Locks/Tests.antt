-- ===== src/Router/Locks/Tests.antt =====
-- Two tasks on one item and a third on another, and the theorems at that state.
use wyndpy.Base.{ℕ, none, ◌≡◌, ◌⊎◌, refl, string_eq, ℕ_eq}
use wyndpy.Base.Dict.{lookup, insert}
use wyndpy.Router.Action.{setdefault_lock}
use wyndpy.Router.Locks.{Tasks, Step, Reach, start, next, ask, enter, waiting, inside}
use wyndpy.Router.Locks.Exclusion.{mutual_exclusion, waiting_progress}

record Contended (s : Tasks) : Type 0 where
  reach : Reach s
  first : s.pc 0 ≡ inside "a" 0
  second : s.pc 1 ≡ waiting "a" 0
  third : s.pc 2 ≡ inside "b" 1

contended : (s : Tasks) × Contended s
unfolding setdefault_lock lookup insert string_eq ℕ_eq
contended = (
  _,
  record {
    reach =
        next
          (next
            (next (next (next start (ask 0 "a" refl)) (enter 0 "a" 0 refl refl)) (ask 1 "a" refl))
            (ask 2 "b" refl))
          (enter 2 "b" 1 refl refl);
    first = refl;
    second = refl;
    third = refl;
  },
)

mutual_exclusion_example : ◌≡◌ {A = ℕ} 0 0
mutual_exclusion_example =
    mutual_exclusion {s = contended.0} 0 0 "a" 0 0 contended.1.reach contended.1.first
      contended.1.first

waiting_progress_example :
    ((t : Tasks) × Step contended.0 t × (t.pc 1 ≡ inside "a" 0))
    ⊎ ((j : ℕ) × (contended.0.pc j ≡ inside "a" 0)
        × ((t : Tasks) × Step contended.0 t × (t.owner 0 ≡ none) × (t.pc 1 ≡ waiting "a" 0)))
waiting_progress_example =
    waiting_progress {s = contended.0} 1 "a" 0 contended.1.reach contended.1.second
