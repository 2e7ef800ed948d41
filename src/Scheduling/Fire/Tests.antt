-- ===== src/Scheduling/Fire/Tests.antt =====
-- Two jobs of a trigger, of which the second fails before the first has ended.
use mathlib.Core.WellFounded.{Acc}
use wyndpy.Base.{ℕ, suc, some, ◌≡◌, refl, All, String, List, [], ◌∷◌, string_eq}
use wyndpy.Base.Dict.{lookup, insert}
use wyndpy.Base.Reply.{Reply, ok, raised, value_error}
use wyndpy.Scheduling.{EventScheduler, new_event, event_register, jobs_to_fire}
use wyndpy.Core.Coroutine.{ended, awaits}
use wyndpy.Scheduling.Laws.{event_register_all, under}
use wyndpy.Scheduling.Fire.{
  Job, here, there, this, later, Firing, fire, Step, run, fail, Reach, begin, next,
}
use wyndpy.Scheduling.Fire.Ends.{IsEnded, Next, AreRests, fire-ends}
use wyndpy.Scheduling.Fire.Outcome.{Tells}

-- A job that counts and returns, and one that raises.
abbrev counts : Job ℕ
counts = awaits (λ w. ended (ok tt)) suc

abbrev raises : Job ℕ
raises = awaits (λ w. ended (raised (value_error "failed"))) (λ w. w)

abbrev registrations : List (String × Job ℕ)
registrations = ("changed", counts) ∷ ("deleted", counts) ∷ ("changed", raises) ∷ []

abbrev scheduler : EventScheduler (Job ℕ)
scheduler = event_register_all registrations new_event

-- The second job raises, `fire` raises, and the first job goes on.
record Interleaved (s : Firing ℕ) : Type 0 where
  reach : Reach (fire "changed" scheduler 0) s
  raised_it : s.outcome ≡ some (raised (value_error "failed"))
  counted : s.world ≡ 1

interleaved : (s : Firing ℕ) × Interleaved s
unfolding fire jobs_to_fire event_register lookup insert string_eq
interleaved = (
  _,
  record {
    reach = next (next (next begin (run (there here))) (fail refl (later this))) (run here);
    raised_it = refl;
    counted = refl;
  },
)

fire-ends_example :
    Acc Next (fire "changed" (event_register_all registrations new_event) 0)
    × ((s : Firing ℕ)
        → Reach (fire "changed" (event_register_all registrations new_event) 0) s
        → AreRests (under "changed" registrations) s.tasks
          × Tells s.outcome s.tasks
          × (((t : Firing ℕ) → ¬ (Step s t))
              → All IsEnded s.tasks × ((x : Reply (Unit {0})) × (s.outcome ≡ some x))))
fire-ends_example = fire-ends "changed" registrations 0

-- What the theorem tells of that interleaving.
raised_by_one : Tells interleaved.0.outcome interleaved.0.tasks
raised_by_one = ((fire-ends "changed" registrations 0).1 interleaved.0 interleaved.1.reach).1
