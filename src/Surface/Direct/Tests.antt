-- ===== src/Surface/Direct/Tests.antt =====
-- A job that counts to two, fired alone and run from synchronous code.
use wyndpy.Base.{ℕ, suc, true, false, some, ◌≡◌, refl, string_eq}
use wyndpy.Base.Dict.{lookup, insert}
use wyndpy.Base.Reply.{ok, raised, other}
use wyndpy.Core.Coroutine.{ended, awaits}
use wyndpy.Scheduling.{EventScheduler, new_event, event_register, jobs_to_fire}
use wyndpy.Scheduling.Fire.{Job, here, Firing, fire, run, join, Reach, begin, next}
use wyndpy.Surface.Direct.{run_sync}
use wyndpy.Surface.Direct.Fired.{fire-run_sync}

abbrev counts : Job ℕ
counts = awaits (λ w. awaits (λ v. ended (ok tt)) suc) suc

abbrev scheduler : EventScheduler (Job ℕ)
scheduler = event_register counts "changed" new_event

refused :
    run_sync true counts 0
    ≡ (raised (other "asyncio.run() cannot be called from a running event loop"), 0)
unfolding run_sync
refused = refl

record Joined (s : Firing ℕ) : Type 0 where
  reach : Reach (fire "changed" scheduler 0) s
  returned_it : s.outcome ≡ some (ok tt)

joined : (s : Firing ℕ) × Joined s
unfolding fire jobs_to_fire event_register lookup insert string_eq
joined = (
  _,
  record {
    reach = next (next (next begin (run here)) (run here)) (join refl (refl, tt));
    returned_it = refl;
  },
)

fire-run_sync_example : run_sync false counts 0 ≡ (ok tt, 2)
unfolding joined fire jobs_to_fire event_register lookup insert string_eq
fire-run_sync_example =
    fire-run_sync "changed" scheduler 0 counts {s = joined.0} (ok tt) refl joined.1.reach
      joined.1.returned_it
