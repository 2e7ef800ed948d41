-- ===== src/Scheduling.antt =====
-- wyndpy/scheduling: what the two schedulers record. A job is an object of any kind here.
pub mod Laws
pub mod Fire
mod Tests
use wyndpy.Base.{String, List, [], ◌∷◌, ◌++◌, Option, none, some, string_eq}
use wyndpy.Base.Dict.{Dict, lookup, insert}

-- `setdefault(trigger, [])` and `get(trigger, [])`
abbrev pub or_no_jobs : {J : Type 0} → Option (List J) → List J
or_no_jobs none = []
or_no_jobs (some jobs) = jobs

pub record CronScheduler (J : Type 0) : Type 0 where
  pub jobs : Dict String J

pub record EventScheduler (J : Type 0) : Type 0 where
  pub jobs : Dict String (List J)

module _ {J : Type 0} where
  abbrev pub new_cron : CronScheduler J
  new_cron = record { jobs = [] }

  abbrev pub new_event : EventScheduler J
  new_event = record { jobs = [] }

  -- `CronScheduler.register`
  unfoldable pub cron_register : J → String → CronScheduler J → CronScheduler J
  cron_register job cadence s = record { jobs = insert cadence job s.jobs }

  -- `CronScheduler.jobs`, a copy of the dictionary.
  abbrev pub cron_jobs : CronScheduler J → Dict String J
  cron_jobs s = s.jobs

  -- `EventScheduler.register`
  unfoldable pub event_register : J → String → EventScheduler J → EventScheduler J
  event_register job trigger s = record {
    jobs = insert trigger (or_no_jobs (lookup trigger s.jobs) ++ job ∷ []) s.jobs;
  }

  -- The jobs that `EventScheduler.fire` starts, in order.
  unfoldable pub jobs_to_fire : String → EventScheduler J → List J
  jobs_to_fire trigger s = or_no_jobs (lookup trigger s.jobs)
