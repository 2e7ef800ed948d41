-- ===== src/Scheduling/Laws.antt =====
-- What a series of registrations leaves for a cadence or a trigger.
use wyndpy.Base.{
  String, List, [], ◌∷◌, ◌++◌, Option, some, ◌==◌, ==_iff, string_eq, ◌≡◌, refl, sym, ap, ◌∙◌, inl,
  inr, Bool-cases, arith, append_assoc, append-nil, if◌then◌else◌,
}
use wyndpy.Base.Dict.{lookup, lookup-insert}
use wyndpy.Scheduling.{
  or_no_jobs, CronScheduler, EventScheduler, cron_register, cron_jobs, event_register, jobs_to_fire,
}

module _ {J : Type 0} where
  abbrev pub cron_register_all : List (String × J) → CronScheduler J → CronScheduler J
  cron_register_all [] s = s
  cron_register_all ((cadence, job) ∷ rs) s = cron_register_all rs (cron_register job cadence s)

  abbrev pub event_register_all : List (String × J) → EventScheduler J → EventScheduler J
  event_register_all [] s = s
  event_register_all ((trigger, job) ∷ rs) s = event_register_all rs (event_register job trigger s)

  -- The jobs of a series that are registered under a key, in order, and the last of them.
  abbrev pub under : String → List (String × J) → List J
  under key [] = []
  under key ((k, job) ∷ rs) = if key == k then job ∷ under key rs else under key rs

  abbrev pub last_under : String → List (String × J) → Option J → Option J
  last_under key [] found = found
  last_under key ((k, job) ∷ rs) found = last_under key rs (if key == k then some job else found)

  under-first :
      (key k : String) (job : J) (rs : List (String × J))
      → (if key == k then job ∷ [] else []) ++ under key rs ≡ under key ((k, job) ∷ rs)
  under-first key k job rs = ground arith

  event_register_one :
      (job : J) (trigger key : String) (s : EventScheduler J)
      → jobs_to_fire key (event_register job trigger s)
        ≡ jobs_to_fire key s ++ (if key == trigger then job ∷ [] else [])
  unfolding jobs_to_fire event_register
  event_register_one job trigger key s =
      ap or_no_jobs
        (lookup-insert key trigger (or_no_jobs (lookup trigger s.jobs) ++ job ∷ []) s.jobs)
      ∙ (elim (Bool-cases (key == trigger)) [
        | inl same ↦ ground (arith, same, ap (λ k. lookup k s.jobs) ((==_iff key trigger).0 same))
        | inr differs ↦ rw (differs, append-nil (or_no_jobs (lookup key s.jobs))) refl
      ])

  -- After any registrations an event fires what was registered under it before, and then the jobs
  -- registered under it since, in their order; the cron scheduler has the job registered last.
  pub register_all-jobs :
      (rs : List (String × J)) (key : String) (e : EventScheduler J) (c : CronScheduler J)
      → (jobs_to_fire key (event_register_all rs e) ≡ jobs_to_fire key e ++ under key rs)
        × (lookup key (cron_jobs (cron_register_all rs c))
            ≡ last_under key rs (lookup key (cron_jobs c)))
  unfolding cron_register
  register_all-jobs [] key e c = (sym (append-nil (jobs_to_fire key e)), refl)
  register_all-jobs ((k, job) ∷ rs) key e c =
      let (fired, kept) =
        register_all-jobs rs key (event_register job k e) (cron_register job k c) in
      (
        fired
            ∙ ap (λ js. js ++ under key rs) (event_register_one job k key e)
            ∙ append_assoc (jobs_to_fire key e) (if key == k then job ∷ [] else []) (under key rs)
            ∙ ap (λ js. jobs_to_fire key e ++ js) (under-first key k job rs),
        kept ∙ ap (last_under key rs) (lookup-insert key k job c.jobs),
      )
