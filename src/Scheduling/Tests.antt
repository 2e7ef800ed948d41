-- ===== src/Scheduling/Tests.antt =====
-- The schedulers on concrete registrations.
use wyndpy.Base.{ℕ, String, List, [], ◌∷◌, some, ◌≡◌, refl, string_eq}
use wyndpy.Base.Dict.{lookup, insert}
use wyndpy.Scheduling.{new_cron, new_event, cron_register, event_register, jobs_to_fire}
use wyndpy.Scheduling.Laws.{cron_register_all, event_register_all}

abbrev registrations : List (String × ℕ)
registrations = ("monthly", 1) ∷ ("event:failed", 2) ∷ ("monthly", 3) ∷ []

fired : jobs_to_fire "monthly" (event_register_all registrations new_event) ≡ 1 ∷ 3 ∷ []
unfolding jobs_to_fire event_register lookup insert string_eq
fired = refl

replaced : lookup "monthly" (cron_register_all registrations new_cron).jobs ≡ some 3
unfolding cron_register lookup insert string_eq
replaced = refl
