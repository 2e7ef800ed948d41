-- ===== src/Scheduling/Fire.antt =====
-- wyndpy/scheduling/event_adapter.py, `fire`: `asyncio.gather` runs the jobs of a trigger as tasks,
-- in any interleaving. A failure of one job is what `fire` raises, and the others run on. Which of
-- several failures it raises is left open.
pub mod Ends
pub mod Outcome
mod Tests
use wyndpy.Base.{String, List, [], ◌∷◌, Option, none, some, ◌≡◌, All}
use wyndpy.Base.Reply.{Exception, Reply, ok, raised}
use wyndpy.Core.Coroutine.{Coroutine, ended, awaits}
use wyndpy.Scheduling.{EventScheduler, jobs_to_fire}

-- What a call of a job gives.
abbrev pub Job : Type 0 → Type 0
Job W = Coroutine W (Unit {0})

module _ {W : Type 0} where
  -- A task goes on to its next `await`.
  pub data Run (w : W) : List (Job W) → W → List (Job W) → Type 0 where
    here :
        {rest : W → Job W} {effect : W → W} {ts : List (Job W)}
        → Run w (awaits rest effect ∷ ts) (effect w) (rest w ∷ ts)
    there : {c : Job W} {ts us : List (Job W)} {v : W} → Run w ts v us → Run w (c ∷ ts) v (c ∷ us)

  pub data Failed (e : Exception) : List (Job W) → Type 0 where
    this : {ts : List (Job W)} → Failed e (ended (raised e) ∷ ts)
    later : {c : Job W} {ts : List (Job W)} → Failed e ts → Failed e (c ∷ ts)

  abbrev pub IsReturned : Job W → Type 0
  IsReturned c = c ≡ ended (ok tt)

-- `outcome` is what `gather` has given to `fire`, if it has.
pub record Firing (W : Type 0) : Type 0 where
  pub tasks : List (Job W)
  pub world : W
  pub outcome : Option (Reply (Unit {0}))

module _ {W : Type 0} where
  unfoldable pub fire : String → EventScheduler (Job W) → W → Firing W
  fire trigger s w = record { tasks = jobs_to_fire trigger s; world = w; outcome = none }

  pub data Step (s : Firing W) : Firing W → Type 0 where
    run :
        {w : W} {ts : List (Job W)}
        → Run s.world s.tasks w ts
        → Step s (record s { tasks = ts; world = w })
    fail :
        {e : Exception}
        → s.outcome ≡ none
        → Failed e s.tasks
        → Step s (record s { outcome = some (raised e) })
    join : s.outcome ≡ none → All IsReturned s.tasks → Step s (record s { outcome = some (ok tt) })

  pub data Reach (start : Firing W) : Firing W → Type 0 where
    begin : Reach start start
    next : {s t : Firing W} → Reach start s → Step s t → Reach start t
