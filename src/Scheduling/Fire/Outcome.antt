-- ===== src/Scheduling/Fire/Outcome.antt =====
-- What the outcome of `fire` tells of the jobs.
use wyndpy.Base.{String, List, Option, none, some, ◌≡◌, refl, sym, subst, All}
use wyndpy.Base.Reply.{Exception, Reply, ok, raised}
use wyndpy.Scheduling.{EventScheduler}
use wyndpy.Scheduling.Fire.{
  Job, Run, here, there, Failed, this, later, IsReturned, Firing, fire, run, fail, join, Reach,
  begin, next,
}

module _ {W : Type 0} where
  Run-Failed :
      {w v : W} {e : Exception} {ts us : List (Job W)} → Run w ts v us → Failed e ts → Failed e us
  Run-Failed (there r) this = this
  Run-Failed (there r) (later h) = later (Run-Failed r h)
  Run-Failed here (later h) = later h

  Run-IsReturned : {w v : W} {ts us : List (Job W)} → Run w ts v us → All IsReturned ts → ⊥
  Run-IsReturned here (same, _) = cc
  Run-IsReturned (there r) (_, h) = Run-IsReturned r h

  -- What an outcome tells of the tasks.
  abbrev pub Tells : Option (Reply (Unit {0})) → List (Job W) → Type 0
  Tells none ts = Unit
  Tells (some (ok _)) ts = All IsReturned ts
  Tells (some (raised e)) ts = Failed e ts

  Run-Tells :
      {w v : W} {ts us : List (Job W)} (o : Option (Reply (Unit {0})))
      → Run w ts v us
      → Tells o ts
      → Tells o us
  Run-Tells none r h = tt
  Run-Tells (some (ok _)) r h = absurd (Run-IsReturned r h)
  Run-Tells (some (raised e)) r h = Run-Failed r h

  outcome-Tells : {s t : Firing W} → s.outcome ≡ none → Reach s t → Tells t.outcome t.tasks
  outcome-Tells {s} e begin = subst (λ o. Tells o s.tasks) (sym e) tt
  outcome-Tells e (next {s = t} r (run moved)) = Run-Tells t.outcome moved (outcome-Tells e r)
  outcome-Tells e (next r (fail _ failed)) = failed
  outcome-Tells e (next r (join _ returned)) = returned

-- At any time after a trigger is fired, if `fire` has returned, then each of the jobs has returned,
-- and if it has raised an exception, then one of the jobs has raised it.
pub fire-Tells :
    {W : Type 0} (trigger : String) (e : EventScheduler (Job W)) (w : W) {s : Firing W}
    → Reach (fire trigger e w) s
    → Tells s.outcome s.tasks
unfolding fire
fire-Tells trigger e w r = outcome-Tells refl r
