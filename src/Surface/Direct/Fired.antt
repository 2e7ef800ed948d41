-- ===== src/Surface/Direct/Fired.antt =====
-- One job, fired by a trigger or run from synchronous code.
use wyndpy.Base.{String, List, [], ◌∷◌, false, some, ◌≡◌, refl, sym, ap, ◌∙◌, subst, arith, All}
use wyndpy.Base.Reply.{Exception, Reply, ok, raised}
use wyndpy.Core.Coroutine.{ended, run_to_end}
use wyndpy.Scheduling.{EventScheduler, jobs_to_fire}
use wyndpy.Scheduling.Fire.{
  Job, Run, here, there, Failed, this, later, IsReturned, Firing, fire, run, fail, join, Reach,
  begin, next,
}
use wyndpy.Scheduling.Fire.Outcome.{Tells, fire-Tells}
use wyndpy.Surface.Direct.{run_sync}

module _ {W : Type 0} where
  -- One task, from which a run without another in between gives `end`.
  abbrev EndsIn : Reply (Unit {0}) × W → List (Job W) → W → Type 0
  EndsIn end ts w = (c : Job W) × ((ts ≡ c ∷ []) × (run_to_end c w ≡ end))

  cons_injective : {c d : Job W} {ts us : List (Job W)} → c ∷ ts ≡ d ∷ us → (c ≡ d) × (ts ≡ us)
  cons_injective e = ground (arith, e)

  nil-Run : {w v : W} {ts us : List (Job W)} → ts ≡ [] → Run w ts v us → ⊥
  nil-Run e here = cc
  nil-Run e (there _) = cc

  Run-one :
      (end : Reply (Unit {0}) × W) {w v : W} {ts us : List (Job W)}
      → Run w ts v us
      → EndsIn end ts w
      → EndsIn end us v
  unfolding run_to_end
  Run-one end {w} (here {rest} {effect} {ts}) (c, (e, h)) =
      let (same, none_left) = cons_injective e in
      (rest w, (ap (λ x. rest w ∷ x) none_left, subst (λ x. run_to_end x w ≡ end) (sym same) h))
  Run-one end (there r) (c, (e, h)) = absurd (nil-Run (cons_injective e).1 r)

  Reach-EndsIn :
      (end : Reply (Unit {0}) × W) {start s : Firing W}
      → EndsIn end start.tasks start.world
      → Reach start s
      → EndsIn end s.tasks s.world
  Reach-EndsIn end h begin = h
  Reach-EndsIn end h (next r (run moved)) = Run-one end moved (Reach-EndsIn end h r)
  Reach-EndsIn end h (next r (fail _ _)) = Reach-EndsIn end h r
  Reach-EndsIn end h (next r (join _ _)) = Reach-EndsIn end h r

  Failed-nil : {e : Exception} {ts : List (Job W)} → ts ≡ [] → Failed e ts → ⊥
  Failed-nil h this = cc
  Failed-nil h (later _) = cc

  Failed-one :
      {e : Exception} {ts : List (Job W)} (c : Job W)
      → ts ≡ c ∷ []
      → Failed e ts
      → c ≡ ended (raised e)
  Failed-one c h this = sym (cons_injective h).0
  Failed-one c h (later failed) = absurd (Failed-nil (cons_injective h).1 failed)

  -- What an outcome tells of one task.
  Tells-one :
      (x : Reply (Unit {0})) (c : Job W) (ts : List (Job W))
      → ts ≡ c ∷ []
      → Tells (some x) ts
      → c ≡ ended x
  Tells-one (ok tt) c ts e h = (subst (All IsReturned) e h).0
  Tells-one (raised x) c ts e h = Failed-one c e h

-- Where one job stands under a trigger, `fire` has the outcome, if it has any, that `run_sync` of
-- the job has outside an event loop, and leaves the world as `run_sync` does.
pub fire-run_sync :
    {W : Type 0} (trigger : String) (e : EventScheduler (Job W)) (w : W) (job : Job W)
    {s : Firing W} (x : Reply (Unit {0}))
    → jobs_to_fire trigger e ≡ job ∷ []
    → Reach (fire trigger e w) s
    → s.outcome ≡ some x
    → run_sync false job w ≡ (x, s.world)
unfolding fire run_sync run_to_end
fire-run_sync trigger e w job {s} x one r given =
    let end = run_to_end job w in
    let (c, (alone, ends)) = Reach-EndsIn end {start = fire trigger e w} (job, (one, refl)) r in
    let over : c ≡ ended x =
      Tells-one x c s.tasks alone (subst (λ o. Tells o s.tasks) given (fire-Tells trigger e w r)) in
    sym ends ∙ ap (λ d. run_to_end d s.world) over
