-- ===== src/Scheduling/Fire/Ends.antt =====
-- Every run of `fire` ends.
use mathlib.Core.WellFounded.{Acc}
use mathlib.Core.WellFounded.Acc.{intro}
use wyndpy.Base.{
  String, List, [], ◌∷◌, none, some, ◌≡◌, refl, sym, subst, ◌⊎◌, inl, inr, All, string_eq,
  Option-cases, arith,
}
use wyndpy.Base.Reply.{Exception, Reply, ok, raised}
use wyndpy.Scheduling.Fire.Outcome.{Tells, fire-Tells}
use wyndpy.Base.Dict.{lookup}
use wyndpy.Scheduling.{new_cron, new_event, jobs_to_fire}
use wyndpy.Scheduling.Laws.{event_register_all, under, register_all-jobs}
use wyndpy.Core.Coroutine.{ended, awaits}
use wyndpy.Scheduling.Fire.{
  Job, Run, here, there, Failed, this, later, IsReturned, Firing, fire, Step, run, fail, join,
  Reach, begin, next,
}

module _ {W : Type 0} where
  -- What a move of a task makes of the tasks.
  abbrev After : List (Job W) → List (Job W) → Type 0
  After us ts = (w : W) × ((v : W) × Run w ts v us)

  awaits-Run :
      {f : W → Job W} {g : W → W} {w v : W} {ts us : List (Job W)}
      → Run w (awaits f g ∷ ts) v us
      → (us ≡ f w ∷ ts) ⊎ ((r : List (Job W)) × ((us ≡ awaits f g ∷ r) × After r ts))
  awaits-Run here = inl refl
  awaits-Run {w} {v} (there {us = us} r) = inr (us, (refl, (w, (v, r))))

  ended-Run :
      {w v : W} {x : Reply (Unit {0})} {ts us : List (Job W)}
      → Run w (ended x ∷ ts) v us
      → (r : List (Job W)) × ((us ≡ ended x ∷ r) × After r ts)
  ended-Run {w} {v} (there {us = us} r) = (us, (refl, (w, (v, r))))

  cons-Acc : (c : Job W) (ts : List (Job W)) → Acc After ts → Acc After (c ∷ ts)
  cons-Acc (ended x) ts (intro _ h) = intro (ended x ∷ ts) (λ us (w, (v, r)).
      let (rest, (same, after)) = ended-Run r in
      subst (Acc After) (sym same) (cons-Acc (ended x) rest (h rest after)))
  cons-Acc (awaits f g) ts (intro _ h) = intro (awaits f g ∷ ts) (λ us (w, (v, r)).
      elim (awaits-Run r) [
        | inl same ↦ subst (Acc After) (sym same) (cons-Acc (f w) ts (intro ts h))
        | inr (rest, (same, after)) ↦
            subst (Acc After) (sym same) (cons-Acc (awaits f g) rest (h rest after))
      ])

  nil-Run : {w v : W} {us : List (Job W)} → Run w [] v us → ⊥
  nil-Run r = elim r [ ]

  tasks-Acc : (ts : List (Job W)) → Acc After ts
  tasks-Acc [] = intro [] (λ us (w, (v, r)). absurd (nil-Run r))
  tasks-Acc (c ∷ ts) = cons-Acc c ts (tasks-Acc ts)

  -- What a step of `fire` makes of it.
  abbrev pub Next : Firing W → Firing W → Type 0
  Next t s = Step s t

  -- A step moves a task, or gives the outcome.
  Step-cases :
      {s t : Firing W}
      → Step s t
      → ((w : W) × ((ts : List (Job W)) × (Run s.world s.tasks w ts
              × (t ≡ record s { tasks = ts; world = w }))))
        ⊎ ((x : Reply (Unit {0})) × ((s.outcome ≡ none) × (t ≡ record s { outcome = some x })))
  Step-cases (run {w} {ts} r) = inl (w, (ts, (r, refl)))
  Step-cases (fail {e} free _) = inr (raised e, (free, refl))
  Step-cases (join free _) = inr (ok tt, (free, refl))

  -- Once `fire` has its outcome, only tasks go on.
  given-Acc :
      (s : Firing W) (x : Reply (Unit {0})) → s.outcome ≡ some x → Acc After s.tasks → Acc Next s
  given-Acc s x given (intro _ h) = intro s (λ t step. elim (Step-cases step) [
    | inl (w, (ts, (r, same))) ↦
        subst (Acc Next) (sym same)
          (given-Acc (record s { tasks = ts; world = w }) x given (h ts (s.world, (w, r))))
    | inr (y, (free, same)) ↦ absurd (ground (arith, given, free))
  ])

  firing-Acc : (s : Firing W) → Acc After s.tasks → Acc Next s
  firing-Acc s (intro _ h) = intro s (λ t step. elim (Step-cases step) [
    | inl (w, (ts, (r, same))) ↦
        subst (Acc Next) (sym same)
          (firing-Acc (record s { tasks = ts; world = w }) (h ts (s.world, (w, r))))
    | inr (y, (free, same)) ↦
        subst (Acc Next) (sym same)
          (given-Acc (record s { outcome = some y }) y refl (intro s.tasks h))
  ])

  abbrev pub IsEnded : Job W → Type 0
  IsEnded c = (x : Reply (Unit {0})) × (c ≡ ended x)

  Run-cases :
      (w : W) (ts : List (Job W))
      → ((v : W) × ((us : List (Job W)) × Run w ts v us)) ⊎ All IsEnded ts
  Run-cases w [] = inr tt
  Run-cases w (awaits f g ∷ ts) = inl (g w, (f w ∷ ts, here))
  Run-cases w (ended x ∷ ts) = elim (Run-cases w ts) [
    | inl (v, (us, r)) ↦ inl (v, (ended x ∷ us, there r))
    | inr h ↦ inr ((x, refl), h)
  ]

  IsEnded-cases :
      (ts : List (Job W)) → All IsEnded ts → ((e : Exception) × Failed e ts) ⊎ All IsReturned ts
  IsEnded-cases [] h = inr tt
  IsEnded-cases (c ∷ ts) ((raised e, same), h) =
      inl (e, subst (λ x. Failed e (x ∷ ts)) (sym same) this)
  IsEnded-cases (c ∷ ts) ((ok u, same), h) = elim (IsEnded-cases ts h) [
    | inl (e, failed) ↦ inl (e, later failed)
    | inr rest ↦ inr (same, rest)
  ]

  -- With no step left, each task has ended and `fire` has its outcome.
  pub stuck-IsEnded :
      (s : Firing W)
      → ((t : Firing W) → ¬ (Step s t))
      → All IsEnded s.tasks × ((x : Reply (Unit {0})) × (s.outcome ≡ some x))
  stuck-IsEnded s stuck = elim (Run-cases s.world s.tasks) [
    | inl (v, (us, r)) ↦ absurd (stuck _ (run r))
    | inr h ↦ (
      h,
      elim (Option-cases s.outcome) [
        | inr given ↦ given
        | inl free ↦ elim (IsEnded-cases s.tasks h) [
          | inl (e, failed) ↦ absurd (stuck _ (fail free failed))
          | inr returned ↦ absurd (stuck _ (join free returned))
        ]
      ],
    )
  ]

-- What may be left of a job: itself, or what goes on from an `await` that it has come to.
pub data Rest {W : Type 0} (job : Job W) : Job W → Type 0 where
  whole : Rest job job
  after_await : {f : W → Job W} {g : W → W} (w : W) → Rest job (awaits f g) → Rest job (f w)

-- Each task is what is left of the job at its place.
pub data AreRests {W : Type 0} : List (Job W) → List (Job W) → Type 0 where
  no_jobs : AreRests [] []
  rest_of :
      {job c : Job W} {jobs ts : List (Job W)}
      → Rest job c
      → AreRests jobs ts
      → AreRests (job ∷ jobs) (c ∷ ts)

whole-AreRests : {W : Type 0} (jobs : List (Job W)) → AreRests jobs jobs
whole-AreRests [] = no_jobs
whole-AreRests (job ∷ jobs) = rest_of whole (whole-AreRests jobs)

Run-AreRests :
    {W : Type 0} {w v : W} {jobs ts us : List (Job W)}
    → Run w ts v us
    → AreRests jobs ts
    → AreRests jobs us
Run-AreRests here (rest_of r rs) = rest_of (after_await _ r) rs
Run-AreRests (there moved) (rest_of r rs) = rest_of r (Run-AreRests moved rs)

-- No job is dropped, started twice or replaced.
Reach-AreRests :
    {W : Type 0} {s t : Firing W} {jobs : List (Job W)}
    → Reach s t
    → AreRests jobs s.tasks
    → AreRests jobs t.tasks
Reach-AreRests begin h = h
Reach-AreRests (next r (run moved)) h = Run-AreRests moved (Reach-AreRests r h)
Reach-AreRests (next r (fail _ _)) h = Reach-AreRests r h
Reach-AreRests (next r (join _ _)) h = Reach-AreRests r h

registered-jobs :
    {W : Type 0} (trigger : String) (regs : List (String × Job W))
    → jobs_to_fire trigger (event_register_all regs new_event) ≡ under trigger regs
unfolding jobs_to_fire lookup
registered-jobs trigger regs = (register_all-jobs regs trigger new_event new_cron).0

-- However jobs that each end after some number of awaits are interleaved, firing a trigger of a new
-- scheduler after any registrations ends: there is no endless run of steps. At any time the tasks
-- are what is left of the jobs registered under that trigger, one for each, in order; `fire` has
-- returned only if all of them have, and has raised only what one of them has raised; and where no
-- step is left, each has ended, those beside one that failed too, and `fire` has its outcome.
pub fire-ends :
    {W : Type 0} (trigger : String) (regs : List (String × Job W)) (w : W)
    → Acc Next (fire trigger (event_register_all regs new_event) w)
      × ((s : Firing W)
          → Reach (fire trigger (event_register_all regs new_event) w) s
          → AreRests (under trigger regs) s.tasks
            × Tells s.outcome s.tasks
            × (((t : Firing W) → ¬ (Step s t))
                → All IsEnded s.tasks × ((x : Reply (Unit {0})) × (s.outcome ≡ some x))))
unfolding fire
fire-ends trigger regs w =
    let e = event_register_all regs new_event in
    let started : AreRests (under trigger regs) (jobs_to_fire trigger e) =
      subst (AreRests (under trigger regs)) (sym (registered-jobs trigger regs))
        (whole-AreRests (under trigger regs)) in
    (
      firing-Acc (fire trigger e w) (tasks-Acc (jobs_to_fire trigger e)),
      λ s r. (Reach-AreRests r started, fire-Tells trigger e w r, stuck-IsEnded s),
    )
