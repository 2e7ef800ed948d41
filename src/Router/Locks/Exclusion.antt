-- ===== src/Router/Locks/Exclusion.antt =====
-- One section at a time for each item's id, and no waiting for another id.
use wyndpy.Base.{ℕ, String, none, ℕ_eq, string_eq, ◌≡◌, ◌⊎◌, ap, ◌∙◌, inl, inr, Option-cases, arith}
use wyndpy.Router.Locks.{outside, waiting, inside, Tasks, Step, enter, leave, Reach}
use wyndpy.Router.Locks.Invariant.{Reach-Inv, update-same, update-other}

-- At any time at most one task is in a section for an item's id.
pub mutual_exclusion :
    {s : Tasks} (i j : ℕ) (id : String) (l m : ℕ)
    → Reach s
    → s.pc i ≡ inside id l
    → s.pc j ≡ inside id m
    → i ≡ j
mutual_exclusion {s} i j id l m r at_i at_j =
    let h = Reach-Inv r in
    let (has_i, owns_i) = h.works i id l at_i in
    let (has_j, owns_j) = h.works j id m at_j in ground (arith, has_i, has_j, owns_i, owns_j)

-- A task that waits can go on, or waits for a task in a section for the same id, which can leave.
pub waiting_progress :
    {s : Tasks} (i : ℕ) (id : String) (l : ℕ)
    → Reach s
    → s.pc i ≡ waiting id l
    → ((t : Tasks) × Step s t × (t.pc i ≡ inside id l))
      ⊎ ((j : ℕ) × (s.pc j ≡ inside id l)
          × ((t : Tasks) × Step s t × (t.owner l ≡ none) × (t.pc i ≡ waiting id l)))
waiting_progress {s} i id l r waits =
    let h = Reach-Inv r in
    elim (Option-cases (s.owner l)) [
      | inl free ↦ inl (_, enter i id l waits free, update-same i (inside id l) s.pc)
      | inr (j, taken) ↦
          let (a, there) = h.owned j l taken in
          let same : a ≡ id =
            h.table.distinct a id l (h.works j a l there).0 (h.waits i id l waits) in
          let works : s.pc j ≡ inside id l = there ∙ ap (λ x. inside x l) same in
          inr (
            j,
            works,
            (
              _,
              leave j id l works,
              update-same l none s.owner,
              update-other j outside s.pc i (λ e. ground (arith, works, waits, ap s.pc e)) ∙ waits,
            ),
          )
    ]
