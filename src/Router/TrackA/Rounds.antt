-- ===== src/Router/TrackA/Rounds.antt =====
-- How much the rounds of Track A's loop add up to, however many rounds it is given.
use wyndpy.Base.{
  ℕ, zero, suc, ◌+◌, ◌*◌, ◌≤◌, ◌<◌, String, List, [], ◌∷◌, true, Option, none, some, contains,
  length, ◌≡◌, inl, inr, Bool-cases, string_eq, ℕ_eq, arith,
}
use wyndpy.Core.Results.{RetrievalError}
use wyndpy.Core.Protocols.{Fetcher}
use wyndpy.Router.Setup.{Router}
use wyndpy.Router.Action.{State, Event}
use wyndpy.Router.TrackA.{fetch_with_retry, escalate, walk}
use wyndpy.Router.TrackA.Costs.{
  total, Costs, Costs-mono, Costs-bind, Costs-exhaust, Costs-retrieval, IsLight, exhausted-Costs,
  on_result-Costs,
}
use wyndpy.Router.TrackA.Termination.{
  unvisited, unvisited-le-length, unvisited-cons-lt, IsWired, ids, length-ids, IsListed,
  escalate-IsListed,
}

-- One round more, of the same cost.
one_more : (n a b : ℕ) → a < b → n + a * n ≤ b * n
one_more n a zero h = omega (arith, h)
one_more n zero (suc b) h = omega arith
one_more n (suc a) (suc b) h =
    let smaller : a < b = omega (arith, h) in omega (arith, one_more n a b smaller)

mul_le : (n a b : ℕ) → a ≤ b → a * n ≤ b * n
mul_le n zero b h = omega arith
mul_le n (suc a) b h = omega (arith, one_more n a b h)

module _ {W : Type 0} (weight : Event → ℕ) (light : IsLight weight) (r : Router W) (per_round : ℕ)
    (url : String)
    (round-Costs : (f : Fetcher W) → Costs weight per_round (fetch_with_retry r f url))
    (wired : IsWired r) where
  -- The loop tries each fetcher of the router that it has not visited once, at most.
  walk-Costs :
      (fuel : ℕ) (current : Option (Fetcher W)) (legacy_idx : ℕ)
      (last_error : Option RetrievalError) (visited : List ℕ)
      → IsListed r.fetchers current
      → Costs weight
          (unvisited visited (ids r.fetchers) * per_round)
          (walk r fuel url current legacy_idx last_error visited)
  unfolding walk
  walk-Costs fuel none legacy_idx last_error visited h =
      exhausted-Costs weight light r per_round url round-Costs last_error _
  walk-Costs zero (some f) legacy_idx last_error visited h =
      elim (Bool-cases (contains visited f.object_id)) [
        | inl old ↦ rw old (exhausted-Costs weight light r per_round url round-Costs last_error _)
        | inr new ↦ rw new (Costs-exhaust weight _)
      ]
  walk-Costs (suc fuel) (some f) legacy_idx last_error visited h =
      elim (Bool-cases (contains visited f.object_id)) [
        | inl old ↦ rw old (exhausted-Costs weight light r per_round url round-Costs last_error _)
        | inr new ↦
            let fewer = unvisited-cons-lt f.object_id visited (ids r.fetchers) h new in
            let rest : ℕ = unvisited (f.object_id ∷ visited) (ids r.fetchers) * per_round in
            rw new (
              Costs-mono weight
                (Costs-bind weight per_round rest _ _ (round-Costs f) λ o.
                  Costs-retrieval weight o rest _ _
                    (λ res.
                      Costs-mono weight
                        (on_result-Costs weight light r per_round url round-Costs f res)
                        (omega arith))
                    λ e.
                      walk-Costs fuel (escalate r f e.error_type (legacy_idx + 1)) (legacy_idx + 1)
                        (some e) (f.object_id ∷ visited)
                        (escalate-IsListed r f e.error_type (legacy_idx + 1) wired))
                (one_more per_round _ _ fewer))
      ]

  -- From one of the router's fetchers, it adds at most what one fetcher adds, for each fetcher.
  pub walk-total-le :
      (fuel : ℕ) (f : Fetcher W) (s : State W)
      → contains (ids r.fetchers) f.object_id ≡ true
      → total weight (walk r fuel url (some f) 0 none [] s).1.history
        ≤ total weight s.history + length r.fetchers * per_round
  walk-total-le fuel f s listed =
      let bound = (walk-Costs fuel (some f) 0 none [] listed).at s in
      let each : unvisited [] (ids r.fetchers) ≤ length r.fetchers =
        omega (arith, unvisited-le-length [] (ids r.fetchers), length-ids r.fetchers) in
      omega (arith, bound, mul_le per_round _ _ each)
