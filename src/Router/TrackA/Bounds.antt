-- ===== src/Router/TrackA/Bounds.antt =====
-- How many fetches one run of Track A makes at most.
use wyndpy.Base.{ℕ, zero, suc, ◌+◌, ◌*◌, ◌≤◌, String, List, length, refl, ℕ_eq, arith}
use wyndpy.Core.Results.{Retrieval}
use wyndpy.Core.Protocols.{Fetcher}
use wyndpy.Router.Setup.{Router}
use wyndpy.Router.Action.{State, Event, fetched, fetch, sleep, call}
use wyndpy.Router.TrackA.{retry, fetch_with_retry, resolve_known_source}
use wyndpy.Router.TrackA.Costs.{
  total, Costs, Costs-mono, Costs-pure, Costs-bind, Costs-if, IsLight,
  resolve_known_source-total-le,
}

abbrev pub fetch_weight : Event → ℕ
fetch_weight (fetched _ _) = 1
fetch_weight _ = 0

-- The fetches in a history.
abbrev pub fetches : List Event → ℕ
fetches = total fetch_weight

pub fetch_weight-IsLight : IsLight fetch_weight
fetch_weight-IsLight = record {
  parses = λ _ _ _. refl;
  saves = λ _. refl;
  acquires = λ _. refl;
  releases = λ _. refl;
}

module _ {W : Type 0} (r : Router W) where
  fetch-Costs : (f : Fetcher W) (url : String) → Costs fetch_weight 1 (fetch f url)
  unfolding fetch call
  fetch-Costs f url = record { at = λ s. omega arith }

  sleep-Costs : (n : ℕ) → Costs fetch_weight 0 (sleep r n)
  unfolding sleep call
  sleep-Costs n = record { at = λ s. omega arith }

  retry-Costs :
      (f : Fetcher W) (url : String) (left attempt : ℕ) (outcome : Retrieval)
      → Costs fetch_weight left (retry r f url left attempt outcome)
  unfolding retry
  retry-Costs f url zero attempt outcome = Costs-pure fetch_weight outcome 0
  retry-Costs f url (suc left) attempt outcome =
      Costs-if fetch_weight _ (suc left) _ _ (Costs-pure fetch_weight outcome (suc left)) (
        Costs-mono fetch_weight
          (Costs-bind fetch_weight 0 (1 + left) _ _ (sleep-Costs _) λ _.
            Costs-bind fetch_weight 1 left _ _ (fetch-Costs f url)
              λ next. retry-Costs f url left (attempt + 1) next)
          (omega arith))

  pub fetch_with_retry-Costs :
      (url : String) (f : Fetcher W)
      → Costs fetch_weight (1 + r.config.retry_attempts) (fetch_with_retry r f url)
  unfolding fetch_with_retry
  fetch_with_retry-Costs url f =
      Costs-bind fetch_weight 1 _ _ _ (fetch-Costs f url)
        λ o. retry-Costs f url r.config.retry_attempts 0 o

-- Whatever the adapters answer or raise, one run of `resolve_known_source` makes at most one
-- fetch and `retry_attempts` retries for each fetcher of the router.
pub resolve_known_source-fetches-le :
    {W : Type 0} (r : Router W) (s : State W)
    → fetches (resolve_known_source r s).1.history
      ≤ fetches s.history + length r.fetchers * (1 + r.config.retry_attempts)
resolve_known_source-fetches-le r s =
    resolve_known_source-total-le fetch_weight fetch_weight-IsLight r _ (fetch_with_retry-Costs r) s
