-- ===== src/Router/TrackA/Waits.antt =====
-- How long one run of Track A waits at most, beside its number of fetches.
use wyndpy.Base.{
  ℕ, zero, suc, ◌+◌, ◌-◌, ◌*◌, ◌^◌, ◌≤◌, String, List, [], Option, none, some, true, contains,
  length, ◌≡◌, refl, subst, string_eq, ℕ_eq, arith,
}
use native.Mathlib.Nat.{pow-suc, one-le-pow}
use wyndpy.Core.Results.{Retrieval}
use wyndpy.Base.Reply.{Reply}
use wyndpy.Core.Escalation.{EscalationRule}
use wyndpy.Core.Protocols.{Fetcher, Searcher, Parser, TrustStrategy, Registry}
use wyndpy.Router.Setup.{Router, RouterConfig, new_router}
use wyndpy.Router.TrackA.Bounds
use wyndpy.Router.TrackA.Termination.{IsWired, ids, new_router-IsWired}
use wyndpy.Router.TrackA.Rounds.{walk-total-le}
use wyndpy.Router.Action.{State, Event, slept, fetch, sleep, call}
use wyndpy.Router.TrackA.{retry, fetch_with_retry, walk, resolve_known_source}
use wyndpy.Router.TrackA.Bounds.{
  fetches, fetch_weight, fetch_weight-IsLight, resolve_known_source-fetches-le,
}
use wyndpy.Router.TrackA.Costs.{
  total, Costs, Costs-mono, Costs-pure, Costs-bind, Costs-if, IsLight,
  resolve_known_source-total-le,
}

abbrev wait_weight : Event → ℕ
wait_weight (slept n) = n
wait_weight _ = 0

-- The time that the waits in a history take together.
abbrev pub waited : List Event → ℕ
waited = total wait_weight

wait_weight-IsLight : IsLight wait_weight
wait_weight-IsLight = record {
  parses = λ _ _ _. refl;
  saves = λ _. refl;
  acquires = λ _. refl;
  releases = λ _. refl;
}

-- What the waits before `left` more retries take together, from the given attempt on.
abbrev backoff : ℕ → ℕ → ℕ → ℕ
backoff base attempt zero = 0
backoff base attempt (suc left) = base * 2 ^ attempt + backoff base (attempt + 1) left

double : (base n : ℕ) → base * 2 ^ (n + 1) ≡ base * 2 ^ n + base * 2 ^ n
double base n = grind (arith, pow-suc 2 n)

backoff-sum :
    (base attempt left : ℕ)
    → backoff base attempt left + base * 2 ^ attempt ≡ base * 2 ^ (left + attempt)
backoff-sum base attempt zero = grind arith
backoff-sum base attempt (suc left) =
    grind (arith, double base attempt, backoff-sum base (attempt + 1) left)

less_one : (base n : ℕ) → 1 ≤ n → base * (n - 1) + base ≡ base * n
less_one base zero h = omega arith
less_one base (suc n) h = grind arith

backoff-closed : (base left : ℕ) → backoff base 0 left ≡ base * (2 ^ left - 1)
backoff-closed base left =
    let total_power : left + 0 ≡ left = omega arith in
    grind (
      arith,
      backoff-sum base 0 left,
      less_one base (2 ^ left) (one-le-pow left 2 (omega arith)),
      total_power,
    )

module _ {W : Type 0} (r : Router W) where
  fetch-Costs : (f : Fetcher W) (url : String) → Costs wait_weight 0 (fetch f url)
  unfolding fetch call
  fetch-Costs f url = record { at = λ s. omega arith }

  sleep-Costs : (n : ℕ) → Costs wait_weight n (sleep r n)
  unfolding sleep call
  sleep-Costs n = record { at = λ s. omega arith }

  retry-Costs :
      (f : Fetcher W) (url : String) (left attempt : ℕ) (outcome : Retrieval)
      → Costs wait_weight
          (backoff r.config.retry_backoff_base attempt left)
          (retry r f url left attempt outcome)
  unfolding retry
  retry-Costs f url zero attempt outcome = Costs-pure wait_weight outcome 0
  retry-Costs f url (suc left) attempt outcome =
      Costs-if wait_weight _ _ _ _ (Costs-pure wait_weight outcome _) (
        Costs-mono wait_weight
          (Costs-bind wait_weight _ _ _ _ (sleep-Costs _) λ _.
            Costs-bind wait_weight 0 _ _ _ (fetch-Costs f url)
              λ next. retry-Costs f url left (attempt + 1) next)
          (omega arith))

  fetch_with_retry-Costs :
      (url : String) (f : Fetcher W)
      → Costs wait_weight
          (r.config.retry_backoff_base * (2 ^ r.config.retry_attempts - 1))
          (fetch_with_retry r f url)
  unfolding fetch_with_retry
  fetch_with_retry-Costs url f =
      Costs-mono wait_weight
        (Costs-bind wait_weight 0 _ _ _ (fetch-Costs f url)
          λ o. retry-Costs f url r.config.retry_attempts 0 o)
        (omega (arith, backoff-closed r.config.retry_backoff_base r.config.retry_attempts))

-- Whatever the adapters answer or raise, the loop of a router that the constructor built makes at
-- most one fetch and `retry_attempts` retries for each fetcher of the router, and its waits take
-- together at most `retry_backoff_base` times `2 ^ retry_attempts - 1` for each fetcher, from
-- whichever of its fetchers it starts and however many rounds it is given; and so does a run of
-- `resolve_known_source`.
pub new_router-walk-le :
    {W : Type 0} (fs : List (Fetcher W)) (searchers : List (Searcher W)) (parsers : List (Parser W))
    (trust : TrustStrategy W) (registry : Registry W) (config : Option RouterConfig)
    (rules : Option (List EscalationRule)) (pause : ℕ → W → Reply (Unit {0}) × W) (r : Router W)
    (rounds : ℕ) (url : String) (f : Fetcher W) (s : State W)
    → new_router fs searchers parsers trust registry config rules pause ≡ r
    → contains (ids r.fetchers) f.object_id ≡ true
    → (fetches (walk r rounds url (some f) 0 none [] s).1.history
        ≤ fetches s.history + length r.fetchers * (1 + r.config.retry_attempts))
      × (waited (walk r rounds url (some f) 0 none [] s).1.history
          ≤ waited s.history
            + length r.fetchers * (r.config.retry_backoff_base * (2 ^ r.config.retry_attempts - 1)))
      × (fetches (resolve_known_source r s).1.history
          ≤ fetches s.history + length r.fetchers * (1 + r.config.retry_attempts))
      × (waited (resolve_known_source r s).1.history
          ≤ waited s.history
            + length r.fetchers * (r.config.retry_backoff_base * (2 ^ r.config.retry_attempts - 1)))
new_router-walk-le fs searchers parsers trust registry config rules pause r rounds url f s built
      listed =
    let wired : IsWired r =
      subst IsWired built
        (new_router-IsWired fs searchers parsers trust registry config rules pause) in
    (
      walk-total-le fetch_weight fetch_weight-IsLight r _ url (Bounds.fetch_with_retry-Costs r url)
          wired rounds f s listed,
      walk-total-le wait_weight wait_weight-IsLight r _ url (fetch_with_retry-Costs r url) wired
          rounds f s listed,
      resolve_known_source-fetches-le r s,
      resolve_known_source-total-le wait_weight wait_weight-IsLight r _ (fetch_with_retry-Costs r)
          s,
    )
