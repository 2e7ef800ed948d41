-- ===== src/Router/Tests.antt =====
-- Runs of the router over fake adapters, and the theorems at concrete data.
use wyndpy.Base.{
  ℕ, String, List, [], ◌∷◌, Option, none, some, ◌≡◌, ◌≢◌, ◌≤◌, ◌↔◌, refl, pair_eq, string_eq, ℕ_eq,
}
use wyndpy.Base.Dict
use wyndpy.Base.Dict.{Dict}
use wyndpy.Base.Text.{includes}
use wyndpy.Base.Reply.{ok}
use wyndpy.Core.Results.{Retrieval, result, error_in, Candidate}
use wyndpy.Core.Item.{resolved}
use wyndpy.Core.Escalation.{EscalationRule}
use wyndpy.Testing.{fake_fetch, fake_search, fake_parse}
use wyndpy.Router.Setup.{
  RouterConfig, default_config, new_router, next_fetcher_config_driven, parser_for_content_type,
}
use wyndpy.Router.Action.{
  State, Exit, acquired, released, returned, out_of_fuel, ◌>>=◌, call, modify_item, fetch, sleep,
  parse, search_for, ask_trust, upsert, lock_for, with_lock,
}
use wyndpy.Router.TrackA.{
  retry, fetch_with_retry, run_parser, on_result, exhausted, escalate, walk, fetch_first,
  known_source, resolve_known_source,
}
use wyndpy.Router.TrackB.{merge, accept, scan, search_all, discovery, discover_source}
use wyndpy.Router.Resolve.{fetch_known, resolve}
use wyndpy.Router.History.{Did}
use wyndpy.Router.TrackA.Safety.{IsFastPath, resolve_known_source-IsFastPath}
use wyndpy.Router.TrackA.Bounds.{fetches}
use wyndpy.Router.TrackA.Waits.{waited, new_router-walk-le}
use wyndpy.Router.TrackA.Termination.{new_router-resolve_known_source-ends}
use wyndpy.Router.TrackA.Endings.{Settled, resolve_known_source-Ending}
use wyndpy.Router.TrackB.Chosen.{Chooses}
use wyndpy.Router.TrackB.Chosen.Outcome.{discover_source-Chooses}
use wyndpy.Router.TrackB.Merge.{
  IsStaged, discover_source-IsStaged, IsMerged, discover_source-IsMerged,
}
use wyndpy.Router.Resolve.Review.{IsNoFetch, resolve-IsNoFetch, resolve-eq-fetch_known}
use wyndpy.Router.Resolve.Saved.{IsSaved, resolve-IsSaved}
use wyndpy.Router.Desk.{
  Desk, desk, fast_fetcher, slow_fetcher, desk_searcher, desk_parser, trusting, desk_registry,
  no_wait, page, hit, rule, automatic, router, fresh, known,
}

-- Opens all that a run of Track A computes with.
known_run : RouterConfig → List EscalationRule → State Desk → Exit Retrieval × State Desk
unfolding router resolve_known_source known_source fetch_first walk escalate exhausted on_result
    run_parser fetch_with_retry retry ◌>>=◌ call modify_item fetch sleep parse upsert lock_for
    with_lock next_fetcher_config_driven parser_for_content_type error_in fake_fetch fake_parse
    Dict.lookup Dict.insert includes ℕ_eq
known_run config rules s = resolve_known_source (router config rules) s

discovery_run : RouterConfig → State Desk → Exit (Option Candidate) × State Desk
unfolding router discover_source discovery search_all scan accept merge ◌>>=◌ call modify_item
    search_for ask_trust upsert lock_for with_lock fake_search Dict.lookup Dict.insert string_eq
discovery_run config s = discover_source (router config []) s

-- The empty shell escalates to the second fetcher, by a rule and by the order of the list.
escalated_by_rule : (known_run default_config (rule ∷ []) known).0 ≡ returned (result page)
unfolding known_run
escalated_by_rule = refl

escalated_in_order : (known_run default_config [] known).1.item.status ≡ resolved
unfolding known_run
escalated_in_order = refl

discovered : (discovery_run default_config fresh).0 ≡ returned (some hit)
unfolding discovery_run
discovered = refl

staged : (discovery_run default_config known).1.item.candidate_sources ≡ "https://a.example/p" ∷ []
unfolding discovery_run
staged = refl

resolve_known_source-IsFastPath_example :
    IsFastPath "https://a.example/p" known (known_run default_config [] known).1
unfolding known_run
resolve_known_source-IsFastPath_example =
    resolve_known_source-IsFastPath (router default_config []) known "https://a.example/p" [] refl

resolve-IsSaved_example :
    IsSaved fresh (resolve_known_source (router automatic []) fresh).1
    × IsSaved fresh (discover_source (router automatic []) fresh).1
    × IsSaved fresh (resolve (router automatic []) fresh).1
resolve-IsSaved_example = resolve-IsSaved (router automatic []) fresh

-- Two fetchers with one retry each, before which 200 ms are waited, and ten rounds.
new_router-walk-le_example :
    (fetches
        (walk
          (router automatic [])
          10
          "https://a.example/p"
          (some fast_fetcher)
          0
          none
          []
          known).1.history
      ≤ 4)
    × (waited
          (walk
            (router automatic [])
            10
            "https://a.example/p"
            (some fast_fetcher)
            0
            none
            []
            known).1.history
        ≤ 400000)
    × (fetches (known_run automatic [] known).1.history ≤ 4)
    × (waited (known_run automatic [] known).1.history ≤ 400000)
unfolding known_run new_router
new_router-walk-le_example =
    new_router-walk-le (fast_fetcher ∷ slow_fetcher ∷ []) (desk_searcher ∷ []) (desk_parser ∷ [])
      trusting desk_registry (some automatic) (some []) no_wait (router automatic []) 10
      "https://a.example/p" fast_fetcher known refl refl

new_router-resolve_known_source-ends_example :
    (known_run default_config (rule ∷ []) known).0 ≢ out_of_fuel
unfolding known_run
new_router-resolve_known_source-ends_example =
    new_router-resolve_known_source-ends (fast_fetcher ∷ slow_fetcher ∷ []) (desk_searcher ∷ [])
      (desk_parser ∷ []) trusting desk_registry (some default_config) (some (rule ∷ [])) no_wait
      known

resolve_known_source-Ending_example :
    (url : String) × (others : List String) × (lock : ℕ) × (s' : State Desk) × (u : State Desk)
    × (known.item.current_sources ≡ url ∷ others)
    × (s'.item ≡ known.item)
    × (s'.world ≡ known.world)
    × (s'.history ≡ acquired lock ∷ known.history)
    × Settled (router default_config []) url (some fast_fetcher) 0 none [] s' (result page) u
    × ((known_run default_config [] known).1.item ≡ u.item)
    × ((known_run default_config [] known).1.history ≡ released lock ∷ u.history)
unfolding known_run
resolve_known_source-Ending_example =
    resolve_known_source-Ending (router default_config []) fast_fetcher (slow_fetcher ∷ []) known
      (known_run default_config [] known).1 (result page) refl refl

discover_source-Chooses_example :
    ((t : State Desk) × (discover_source (router default_config []) fresh
        ≡ (returned (some hit), t))
      × (t.item ≡ merge hit fresh.item)
      × (t.world ≡ (discovery_run default_config fresh).1.world))
    ↔ ((v : Desk) × Chooses
          (router default_config [])
          fresh.item
          (desk_searcher ∷ [])
          desk
          (some hit)
          v
        × (merge hit fresh.item ≡ merge hit fresh.item)
        × (desk_registry.upsert (merge hit fresh.item) v
            ≡ (ok tt, (discovery_run default_config fresh).1.world)))
unfolding router
discover_source-Chooses_example =
    discover_source-Chooses (router default_config []) fresh (some hit) (merge hit fresh.item)
      (discovery_run default_config fresh).1.world

discover_source-IsStaged_example : IsStaged (discovery_run default_config known).1.item
unfolding discovery_run
discover_source-IsStaged_example =
    discover_source-IsStaged (router default_config []) known (discovery_run default_config known).1
      (some hit) (record { seen = λ url m. m; distinct = tt; seen_once = tt }) refl

discover_source-IsMerged_example :
    IsMerged (some hit) fresh.item (discovery_run default_config fresh).1.item
unfolding discovery_run
discover_source-IsMerged_example =
    discover_source-IsMerged (router default_config []) fresh (discovery_run default_config fresh).1
      (some hit) refl

resolve-IsNoFetch_example :
    Did IsNoFetch fresh (resolve (router default_config []) fresh).1
    × ((o : Option Retrieval)
        → (resolve (router default_config []) fresh).0 ≡ returned o
        → o ≡ none)
unfolding router
resolve-IsNoFetch_example = resolve-IsNoFetch (router default_config []) fresh refl refl

resolve-eq-fetch_known_example :
    (resolve (router automatic []) fresh
      ≡ fetch_known (router automatic []) (discovery_run automatic fresh).1)
    × ((discovery_run automatic fresh).1.item.current_sources ≡ "https://a.example/p" ∷ [])
unfolding discovery_run
resolve-eq-fetch_known_example =
    resolve-eq-fetch_known (router automatic []) fresh (discovery_run automatic fresh).1 hit refl
      refl refl
