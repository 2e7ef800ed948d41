-- ===== src/Fetch/Httpx/Routed.antt =====
-- A router that fetches by the httpx adapter, whose state is a part of the router's world.
use wyndpy.Base.{
  ℕ, String, List, [], ◌∷◌, Bool, true, false, Option, string_eq, ◌≡◌, refl, ◌∙◌, subst, inl, inr,
  Option-cases, All, arith,
}
use wyndpy.Base.Reply.{Reply, ok, raised}
use wyndpy.Core.Escalation.{EscalationRule}
use wyndpy.Core.Protocols.{Fetcher, Searcher, Parser, TrustStrategy, Registry}
use wyndpy.Fetch.Network.{Platform, Http}
use wyndpy.Fetch.Guard.Safety.{IsAllowed}
use wyndpy.Fetch.Httpx.{HttpxFetcher, ensure_client, after_guard, allowed, fetch}
use wyndpy.Fetch.Httpx.Effects.{Allows, fetch-Keeps}
use wyndpy.Router.Setup.{RouterConfig, new_router}
use wyndpy.Router.Action.{State}
use wyndpy.Router.TrackA.{resolve_known_source}
use wyndpy.Router.TrackA.World.{FetchKeeps, ParseKeeps}
use wyndpy.Router.TrackA.Built.{SaveKeeps, SleepKeeps, new_router-IsKept}

module _ {W C : Type 0} (os : Platform W) (http : Http W C) where
  -- The adapter behind the protocol.
  abbrev pub as_fetcher : ℕ → Fetcher (HttpxFetcher C × W)
  as_fetcher id = record {
    object_id = id;
    name = "httpx";
    fetch = λ url v. fetch os http v.0 url v.1;
  }

  ensure_client-allow :
      (f : HttpxFetcher C) (w : W)
      → (ensure_client os http f w).1.0.allowlist_domains ≡ f.allowlist_domains
  unfolding ensure_client
  ensure_client-allow f w = elim (Option-cases f.client) [
    | inl fresh ↦ ground (arith, fresh)
    | inr (c, kept) ↦ ground (arith, kept)
  ]

  fetch-allow :
      (f : HttpxFetcher C) (url : String) (guard : Reply Bool × W)
      → (after_guard os http f url guard).1.0.allowlist_domains ≡ f.allowlist_domains
  unfolding after_guard
  fetch-allow f url (raised e, w) = refl
  fetch-allow f url (ok false, w) = refl
  fetch-allow f url (ok true, w) = ensure_client-allow f w

module _ {W C : Type 0} (os : Platform W) (http : Http W C) (Q : W → Type 0) where
  Allows-same :
      (f g : HttpxFetcher C)
      → g.allowlist_domains ≡ f.allowlist_domains
      → Allows os http Q f
      → Allows os http Q g
  Allows-same f g same allows = record {
    lookup = allows.lookup;
    create = allows.create;
    get = λ c url v w is_open q.
        allows.get c url v w (subst (λ allow. IsAllowed os (λ host. host) allow url v) same is_open)
          q;
  }

  -- The fetcher in the world has the allowlist of `f`, and the rest of the world keeps `Q`.
  abbrev pub IsServed : HttpxFetcher C → HttpxFetcher C × W → Type 0
  IsServed f v = (v.0.allowlist_domains ≡ f.allowlist_domains) × Q v.1

  pub as_fetcher-FetchKeeps :
      (f : HttpxFetcher C) (id : ℕ)
      → Allows os http Q f
      → FetchKeeps (IsServed f) (as_fetcher os http id)
  unfolding fetch
  as_fetcher-FetchKeeps f id allows url (g, w) (same, q) = (
    fetch-allow os http g url (allowed os http g url w) ∙ same,
    fetch-Keeps os http Q g url w (Allows-same f g same allows) q,
  )

  -- A router whose one fetcher is the httpx adapter: whatever property of the world name lookups,
  -- new clients and GETs of URLs that the adapter's guard allows keep, a run of
  -- `resolve_known_source` keeps, whatever the item's sources, the rules and the retries are, if
  -- the parsers, the registry's `upsert` and `sleep` keep it, and the adapter's allowlist with it.
  pub resolve_known_source-IsServed :
      (f : HttpxFetcher C) (id : ℕ) (ss : List (Searcher (HttpxFetcher C × W)))
      (ps : List (Parser (HttpxFetcher C × W))) (trust : TrustStrategy (HttpxFetcher C × W))
      (registry : Registry (HttpxFetcher C × W)) (config : Option RouterConfig)
      (rules : Option (List EscalationRule))
      (sleep : ℕ → HttpxFetcher C × W → Reply (Unit {0}) × (HttpxFetcher C × W))
      (s : State (HttpxFetcher C × W))
      → Allows os http Q f
      → All (ParseKeeps (IsServed f)) ps
      → SaveKeeps (IsServed f) registry
      → SleepKeeps (IsServed f) sleep
      → IsServed f s.world
      → IsServed f
          (resolve_known_source
            (new_router (as_fetcher os http id ∷ []) ss ps trust registry config rules sleep)
            s).1.world
  resolve_known_source-IsServed f id ss ps trust registry config rules sleep s allows parsers saves
        sleeps q =
      new_router-IsKept (IsServed f) (as_fetcher os http id ∷ []) ss ps trust registry config rules
        sleep s (as_fetcher-FetchKeeps f id allows, tt) parsers saves sleeps q
