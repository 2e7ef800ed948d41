-- ===== src/Factory/Served.antt =====
-- From a policy's allowlist to what the router fetches: the two fetchers that `_construct` makes
-- with it, behind one router. The state of the httpx fetcher is a part of the router's world.
mod Tests
use wyndpy.Base.{
  ℕ, String, List, [], ◌∷◌, Bool, true, Option, none, some, string_eq, ◌≡◌, ◌≢◌, refl, sym, ap, ◌∙◌,
  subst, All,
}
use wyndpy.Base.Dict.{Dict, lookup}
use wyndpy.Base.Reply.{Reply, ok}
use wyndpy.Base.Url.{Url, host_allowed}
use wyndpy.Base.Value.{Float}
use wyndpy.Core.Discovery.{EntryPoint, load_adapter_class}
use wyndpy.Core.Item.{ResolvableItem}
use wyndpy.Core.Protocols.{Fetcher, Searcher, Parser, TrustStrategy, Registry}
use wyndpy.Fetch.Network.{Platform, Http}
use wyndpy.Fetch.Guard.Safety.{IsPublic, IsAllowed, LookupKeeps}
use wyndpy.Fetch.Httpx.{HttpxFetcher}
use wyndpy.Fetch.Httpx.Effects as HttpxEffects
use wyndpy.Fetch.Httpx.Routed.{as_fetcher, IsServed, as_fetcher-FetchKeeps}
use wyndpy.Fetch.Firecrawl
use wyndpy.Fetch.Firecrawl.{FirecrawlFetcher, payload_for}
use wyndpy.Fetch.Firecrawl.Effects as FirecrawlEffects
use wyndpy.Trust.{trusts_host}
use wyndpy.Trust.Hosts.{normalize_allow-trusts_host}
use wyndpy.Policy.{Policy}
use wyndpy.Router.Setup.{new_router}
use wyndpy.Router.Action.{State, Event}
use wyndpy.Router.TrackA.{resolve_known_source}
use wyndpy.Router.TrackA.World.{FetchKeeps, ParseKeeps}
use wyndpy.Router.TrackA.Built.{SaveKeeps, SleepKeeps, new_router-IsKept}
use wyndpy.Factory.Allow.{normalize_allow}
use wyndpy.Factory.Construct.{AdapterClass, Credentials, kwargs_for, construct}
use wyndpy.Factory.Classes.{httpx_class, firecrawl_class}
use wyndpy.Factory.Classes.Given.{construct-httpx, construct-firecrawl}
use wyndpy.Factory.Build.{config_of}

-- An https URL whose host the trust strategy trusts, and that is public when it is looked up in
-- the world `w`.
pub record IsTrusted {W : Type 0} (os : Platform W) (spell : String → String) (allow : List String)
    (url : String) (w : W) : Type 0 where
  pub parts : Url
  pub host : String
  pub parsed : os.urlparse url ≡ ok parts
  pub secure : parts.scheme ≡ "https"
  pub hosted : parts.hostname ≡ some host
  pub public : IsPublic os host w
  pub trusted : trusts_host allow (spell host) ≡ true

IsAllowed-IsTrusted :
    {W : Type 0} (os : Platform W) (spell : String → String) (domains allow : List String)
    (url : String) (w : W)
    → domains ≡ normalize_allow allow
    → IsAllowed os spell domains url w
    → IsTrusted os spell allow url w
IsAllowed-IsTrusted os spell domains allow url w same h = record {
  parts = h.parts;
  host = h.host;
  parsed = h.parsed;
  secure = h.secure;
  hosted = h.hosted;
  public = h.public;
  trusted =
      normalize_allow-trusts_host (spell h.host) allow
        (subst (λ ds. host_allowed (spell h.host) ds ≡ true) same h.listed);
}

module _ {W C : Type 0} (os : Platform W) (http : Http W C) where
  -- The Firecrawl adapter behind the protocol. It does not touch the httpx fetcher.
  abbrev pub as_second : FirecrawlFetcher W → ℕ → Fetcher (HttpxFetcher C × W)
  as_second f id = record {
    object_id = id;
    name = "firecrawl";
    fetch = λ url v. let (x, w) = Firecrawl.fetch os http f url v.1 in (x, (v.0, w));
  }

module _ {W C : Type 0} (httpx_points : String → List (EntryPoint (AdapterClass (HttpxFetcher C))))
    (firecrawl_points : String → List (EntryPoint (AdapterClass (FirecrawlFetcher W))))
    (policy : Policy) (credentials : Credentials) (allow_stubs : Bool) (f : HttpxFetcher C)
    (fc : FirecrawlFetcher W) where
  -- `_construct` has made both fetchers for the policy, of the built-in classes, with credentials
  -- that give no allowlist of their own.
  pub record AreMade : Type 0 where
    pub httpx_loaded : load_adapter_class httpx_points "fetch" "httpx" ≡ ok httpx_class
    pub firecrawl_loaded :
        load_adapter_class firecrawl_points "fetch" "firecrawl" ≡ ok firecrawl_class
    pub httpx_open : lookup "allowlist_domains" (kwargs_for "httpx" credentials) ≡ none
    pub firecrawl_open : lookup "allowlist_domains" (kwargs_for "firecrawl" credentials) ≡ none
    pub httpx_made :
        construct httpx_points "fetch" "httpx" credentials allow_stubs (some policy.trust_allow)
        ≡ ok f
    pub firecrawl_made :
        construct firecrawl_points "fetch" "firecrawl" credentials allow_stubs
          (some policy.trust_allow)
        ≡ ok fc

module _ {W C : Type 0} (os : Platform W) (http : Http W C) (Q : W → Type 0) where
  -- What keeps `Q`: lookups, new clients, and GETs and scrapes of URLs that are trusted.
  pub record IsHarmless (allow : List String) (fc : FirecrawlFetcher W) : Type 0 where
    pub lookups : LookupKeeps os Q
    pub create :
        (timeout_s : Float) (headers : List (String × String)) (redirects : Bool) (w : W)
        → Q w
        → Q (http.new_client timeout_s headers redirects w).1
    pub get :
        (c : C) (url : String) (v w : W)
        → IsTrusted os (λ host. host) allow url v
        → Q w
        → Q (http.get c url [] w).1
    pub scrape :
        (url : String) (v w : W)
        → IsTrusted os os.lower allow url v
        → Q w
        → Q (payload_for os http fc url w).1

  as_second-FetchKeeps :
      (f : HttpxFetcher C) (allow : List String) (fc : FirecrawlFetcher W) (id : ℕ)
      → fc.allowlist_domains ≡ normalize_allow allow
      → IsHarmless allow fc
      → FetchKeeps (IsServed os http Q f) (as_second os http fc id)
  unfolding Firecrawl.fetch
  as_second-FetchKeeps f allow fc id same h url (g, w) (kept, q) =
      let allows : FirecrawlEffects.Allows os http Q fc = record {
        lookup = h.lookups;
        scrape = λ u v w is_open.
            h.scrape u v w
              (IsAllowed-IsTrusted os os.lower fc.allowlist_domains allow u v same is_open);
      } in
      (kept, FirecrawlEffects.fetch-Keeps os http Q fc url w allows q)

  as_fetcher-kept :
      (f : HttpxFetcher C) (allow : List String) (fc : FirecrawlFetcher W) (id : ℕ)
      → f.allowlist_domains ≡ normalize_allow allow
      → IsHarmless allow fc
      → FetchKeeps (IsServed os http Q f) (as_fetcher os http id)
  as_fetcher-kept f allow fc id same h = as_fetcher-FetchKeeps os http Q f id (record {
    lookup = h.lookups;
    create = h.create;
    get = λ c u v w is_open.
        h.get c u v w
          (IsAllowed-IsTrusted os (λ host. host) f.allowlist_domains allow u v same is_open);
  })

  module _ (httpx_points : String → List (EntryPoint (AdapterClass (HttpxFetcher C))))
      (firecrawl_points : String → List (EntryPoint (AdapterClass (FirecrawlFetcher W))))
      (policy : Policy) (credentials : Credentials) (allow_stubs : Bool) (f : HttpxFetcher C)
      (fc : FirecrawlFetcher W) where
    -- Whatever property of the world is kept by lookups, new clients, and GETs and scrapes of https
    -- URLs with public hosts that the policy's trust strategy trusts, a run of
    -- `resolve_known_source` keeps it, for a router with the policy's configuration and rules over
    -- the httpx and the Firecrawl fetcher that `_construct` makes for the policy, of the built-in
    -- classes and with credentials that give no allowlist, whatever the item is, if the parsers,
    -- the registry's `upsert` and `sleep` keep it too, and the allowlist of the httpx fetcher with
    -- it.
    pub resolve_known_source-keeps_trust :
        (httpx_id firecrawl_id : ℕ) (ss : List (Searcher (HttpxFetcher C × W)))
        (ps : List (Parser (HttpxFetcher C × W))) (trust : TrustStrategy (HttpxFetcher C × W))
        (registry : Registry (HttpxFetcher C × W))
        (sleep : ℕ → HttpxFetcher C × W → Reply (Unit {0}) × (HttpxFetcher C × W))
        (i : ResolvableItem) (locks : Dict String ℕ) (h : List Event) (w : W)
        → AreMade httpx_points firecrawl_points policy credentials allow_stubs f fc
        → IsHarmless policy.trust_allow fc
        → All (ParseKeeps (IsServed os http Q f)) ps
        → SaveKeeps (IsServed os http Q f) registry
        → SleepKeeps (IsServed os http Q f) sleep
        → Q w
        → Q
            (resolve_known_source
              (new_router
                (as_fetcher os http httpx_id ∷ as_second os http fc firecrawl_id ∷ [])
                ss
                ps
                trust
                registry
                (some (config_of policy))
                (some policy.escalation_rules)
                sleep)
              (record { item = i; locks = locks; world = (f, w); history = h })).1.world.1
    resolve_known_source-keeps_trust httpx_id firecrawl_id ss ps trust registry sleep i locks h w
          made harmless parsers saves sleeps q =
        let allow = policy.trust_allow in
        let first =
          construct-httpx httpx_points credentials allow_stubs allow f made.httpx_loaded
            made.httpx_open made.httpx_made in
        let second =
          construct-firecrawl firecrawl_points credentials allow_stubs allow fc
            made.firecrawl_loaded made.firecrawl_open made.firecrawl_made in
        (new_router-IsKept (IsServed os http Q f)
          (as_fetcher os http httpx_id ∷ as_second os http fc firecrawl_id ∷ []) ss ps trust
          registry (some (config_of policy)) (some policy.escalation_rules) sleep
          (record { item = i; locks = locks; world = (f, w); history = h })
          (
            as_fetcher-kept f allow fc httpx_id first harmless,
            (as_second-FetchKeeps f allow fc firecrawl_id second harmless, tt),
          )
          parsers saves sleeps (refl, q)).1
