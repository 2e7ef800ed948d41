-- ===== src/Factory/Served/Tests.antt =====
-- Both fetchers from one policy. The world is the list of the URLs that were requested.
use wyndpy.Base.{
  String, List, [], ◌∷◌, true, false, none, some, contains, ◌==◌, ==_iff, string_eq, ◌≡◌, refl, sym,
  subst, inl, inr, Bool-cases, arith, if◌then◌else◌,
}
use wyndpy.Base.Dict.{lookup, insert}
use wyndpy.Base.Reply.{Reply, ok, raised, value_error, http_timeout}
use wyndpy.Base.Text.{lstrip_glob}
use wyndpy.Base.Url.{Url}
use wyndpy.Base.Value.{text, texts, truthy}
use wyndpy.Core.Discovery.{EntryPoint, group_of, load_first, load_adapter_class}
use wyndpy.Core.Escalation.{EscalationRule}
use wyndpy.Core.Item.{new_item}
use wyndpy.Core.Protocols.{Registry, TrustStrategy}
use wyndpy.Fetch.Network.{IpAddress, Platform, Http, using_client}
use wyndpy.Fetch.Guard.{resolve_host}
use wyndpy.Fetch.Httpx.{HttpxFetcher, new_httpx, default_timeout_s, default_max_bytes}
use wyndpy.Fetch.Httpx.Routed.{as_fetcher}
use wyndpy.Fetch.Firecrawl.{FirecrawlFetcher, payload_for, scrape_live}
use wyndpy.Policy.{Policy, new_policy}
use wyndpy.Router.Setup.{new_router}
use wyndpy.Router.TrackA.{resolve_known_source}
use wyndpy.Factory.Allow.{normalize_allow}
use wyndpy.Factory.Build.{config_of}
use wyndpy.Factory.Construct.{
  AdapterClass, Credentials, with_allow, fetch_kwargs, search_kwargs, refuse_type_error,
  construct_class, construct,
}
use wyndpy.Factory.Classes.{
  texts_of, domains_arg, bind_kwargs, set_httpx, httpx_init, httpx_class, set_firecrawl,
  firecrawl_init, firecrawl_class, firecrawl_timeout_s,
}
use wyndpy.Factory.Served.{
  IsTrusted, as_second, IsHarmless, AreMade, resolve_known_source-keeps_trust,
}

abbrev World : Type 0
World = List String

abbrev parse_url : String → Reply Url
parse_url url =
    if url == "https://www.a.example/"
    then ok (record { scheme = "https"; hostname = some "www.a.example" })
    else ok (record { scheme = "https"; hostname = some "b.example" })

abbrev outside : IpAddress
outside = record { is_private = false; is_loopback = false; is_link_local = false }

abbrev platform : Platform World
platform = record {
  urlparse = parse_url;
  ip_address =
      λ name. if name == "93.184.216.34" then ok outside else raised (value_error "no address");
  gethostbyname = λ limit host w. (ok "93.184.216.34", w);
  sha256 = λ body. "digest";
  encode = λ s. ok [];
  lower = λ s. s;
  repr = λ v. "";
  float = λ v. raised (value_error "no number");
  now = λ w. 0;
  sleep = λ t w. (ok tt, w);
}

-- A GET times out, and a POST, to Firecrawl alone, is not noted.
abbrev http : Http World (Unit {0})
http = record {
  new_client = λ limit headers redirects w. (tt, w);
  get = λ c url headers w. (raised (http_timeout "get"), url ∷ w);
  post = λ c url headers body w. (raised (http_timeout "post"), w);
  upload = λ c url headers name body mime w. (raised (http_timeout "upload"), w);
  aclose = λ c w. (ok tt, w);
}

abbrev httpx_points : String → List (EntryPoint (AdapterClass (HttpxFetcher (Unit {0}))))
httpx_points group = record { name = "httpx"; target = "HttpxFetcher"; load = ok httpx_class } ∷ []

abbrev firecrawl_points : String → List (EntryPoint (AdapterClass (FirecrawlFetcher World)))
firecrawl_points group =
    record { name = "firecrawl"; target = "FirecrawlFetcher"; load = ok firecrawl_class } ∷ []

abbrev escalation : EscalationRule
escalation = record { trigger = "timeout"; to = "firecrawl"; from_ = some "httpx" }

abbrev policy : Policy
policy = record (new_policy 1 []) {
  trust_allow = "*.a.example" ∷ [];
  escalation_rules = escalation ∷ [];
}

abbrev credentials : Credentials
credentials = ("firecrawl", ("api_key", text "secret") ∷ []) ∷ []

abbrev first : HttpxFetcher (Unit {0})
first =
    new_httpx (some ("a.example" ∷ [])) default_timeout_s default_max_bytes "wyndpy-fetch/0.1" none

abbrev second : FirecrawlFetcher World
second = record {
  api_key = "secret";
  allowlist_domains = "a.example" ∷ [];
  timeout_s = firecrawl_timeout_s;
  max_bytes = default_max_bytes;
  scrape = none;
}

-- Every URL that was requested is trusted.
abbrev AllTrusted : World → Type 0
AllTrusted w =
    (url : String)
    → contains w url ≡ true
    → (v : World) × IsTrusted platform (λ host. host) policy.trust_allow url v

made : AreMade httpx_points firecrawl_points policy credentials false first second
unfolding load_adapter_class load_first group_of lookup insert construct construct_class
    fetch_kwargs search_kwargs refuse_type_error with_allow normalize_allow lstrip_glob truthy texts
    texts_of domains_arg bind_kwargs set_httpx httpx_init set_firecrawl firecrawl_init new_httpx
    string_eq
made = record {
  httpx_loaded = refl;
  firecrawl_loaded = refl;
  httpx_open = refl;
  firecrawl_open = refl;
  httpx_made = refl;
  firecrawl_made = refl;
}

harmless : IsHarmless platform http AllTrusted policy.trust_allow second
unfolding resolve_host payload_for scrape_live using_client
harmless = record {
  lookups = λ host w q. q;
  create = λ limit headers redirects w q. q;
  get = λ c url v w trusted q wanted m. elim (Bool-cases (wanted == url)) [
    | inl same ↦ (
      v,
      subst (λ x. IsTrusted platform (λ host. host) policy.trust_allow x v)
          (sym ((==_iff wanted url).0 same)) trusted,
    )
    | inr differs ↦ q wanted (ground (arith, m, differs))
  ];
  scrape = λ url v w trusted q. q;
}

abbrev unsaved : Registry (HttpxFetcher (Unit {0}) × World)
unsaved = record {
  get = λ id v. (ok none, v);
  upsert = λ item v. (ok tt, v);
  list_pending_discovery = λ v. (ok [], v);
}

abbrev all_trusted : TrustStrategy (HttpxFetcher (Unit {0}) × World)
all_trusted = record { is_trusted = λ c v. (ok true, v) }

resolve_known_source-keeps_trust_example :
    AllTrusted
      (resolve_known_source
        (new_router
          (as_fetcher platform http 1 ∷ as_second platform http second 2 ∷ [])
          []
          []
          all_trusted
          unsaved
          (some (config_of policy))
          (some (escalation ∷ []))
          (λ n v. (ok tt, v)))
        (record {
          item = record (new_item "sku" "q") { current_sources = "https://www.a.example/" ∷ [] };
          locks = [];
          world = (first, []);
          history = [];
        })).1.world.1
resolve_known_source-keeps_trust_example =
    resolve_known_source-keeps_trust platform http AllTrusted httpx_points firecrawl_points policy
      credentials false first second 1 2 [] [] all_trusted unsaved (λ n v. (ok tt, v))
      (record (new_item "sku" "q") { current_sources = "https://www.a.example/" ∷ [] }) [] [] []
      made harmless tt (λ i v q. q) (λ n v q. q) (λ url m. cc)
