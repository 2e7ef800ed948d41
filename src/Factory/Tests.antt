-- ===== src/Factory/Tests.antt =====
-- The factory on a concrete policy, and the theorems about it at that input. The world is a number.
use wyndpy.Base.{
  ℕ, ◌+◌, String, ◌<>◌, List, [], ◌∷◌, Bool, true, false, Option, none, some, ◌≡◌, refl, string_eq,
  pair_eq, ℕ_eq,
}
use wyndpy.Base.Dict.{lookup, insert}
use wyndpy.Base.Text.{lstrip_glob}
use wyndpy.Base.Reply.{Reply, ok, raised, policy_error, type_error, traverse}
use wyndpy.Base.Value.{text, truthy, texts}
use wyndpy.Core.Discovery.{EntryPoint, group_of, load_first, load_adapter_class}
use wyndpy.Core.Item.{new_item}
use wyndpy.Core.Protocols.{Fetcher}
use wyndpy.Core.Results.{Retrieval, error, unknown}
use wyndpy.Policy.{Policy, new_policy}
use wyndpy.Registry.Postgres.{postgres_registry}
use wyndpy.Router.Setup.{Router, new_router}
use wyndpy.Router.Action.{State, returned}
use wyndpy.Router.History.{Did}
use wyndpy.Router.Resolve.{resolve}
use wyndpy.Router.Resolve.Review.{IsNoFetch}
use wyndpy.Policy.File.{PolicyFile, policy_of, dump, raw_policy}
use wyndpy.Policy.Load.{load_policy}
use wyndpy.Factory.Review.{load_policy-resolve}
use wyndpy.Trust.{allowlist_trust}
use wyndpy.Factory.Allow.{normalize_allow}
use wyndpy.Factory.Construct.{
  AdapterClass, with_allow, fetch_kwargs, search_kwargs, refuse_type_error, construct_class,
  construct,
}
use wyndpy.Factory.Construct.Checked.{IsChecked, construct-IsChecked}
use wyndpy.Factory.Build.{
  Installed, Injected, config_of, given_or, build_trust, build_registry, instantiate_fetcher,
  instantiate_searcher, instantiate_parser, build_router,
}
use wyndpy.Factory.Build.Wired.{IsWired, build_router-IsWired}

abbrev failure : Retrieval
failure = error (record { error_type = unknown; message = "down"; provider_used = "httpx" })

abbrev plain_fetcher : Fetcher ℕ
plain_fetcher = record { object_id = 1; name = "httpx"; fetch = λ url w. (ok failure, w + 1) }

abbrev httpx_class : AdapterClass (Fetcher ℕ)
httpx_class = record {
  implemented = some true;
  qualname = "HttpxFetcher";
  init = λ kwargs. ok plain_fetcher;
}

abbrev stub_class : AdapterClass (Fetcher ℕ)
stub_class = record {
  implemented = some false;
  qualname = "Stub";
  init = λ kwargs. raised (type_error "missing api_key");
}

abbrev fetch_points : String → List (EntryPoint (AdapterClass (Fetcher ℕ)))
fetch_points group =
    record { name = "httpx"; target = "a:HttpxFetcher"; load = ok httpx_class }
    ∷ record { name = "stub"; target = "b:Stub"; load = ok stub_class }
    ∷ []

abbrev env : Installed ℕ
env = record {
  fetch = fetch_points;
  search = λ group. [];
  parse = λ group. [];
  urlparse = λ url. ok (record { scheme = "https"; hostname = none });
  memory = postgres_registry (text "");
  sleep = λ n w. (ok tt, w);
}

abbrev policy : Policy
policy = record (new_policy 1 (("fetch", "httpx" ∷ []) ∷ [])) { trust_allow = "*.a.example" ∷ [] }

abbrev nothing_injected : Injected ℕ
nothing_injected = record {
  registry = none;
  trust = none;
  fetchers = none;
  searchers = none;
  parsers = none;
}

-- Opens all that `_construct` computes with.
made : Bool → String → List String → Reply (Fetcher ℕ)
unfolding construct construct_class fetch_kwargs search_kwargs refuse_type_error with_allow
    load_adapter_class load_first group_of normalize_allow lstrip_glob lookup insert truthy texts
    string_eq
made allow_stubs name allow = construct fetch_points "fetch" name [] allow_stubs (some allow)

httpx_made : made false "httpx" ("*.a.example" ∷ []) ≡ ok plain_fetcher
unfolding made
httpx_made = refl

httpx_refused :
    made false "httpx" ("*" ∷ [])
    ≡ raised (policy_error "httpx fetcher requires a non-empty allowlist.")
unfolding made
httpx_refused = refl

stub_refused :
    made true "stub" []
    ≡ raised
        (policy_error ("Could not construct adapter '" <> "stub" <> "': " <> "missing api_key"))
unfolding made
stub_refused = refl

built : Reply (Router ℕ)
unfolding build_router instantiate_fetcher instantiate_searcher instantiate_parser given_or traverse
    build_trust build_registry new_router construct construct_class fetch_kwargs search_kwargs
    refuse_type_error with_allow load_adapter_class load_first group_of normalize_allow lstrip_glob
    lookup insert truthy texts string_eq
built = build_router env policy [] nothing_injected false

abbrev router : Router ℕ
router =
    new_router (plain_fetcher ∷ []) [] [] (allowlist_trust env.urlparse policy.trust_allow)
      env.memory (some (config_of policy)) (some []) env.sleep

built_eq : built ≡ ok router
unfolding built
built_eq = refl

start : State ℕ
start = record {
  item = record (new_item "sku" "q") { current_sources = "https://a.example/p" ∷ [] };
  locks = [];
  world = 0;
  history = [];
}

build_router-IsWired_example : IsWired env policy [] nothing_injected false router
unfolding built
build_router-IsWired_example =
    build_router-IsWired env policy [] nothing_injected false router built_eq

construct-IsChecked_example :
    IsChecked fetch_points "fetch" "httpx" [] false (some ("*.a.example" ∷ [])) plain_fetcher
unfolding made
construct-IsChecked_example =
    construct-IsChecked fetch_points "fetch" "httpx" [] false (some ("*.a.example" ∷ []))
      plain_fetcher refl

-- The file that means the policy.
abbrev policy_file : PolicyFile
policy_file = record {
  roles = ("fetch", "httpx" ∷ []) ∷ [];
  candidate_count = none;
  escalation_rules = none;
  discovery = none;
  trust =
      some (record { strategy = none; allow = some ("*.a.example" ∷ []); require_review = none });
  unresolved_handling = none;
  registry_backend = none;
  scheduling_backend = none;
  cost_caps = none;
  rate_limits = none;
}

abbrev no_source : State ℕ
no_source = record start { item = new_item "sku" "q" }

load_policy-resolve_example :
    (load_policy (λ path. ok (dump policy_file)) "policy.yaml"
      ≡ ok (raw_policy (policy_of policy_file)))
    × Did IsNoFetch no_source (resolve router no_source).1
    × ((o : Option Retrieval) → (resolve router no_source).0 ≡ returned o → o ≡ none)
unfolding built lookup string_eq
load_policy-resolve_example =
    load_policy-resolve (λ path. ok (dump policy_file)) "policy.yaml" policy_file "httpx" [] env []
      nothing_injected false router no_source refl refl refl built_eq refl
