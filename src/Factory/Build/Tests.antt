-- ===== src/Factory/Build/Tests.antt =====
-- A router that is built from a policy with an allowlist, and what it discovers.
use wyndpy.Base.{
  String, [], ◌∷◌, true, false, Option, none, some, contains, string_eq, pair_eq, ℕ_eq, ◌≡◌, refl,
}
use wyndpy.Base.Dict.{lookup, insert}
use wyndpy.Base.Reply.{Reply, ok, traverse}
use wyndpy.Base.Text.{lstrip_glob, ends_with}
use wyndpy.Base.Url.{Url, host_matches}
use wyndpy.Core.Item.{new_item}
use wyndpy.Core.Protocols.{Searcher, Registry}
use wyndpy.Core.Results.{Candidate}
use wyndpy.Policy.{Policy, new_policy}
use wyndpy.Router.Setup.{Router, new_router}
use wyndpy.Router.Action.{
  State, Exit, returned, ◌>>=◌, call, modify_item, search_for, ask_trust, upsert, lock_for,
  with_lock,
}
use wyndpy.Router.TrackB.{merge, accept, scan, search_all, discovery, discover_source}
use wyndpy.Trust.{allowlist_trust, is_trusted, trusts_host, host_or_empty}
use wyndpy.Factory.Build.{
  Installed, Injected, config_of, given_or, build_trust, build_registry, build_router,
}
use wyndpy.Factory.Build.Trusted.{build_router-discovers}

-- Two candidates, of which the policy trusts the second.
abbrev foreign : Candidate
foreign = record { url = "foreign"; relevance_score = record { bits = 0 }; snippet = "" }

abbrev own : Candidate
own = record { url = "own"; relevance_score = record { bits = 0 }; snippet = "" }

abbrev searcher : Searcher (Unit {0})
searcher = record { name = "canned"; search = λ query n w. (ok (foreign ∷ own ∷ []), w) }

parsed : String → Reply Url
unfolding string_eq
parsed url = elim (string_eq.dec url "own") [
  | yes _ ↦ ok (record { scheme = "https"; hostname = some "www.a.example" })
  | no _ ↦ ok (record { scheme = "https"; hostname = some "b.example" })
]

abbrev saving : Registry (Unit {0})
saving = record {
  get = λ id w. (ok none, w);
  upsert = λ item w. (ok tt, w);
  list_pending_discovery = λ w. (ok [], w);
}

abbrev env : Installed (Unit {0})
env = record {
  fetch = λ group. [];
  search = λ group. [];
  parse = λ group. [];
  urlparse = parsed;
  memory = saving;
  sleep = λ n w. (ok tt, w);
}

abbrev policy : Policy
policy = record (new_policy 1 []) { trust_allow = "*.a.example" ∷ [] }

abbrev injected : Injected (Unit {0})
injected = record {
  registry = none;
  trust = none;
  fetchers = none;
  searchers = some (searcher ∷ []);
  parsers = none;
}

abbrev router : Router (Unit {0})
router =
    new_router [] (searcher ∷ []) [] (allowlist_trust parsed policy.trust_allow) saving
      (some (config_of policy)) (some []) env.sleep

built_eq : build_router env policy [] injected false ≡ ok router
unfolding build_router given_or traverse build_trust build_registry lookup string_eq
built_eq = refl

fresh : State (Unit {0})
fresh = record { item = new_item "sku" "q"; locks = []; world = tt; history = [] }

found_run : Exit (Option Candidate) × State (Unit {0})
unfolding fresh new_router parsed discover_source discovery search_all scan accept merge ◌>>=◌ call
    modify_item search_for ask_trust upsert lock_for with_lock lookup insert allowlist_trust
    is_trusted trusts_host lstrip_glob ends_with host_matches string_eq
found_run = discover_source router fresh

found_own : found_run.0 ≡ returned (some own)
unfolding found_run
found_own = refl

build_router-discovers_example :
    (contains {A = String} [] "own" ≡ false)
    × ((url : Url) × (parsed "own" ≡ ok url)
        × (trusts_host ("*.a.example" ∷ []) (host_or_empty url.hostname) ≡ true))
unfolding found_run
build_router-discovers_example =
    build_router-discovers env policy [] injected false router fresh found_run.1 own refl built_eq
      refl
