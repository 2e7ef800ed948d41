-- ===== src/Factory/Build.antt =====
-- wyndpy/factory.py: trust, registry, scheduler and router from a policy.
pub mod Parts
pub mod Wired
pub mod Trusted
mod Tests
use wyndpy.Base.{
  ℕ, String, ◌<>◌, List, [], ◌∷◌, Bool, true, false, not, ◌&&◌, Option, none, some, ◌==◌, string_eq,
  if◌then◌else◌,
}
use wyndpy.Base.Dict.{Dict, lookup}
use wyndpy.Base.Reply.{policy_error, Reply, ok, raised, ◌>>=◌, traverse}
use wyndpy.Base.Value.{Value, truthy}
use wyndpy.Base.Url.{UrlParser}
use wyndpy.Core.Discovery.{EntryPoint}
use wyndpy.Core.Protocols.{Fetcher, Searcher, Parser, TrustStrategy, Registry}
use wyndpy.Policy.{Policy}
use wyndpy.Registry.Postgres.{postgres_implemented, postgres_registry}
use wyndpy.Router.Setup.{Router, RouterConfig, default_config, new_router}
use wyndpy.Scheduling.{CronScheduler, EventScheduler, new_cron, new_event}
use wyndpy.Trust.{allowlist_trust}
use wyndpy.Factory.Construct.{AdapterClass, Credentials, is_implemented, kwargs_for, construct}

-- The scheduler of the policy's backend.
pub data Scheduler (J : Type 0) : Type 0 where
  cron : CronScheduler J → Scheduler J
  event : EventScheduler J → Scheduler J

unfoldable pub build_scheduler : {J : Type 0} → Policy → Reply (Scheduler J)
build_scheduler policy =
    if policy.scheduling_backend == "cron"
    then ok (cron new_cron)
    else if policy.scheduling_backend == "event"
    then ok (event new_event)
    else if policy.scheduling_backend == "background_task"
    then raised (policy_error "scheduling_backend=background_task has no built-in adapter")
    else raised (policy_error ("Unknown scheduling_backend=" <> policy.scheduling_backend))

-- `policy.roles.get(role, [])`
abbrev pub names_for : String → Policy → List String
names_for role policy = elim (lookup role policy.roles) [ none ↦ [] | some names ↦ names ]

unfoldable pub build_trust : {W : Type 0} → UrlParser → Policy → Reply (TrustStrategy W)
build_trust urlparse policy =
    if policy.trust_strategy == "allowlist"
    then ok (allowlist_trust urlparse policy.trust_allow)
    else raised (policy_error ("Unknown trust.strategy=" <> policy.trust_strategy))

-- `credentials.get("postgres", {}).get("dsn")`, which has to be there and not empty.
unfoldable pub build_postgres : {W : Type 0} → Credentials → Reply (Registry W)
build_postgres credentials = elim (lookup "dsn" (kwargs_for "postgres" credentials)) [
  | none ↦ raised (policy_error "registry_backend=postgres requires credentials['postgres']['dsn']")
  | some dsn ↦
      if truthy dsn
      then ok (postgres_registry dsn)
      else raised (policy_error "registry_backend=postgres requires credentials['postgres']['dsn']")
]

-- `memory` is the protocol's view of a new `MemoryRegistry`.
unfoldable pub build_registry :
    {W : Type 0} → Registry W → Policy → Credentials → Bool → Reply (Registry W)
build_registry memory policy credentials allow_stubs =
    if policy.registry_backend == "memory"
    then ok memory
    else if policy.registry_backend == "postgres"
    then (if not (is_implemented postgres_implemented) && not allow_stubs
        then raised (policy_error "registry_backend=postgres is a stub.")
        else build_postgres credentials)
    else if policy.registry_backend == "sqlite"
    then raised (policy_error "registry_backend=sqlite has no built-in adapter")
    else raised (policy_error ("Unknown registry_backend=" <> policy.registry_backend))

-- `x if x is not None else build`
unfoldable pub given_or : {A : Type 0} → Option A → Reply A → Reply A
given_or (some a) build = ok a
given_or none build = build

-- What a caller may pass in place of what the policy names.
pub record Injected (W : Type 0) : Type 0 where
  pub registry : Option (Registry W)
  pub trust : Option (TrustStrategy W)
  pub fetchers : Option (List (Fetcher W))
  pub searchers : Option (List (Searcher W))
  pub parsers : Option (List (Parser W))

-- The installed entry points, for each role with what its classes construct, and the library's
-- functions that a router needs.
pub record Installed (W : Type 0) : Type 0 where
  pub fetch : String → List (EntryPoint (AdapterClass (Fetcher W)))
  pub search : String → List (EntryPoint (AdapterClass (Searcher W)))
  pub parse : String → List (EntryPoint (AdapterClass (Parser W)))
  pub urlparse : UrlParser
  pub memory : Registry W
  pub sleep : ℕ → W → Reply (Unit {0}) × W

abbrev pub config_of : Policy → RouterConfig
config_of policy = record default_config {
  candidate_count = policy.candidate_count;
  require_review = policy.require_review;
}

module _ {W : Type 0} (env : Installed W) where
  unfoldable pub instantiate_fetcher : Policy → Credentials → Bool → String → Reply (Fetcher W)
  instantiate_fetcher policy credentials allow_stubs name =
      construct env.fetch "fetch" name credentials allow_stubs (some policy.trust_allow)

  unfoldable pub instantiate_searcher : Policy → Credentials → Bool → String → Reply (Searcher W)
  instantiate_searcher policy credentials allow_stubs name =
      construct env.search "search" name credentials allow_stubs (some policy.trust_allow)

  unfoldable pub instantiate_parser : Credentials → Bool → String → Reply (Parser W)
  instantiate_parser credentials allow_stubs name =
      construct env.parse "parse" name credentials allow_stubs none

  unfoldable pub build_router : Policy → Credentials → Injected W → Bool → Reply (Router W)
  build_router policy credentials injected allow_stubs = do
    fetchers ←
        given_or injected.fetchers
          (traverse (instantiate_fetcher policy credentials allow_stubs) (names_for "fetch" policy))
    searchers ←
        given_or injected.searchers (
          traverse (instantiate_searcher policy credentials allow_stubs)
            (names_for "search" policy))
    parsers ←
        given_or injected.parsers
          (traverse (instantiate_parser credentials allow_stubs) (names_for "parse" policy))
    trust ← given_or injected.trust (build_trust env.urlparse policy)
    registry ← given_or injected.registry (build_registry env.memory policy credentials allow_stubs)
    ok (
        new_router fetchers searchers parsers trust registry (some (config_of policy))
          (some policy.escalation_rules) env.sleep)
