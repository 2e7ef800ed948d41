-- ===== src/Router/Desk.antt =====
-- A router over fake adapters, for the tests.
use wyndpy.Base.{ℕ, String, List, [], ◌∷◌, true, false, none, some, pair_eq, string_eq, ℕ_eq}
use wyndpy.Base.Dict
use wyndpy.Base.Dict.{Dict}
use wyndpy.Base.Reply.{Reply, ok}
use wyndpy.Core.Results.{RetrievalResult, RetrievalError, result, error, empty_shell, Candidate}
use wyndpy.Core.Item.{ResolvableItem, new_item}
use wyndpy.Core.Escalation.{EscalationRule, content_type_trigger}
use wyndpy.Core.Protocols.{Fetcher, Searcher, Parser, TrustStrategy, Registry}
use wyndpy.Testing.{FakeFetcher, FakeSearcher, FakeParser, fake_fetch, fake_search, fake_parse}
use wyndpy.Router.Setup.{Router, RouterConfig, default_config, new_router}
use wyndpy.Router.Action.{State}

-- The world of the tests: two fetchers, a searcher, a parser and the items saved by id.
pub record Desk : Type 0 where
  pub fast : FakeFetcher
  pub slow : FakeFetcher
  pub searcher : FakeSearcher
  pub parser : FakeParser
  pub saved : Dict String ResolvableItem

abbrev pub fast_fetcher : Fetcher Desk
fast_fetcher = record {
  object_id = 1;
  name = "fast";
  fetch = λ url d. let (x, f) = fake_fetch url d.fast in (x, record d { fast = f });
}

abbrev pub slow_fetcher : Fetcher Desk
slow_fetcher = record {
  object_id = 2;
  name = "slow";
  fetch = λ url d. let (x, f) = fake_fetch url d.slow in (x, record d { slow = f });
}

abbrev pub desk_searcher : Searcher Desk
desk_searcher = record {
  name = "fake_searcher";
  search =
      λ query n d. let (x, f) = fake_search query n d.searcher in (x, record d { searcher = f });
}

abbrev pub desk_parser : Parser Desk
desk_parser = record {
  name = "fake_parser";
  parse = λ body mime d. let (x, f) = fake_parse body mime d.parser in (x, record d { parser = f });
}

-- Trusts everything.
abbrev pub trusting : TrustStrategy Desk
trusting = record { is_trusted = λ c d. (ok true, d) }

abbrev pub desk_registry : Registry Desk
desk_registry = record {
  get = λ id d. (ok (Dict.lookup id d.saved), d);
  upsert = λ item d. (ok tt, record d { saved = Dict.insert item.id item d.saved });
  list_pending_discovery = λ d. (ok [], d);
}

abbrev pub no_wait : ℕ → Desk → Reply (Unit {0}) × Desk
no_wait n d = (ok tt, d)

abbrev pub page : RetrievalResult
page = record {
  content = "text";
  content_type = "text/html";
  source_url = "https://a.example/p";
  content_hash = "h1";
  provider_used = "slow";
  raw_bytes = none;
  retrieved_at = 0;
}

abbrev pub shell : RetrievalError
shell = record { error_type = empty_shell; message = "shell"; provider_used = "fast" }

abbrev pub hit : Candidate
hit = record { url = "https://a.example/p"; relevance_score = record { bits = 0 }; snippet = "s" }

abbrev pub desk : Desk
desk = record {
  fast = record { responses = ("https://a.example/p", error shell) ∷ []; calls = [] };
  slow = record { responses = ("https://a.example/p", result page) ∷ []; calls = [] };
  searcher = record { responses = ("q", hit ∷ []) ∷ []; calls = [] };
  parser = record { response = result page; calls = 0 };
  saved = [];
}

abbrev pub rule : EscalationRule
rule = record { trigger = "empty_shell"; to = "slow"; from_ = some "fast" }

abbrev pub automatic : RouterConfig
automatic = record default_config { require_review = false; retry_attempts = 1 }

unfoldable pub router : RouterConfig → List EscalationRule → Router Desk
unfolding new_router string_eq pair_eq content_type_trigger
router config rules =
    new_router (fast_fetcher ∷ slow_fetcher ∷ []) (desk_searcher ∷ []) (desk_parser ∷ []) trusting
      desk_registry (some config) (some rules) no_wait

abbrev pub fresh : State Desk
fresh = record { item = new_item "sku" "q"; locks = []; world = desk; history = [] }

abbrev pub known : State Desk
known = record fresh {
  item = record (new_item "sku" "q") { current_sources = "https://a.example/p" ∷ [] };
}
