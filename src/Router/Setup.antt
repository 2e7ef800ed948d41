-- ===== src/Router/Setup.antt =====
-- wyndpy/core/router.py: the configuration, the constructor and the lookups in its tables.
pub mod Chosen
mod Tests
use wyndpy.Base.{
  ℕ, String, Bool, true, List, [], ◌∷◌, Option, none, some, ◌==◌, string_eq, pair_eq, if◌then◌else◌,
}
use wyndpy.Base.Dict.{Dict, lookup, insert}
use wyndpy.Base.Text.{includes}
use wyndpy.Base.Reply.{Reply}
use wyndpy.Core.Results.{ErrorType, value, empty_shell, timeout, rate_limited}
use wyndpy.Core.Escalation.{EscalationRule, content_type_trigger}
use wyndpy.Core.Protocols.{Fetcher, Searcher, Parser, TrustStrategy, Registry}

abbrev pub escalatable_errors : List ErrorType
escalatable_errors = empty_shell ∷ timeout ∷ []

abbrev pub retryable_errors : List ErrorType
retryable_errors = timeout ∷ rate_limited ∷ []

-- `retry_backoff_base` is in microseconds.
pub record RouterConfig : Type 0 where
  pub candidate_count : ℕ
  pub require_review : Bool
  pub retry_attempts : ℕ
  pub retry_backoff_base : ℕ

-- `RouterConfig()`
abbrev pub default_config : RouterConfig
default_config = record {
  candidate_count = 10;
  require_review = true;
  retry_attempts = 0;
  retry_backoff_base = 200000;
}

-- A table from an adapter's name, or "*", and a trigger to the name of the next adapter.
abbrev pub Escalations : Type 0
Escalations = Dict (String × String) String

pub record Tables : Type 0 where
  pub error_escalations : Escalations
  pub content_type_escalations : Escalations

-- `s or default` for a text that may be missing.
abbrev pub or_text : Option String → String → String
or_text none default = default
or_text (some s) default = if s == "" then default else s

-- One round of the loop of `__init__` over the rules.
unfoldable pub add_rule : EscalationRule → Tables → Tables
add_rule rule t =
    let key_from = or_text rule.from_ "*" in
    let mime = or_text (content_type_trigger rule) "" in
    if mime == ""
    then record t {
      error_escalations = insert (key_from, rule.trigger) rule.to t.error_escalations;
    }
    else record t {
      content_type_escalations = insert (key_from, mime) rule.to t.content_type_escalations;
    }

unfoldable pub add_rules : List EscalationRule → Tables → Tables
unfolding add_rule
add_rules [] t = t
add_rules (rule ∷ rules) t = add_rules rules (add_rule rule t)

abbrev pub no_tables : Tables
no_tables = record { error_escalations = []; content_type_escalations = [] }

pub record Router (W : Type 0) : Type 0 where
  pub fetchers : List (Fetcher W)
  pub searchers : List (Searcher W)
  pub parsers : List (Parser W)
  pub trust : TrustStrategy W
  pub registry : Registry W
  pub config : RouterConfig
  pub escalation_rules : List EscalationRule
  pub sleep : ℕ → W → Reply (Unit {0}) × W
  pub fetcher_by_name : Dict String (Fetcher W)
  pub parser_by_name : Dict String (Parser W)
  pub tables : Tables

-- `d.get(k) or d.get(("*", trigger))`: an empty name counts as missing in the first place only.
abbrev pub escalation_target : String → String → Escalations → Option String
escalation_target name trigger d = elim (lookup (name, trigger) d) [
  | none ↦ lookup ("*", trigger) d
  | some to_name ↦ if to_name == "" then lookup ("*", trigger) d else some to_name
]

-- `config or RouterConfig()`, `escalation_rules or []`
abbrev pub or_config : Option RouterConfig → RouterConfig
or_config none = default_config
or_config (some c) = c

abbrev pub or_rules : Option (List EscalationRule) → List EscalationRule
or_rules none = []
or_rules (some rules) = rules

module _ {W : Type 0} where
  -- `{f.name: f for f in fetchers}`
  unfoldable pub fetchers_by_name :
      List (Fetcher W) → Dict String (Fetcher W) → Dict String (Fetcher W)
  fetchers_by_name [] d = d
  fetchers_by_name (f ∷ fs) d = fetchers_by_name fs (insert f.name f d)

  unfoldable pub parsers_by_name : List (Parser W) → Dict String (Parser W) → Dict String (Parser W)
  parsers_by_name [] d = d
  parsers_by_name (p ∷ ps) d = parsers_by_name ps (insert p.name p d)

  -- `Router.__init__`
  unfoldable pub new_router :
      List (Fetcher W)
      → List (Searcher W)
      → List (Parser W)
      → TrustStrategy W
      → Registry W
      → Option RouterConfig
      → Option (List EscalationRule)
      → (ℕ → W → Reply (Unit {0}) × W)
      → Router W
  unfolding add_rules fetchers_by_name parsers_by_name
  new_router fetchers searchers parsers trust registry config rules sleep = record {
    fetchers = fetchers;
    searchers = searchers;
    parsers = parsers;
    trust = trust;
    registry = registry;
    config = or_config config;
    escalation_rules = or_rules rules;
    sleep = sleep;
    fetcher_by_name = fetchers_by_name fetchers [];
    parser_by_name = parsers_by_name parsers [];
    tables = add_rules (or_rules rules) no_tables;
  }

  unfoldable pub next_fetcher_config_driven : Router W → String → ErrorType → Option (Fetcher W)
  next_fetcher_config_driven r current_name error_type =
      elim (escalation_target current_name (value error_type) r.tables.error_escalations) [
        | none ↦ none
        | some to_name ↦ lookup to_name r.fetcher_by_name
      ]

  -- The fallback on the text "pdf", when no rule names a parser.
  abbrev pub pdf_fallback : List (Parser W) → String → Option (Parser W)
  pdf_fallback [] content_type = none
  pdf_fallback (p ∷ ps) content_type = if includes content_type "pdf" then some p else none

  unfoldable pub parser_for_content_type : Router W → String → String → Option (Parser W)
  parser_for_content_type r current_name content_type =
      let to_name =
        or_text (escalation_target current_name content_type r.tables.content_type_escalations)
          "" in
      if to_name == "" then pdf_fallback r.parsers content_type else lookup to_name r.parser_by_name
