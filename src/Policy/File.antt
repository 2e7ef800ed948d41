-- ===== src/Policy/File.antt =====
-- The schema of a policy file, as the design spec gives it, and the policy that such a file means.
-- This is an independent description of what `load_policy` reads.
use wyndpy.Base.{ℕ, String, List, [], ◌∷◌, Bool, true, Option, none, some, string_eq}
use wyndpy.Base.Dict.{Dict}
use wyndpy.Base.Value.{
  pos, Fields, no_fields, entry, Value, null, bool, int, text, array, object, texts, items_of,
}
use wyndpy.Core.Escalation.{EscalationRule}
use wyndpy.Policy.{Policy}
use wyndpy.Policy.Load.{RawRule, RawPolicy}

pub record TrustSection : Type 0 where
  pub strategy : Option String
  pub allow : Option (List String)
  pub require_review : Option Bool

abbrev pub no_trust : TrustSection
no_trust = record { strategy = none; allow = none; require_review = none }

-- A section that is left out is `none`.
pub record PolicyFile : Type 0 where
  pub roles : Dict String (List String)
  pub candidate_count : Option ℕ
  pub escalation_rules : Option (List EscalationRule)
  pub discovery : Option Fields
  pub trust : Option TrustSection
  pub unresolved_handling : Option String
  pub registry_backend : Option String
  pub scheduling_backend : Option String
  pub cost_caps : Option (Dict String String)
  pub rate_limits : Option (Dict String String)

abbrev pub or_else {ℓ} : {A : Type ℓ} → Option A → A → A
or_else none default = default
or_else (some a) default = a

-- The policy that a file means, with the defaults of the sections that are left out.
abbrev pub policy_of : PolicyFile → Policy
policy_of file = record {
  schema_version = 1;
  roles = file.roles;
  candidate_count = or_else file.candidate_count 10;
  escalation_rules = or_else file.escalation_rules [];
  discovery = object (or_else file.discovery no_fields);
  trust_strategy = or_else (or_else file.trust no_trust).strategy "allowlist";
  trust_allow = or_else (or_else file.trust no_trust).allow [];
  require_review = or_else (or_else file.trust no_trust).require_review true;
  unresolved_handling = or_else file.unresolved_handling "leave_unresolved";
  registry_backend = or_else file.registry_backend "memory";
  scheduling_backend = or_else file.scheduling_backend "cron";
  cost_caps = or_else file.cost_caps [];
  rate_limits = or_else file.rate_limits [];
}

-- Sections by their keys, and the mapping of those that are there.
abbrev pub Sections : Type 0
Sections = List (String × Option Value)

unfoldable pub fields_of : Sections → Fields
fields_of [] = no_fields
fields_of ((k, none) ∷ sections) = fields_of sections
fields_of ((k, some v) ∷ sections) = entry k v (fields_of sections)

abbrev pub option_map {ℓ κ} : {A : Type ℓ} {B : Type κ} → (A → B) → Option A → Option B
option_map f none = none
option_map f (some a) = some (f a)

unfoldable pub dict_of : {A : Type 0} → (A → Value) → Dict String A → Fields
dict_of f [] = no_fields
dict_of f ((k, a) ∷ d) = entry k (f a) (dict_of f d)

abbrev pub rule_fields : EscalationRule → Fields
rule_fields rule = entry "trigger" (text rule.trigger) (
    entry "to" (text rule.to)
      (elim rule.from_ [ none ↦ no_fields | some name ↦ entry "from" (text name) no_fields ]))

unfoldable pub rule_values : List EscalationRule → List Value
rule_values [] = []
rule_values (rule ∷ rules) = object (rule_fields rule) ∷ rule_values rules

abbrev pub trust_sections : TrustSection → Sections
trust_sections trust =
    ("strategy", option_map text trust.strategy)
    ∷ ("allow", option_map (λ a. array (texts a)) trust.allow)
    ∷ ("require_review", option_map bool trust.require_review)
    ∷ []

abbrev pub sections : PolicyFile → Sections
sections file =
    ("schema_version", some (int (pos 1)))
    ∷ ("roles", some (object (dict_of (λ names. array (texts names)) file.roles)))
    ∷ (
      "search",
      option_map (λ n. object (entry "candidate_count" (int (pos n)) no_fields))
          file.candidate_count,
    )
    ∷ (
      "escalation_rules",
      option_map (λ rs. array (items_of (rule_values rs))) file.escalation_rules,
    )
    ∷ ("discovery", option_map object file.discovery)
    ∷ ("trust", option_map (λ t. object (fields_of (trust_sections t))) file.trust)
    ∷ ("unresolved_handling", option_map text file.unresolved_handling)
    ∷ ("registry_backend", option_map text file.registry_backend)
    ∷ ("scheduling_backend", option_map text file.scheduling_backend)
    ∷ ("cost_caps", option_map (λ d. object (dict_of text d)) file.cost_caps)
    ∷ ("rate_limits", option_map (λ d. object (dict_of text d)) file.rate_limits)
    ∷ []

-- The value of the file.
unfoldable pub dump : PolicyFile → Value
dump file = object (fields_of (sections file))

-- A policy as the loader holds it.
unfoldable pub raw_rules : List EscalationRule → List RawRule
raw_rules [] = []
raw_rules (rule ∷ rules) =
    record {
      trigger = text rule.trigger;
      to = text rule.to;
      from_ = elim rule.from_ [ none ↦ null | some name ↦ text name ];
    }
    ∷ raw_rules rules

abbrev pub raw_policy : Policy → RawPolicy
raw_policy p = record {
  schema_version = int (pos p.schema_version);
  roles = dict_of (λ names. array (texts names)) p.roles;
  candidate_count = int (pos p.candidate_count);
  escalation_rules = raw_rules p.escalation_rules;
  discovery = p.discovery;
  trust_strategy = text p.trust_strategy;
  trust_allow = array (texts p.trust_allow);
  require_review = bool p.require_review;
  unresolved_handling = text p.unresolved_handling;
  registry_backend = text p.registry_backend;
  scheduling_backend = text p.scheduling_backend;
  cost_caps = object (dict_of text p.cost_caps);
  rate_limits = object (dict_of text p.rate_limits);
}
