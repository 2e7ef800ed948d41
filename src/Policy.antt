-- ===== src/Policy.antt =====
-- wyndpy/policy.py: a project's policy.
pub mod Load
pub mod File
pub mod Sound
pub mod Refusal
pub mod ReadBack
pub mod RoundTrip
mod Tests
use wyndpy.Base.{ℕ, String, List, [], Bool, true}
use wyndpy.Base.Dict.{Dict}
use wyndpy.Base.Value.{Value, object, no_fields}
use wyndpy.Core.Escalation.{EscalationRule}

-- The fields as their annotations have them. `discovery` holds any mapping.
pub record Policy : Type 0 where
  pub schema_version : ℕ
  pub roles : Dict String (List String)
  pub candidate_count : ℕ
  pub escalation_rules : List EscalationRule
  pub discovery : Value
  pub trust_strategy : String
  pub trust_allow : List String
  pub require_review : Bool
  pub unresolved_handling : String
  pub registry_backend : String
  pub scheduling_backend : String
  pub cost_caps : Dict String String
  pub rate_limits : Dict String String

-- `Policy(schema_version, roles)`
abbrev pub new_policy : ℕ → Dict String (List String) → Policy
new_policy schema_version roles = record {
  schema_version = schema_version;
  roles = roles;
  candidate_count = 10;
  escalation_rules = [];
  discovery = object no_fields;
  trust_strategy = "allowlist";
  trust_allow = [];
  require_review = true;
  unresolved_handling = "leave_unresolved";
  registry_backend = "memory";
  scheduling_backend = "cron";
  cost_caps = [];
  rate_limits = [];
}
