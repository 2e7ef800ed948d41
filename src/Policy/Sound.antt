-- ===== src/Policy/Sound.antt =====
-- What `load_policy` has checked of a policy that it gives, and what it raises.
use wyndpy.Base.{List, [], ◌∷◌, some, true, ℕ_eq, string_eq, ◌≡◌}
use wyndpy.Base.Reply.{Reply, ◌>>=◌}
use wyndpy.Base.Value.{
  Fields, no_fields, Items, no_items, Value, pos, null, int, bool, float, text, array, object,
  truthy, find_field, or_default, get_or, list_of,
}
use wyndpy.Policy.Load.{RawRule, RawPolicy}

-- The values of a file that are equal to 1.
pub data IsOne : Value → Type 0 where
  integer : IsOne (int (pos 1))
  boolean : IsOne (bool true)
  number : IsOne (float (record { bits = 4607182418800017408 }))

-- A mapping's rule: what stands under `trigger` and `to`, and under `from` if there is such a key.
pub record IsRule (d : Fields) (rule : RawRule) : Type 0 where
  pub trigger : find_field "trigger" d ≡ some rule.trigger
  pub to : find_field "to" d ≡ some rule.to
  pub from_ : or_default (find_field "from" d) null ≡ rule.from_

-- Mappings and their rules, one for one and in order.
pub data AreRules : List Value → List RawRule → Type 0 where
  no_rules : AreRules [] []
  one_rule :
      {d : Fields} {rule : RawRule} {vs : List Value} {rules : List RawRule}
      → IsRule d rule
      → AreRules vs rules
      → AreRules (object d ∷ vs) (rule ∷ rules)

-- What the rules are read from: a list, or a mapping or a text, which are then empty.
pub data Lists : Value → List Value → Type 0 where
  listed : (items : Items) → Lists (array items) (list_of items)
  no_fields_listed : Lists (object no_fields) []
  no_text_listed : Lists (text "") []

-- The policy was read from a mapping of a supported version whose roles name a fetch adapter, and
-- there is a rule for each of the mapping's rules, in order.
pub record IsLoaded (raw : Fields) (p : RawPolicy) : Type 0 where
  pub supported : IsOne p.schema_version
  pub version : get_or "schema_version" null raw ≡ p.schema_version
  pub roles : get_or "roles" (object no_fields) raw ≡ object p.roles
  pub fetch : truthy (get_or "fetch" null p.roles) ≡ true
  pub rule_values : List Value
  pub rules_listed : Lists (get_or "escalation_rules" (array no_items) raw) rule_values
  pub rules : AreRules rule_values p.escalation_rules

abbrev version_of : Fields → Value
version_of raw = get_or "schema_version" null raw
