-- ===== src/Policy/Load.antt =====
-- wyndpy/policy.py, `load_policy`: a policy from the value of its YAML file. The loader checks few
-- of the values, so what it gives holds values of a dynamic language.
use wyndpy.Base.{
  String, ◌<>◌, List, Bool, true, false, not, ◌&&◌, none, some, ◌==◌, ℕ_eq, string_eq,
  if◌then◌else◌,
}
use wyndpy.Base.Text.{includes}
use wyndpy.Base.Reply.{
  type_error, key_error, attribute_error, policy_error, file_not_found, yaml_error, Reply, ok,
  raised, ◌>>=◌, traverse,
}
use wyndpy.Base.Value.{
  pos, Fields, no_fields, no_items, Value, null, bool, int, float, text, array, object, truthy,
  find_field, get_or, list_of, keys_of, characters_of, has_text,
}

pub record RawRule : Type 0 where
  pub trigger : Value
  pub to : Value
  pub from_ : Value

-- `roles` is a mapping: `load_policy` has called its method `get`.
pub record RawPolicy : Type 0 where
  pub schema_version : Value
  pub roles : Fields
  pub candidate_count : Value
  pub escalation_rules : List RawRule
  pub discovery : Value
  pub trust_strategy : Value
  pub trust_allow : Value
  pub require_review : Value
  pub unresolved_handling : Value
  pub registry_backend : Value
  pub scheduling_backend : Value
  pub cost_caps : Value
  pub rate_limits : Value

-- `version in SUPPORTED_SCHEMA_VERSIONS`: `True` and `1.0` are equal to 1, and a list or a mapping
-- has no hash.
unfoldable pub is_supported : Value → Reply Bool
is_supported (int (pos n)) = ok (n == 1)
is_supported (bool b) = ok b
is_supported (float x) = ok (x.bits == 4607182418800017408)
is_supported (array _) = raised (type_error "unhashable type")
is_supported (object _) = raised (type_error "unhashable type")
is_supported _ = ok false

-- The mapping whose method `get` is called.
unfoldable pub as_dict : Value → Reply Fields
as_dict (object fields) = ok fields
as_dict _ = raised (attribute_error "get")

-- What a `for` loop goes over: a list's items, a mapping's keys, or a text's characters.
unfoldable pub iterate : Value → Reply (List Value)
iterate (array items) = ok (list_of items)
iterate (object fields) = ok (keys_of fields)
iterate (text s) = ok (characters_of s)
iterate _ = raised (type_error "not iterable")

-- `key in r`: of a mapping's keys, a text's parts, or a list's items.
unfoldable pub has_key : String → Value → Reply Bool
has_key key (object fields) = ok (elim (find_field key fields) [ none ↦ false | some _ ↦ true ])
has_key key (text s) = ok (includes s key)
has_key key (array items) = ok (has_text key items)
has_key key _ = raised (type_error "not iterable")

-- `r[key]`
unfoldable pub item_at : String → Value → Reply Value
item_at key (object fields) = elim (find_field key fields) [
  | none ↦ raised (key_error key)
  | some v ↦ ok v
]
item_at key _ = raised (type_error "indices must be integers")

-- One round of the loop over the rules.
unfoldable pub rule_of : Value → Reply RawRule
rule_of r = do
  has_trigger ← has_key "trigger" r
  has_to ← has_key "to" r
  if not (has_trigger && has_to)
      then raised (policy_error "escalation_rules is missing required key(s)")
      else do
        trigger ← item_at "trigger" r
        to ← item_at "to" r
        fields ← as_dict r
        ok (record { trigger = trigger; to = to; from_ = get_or "from" null fields })

unfoldable pub rules_of : Value → Reply (List RawRule)
rules_of rules = do rs ← iterate rules; traverse rule_of rs

-- `Policy(...)`, from the sections that are read last.
unfoldable pub assemble : Fields → Value → Fields → List RawRule → Reply RawPolicy
assemble raw version roles rules = do
  search ← as_dict (get_or "search" (object no_fields) raw)
  trust ← as_dict (get_or "trust" (object no_fields) raw)
  ok (record {
    schema_version = version;
    roles = roles;
    candidate_count = get_or "candidate_count" (int (pos 10)) search;
    escalation_rules = rules;
    discovery = get_or "discovery" (object no_fields) raw;
    trust_strategy = get_or "strategy" (text "allowlist") trust;
    trust_allow = get_or "allow" (array no_items) trust;
    require_review = get_or "require_review" (bool true) trust;
    unresolved_handling = get_or "unresolved_handling" (text "leave_unresolved") raw;
    registry_backend = get_or "registry_backend" (text "memory") raw;
    scheduling_backend = get_or "scheduling_backend" (text "cron") raw;
    cost_caps = get_or "cost_caps" (object no_fields) raw;
    rate_limits = get_or "rate_limits" (object no_fields) raw;
  })

-- From the guard on the roles on.
unfoldable pub load_roles : Fields → Value → Reply RawPolicy
load_roles raw version = do
  roles ← as_dict (get_or "roles" (object no_fields) raw)
  if not (truthy (get_or "fetch" null roles))
      then raised (policy_error "policy.yaml must define at least one `roles.fetch` adapter")
      else do
        rules ← rules_of (get_or "escalation_rules" (array no_items) raw)
        assemble raw version roles rules

-- From the guard on the version on.
unfoldable pub load_fields : Fields → Reply RawPolicy
load_fields raw = do
  supported ← is_supported (get_or "schema_version" null raw)
  if not supported
      then raised (policy_error "Unsupported schema_version")
      else load_roles raw (get_or "schema_version" null raw)

unfoldable pub load_value : Value → Reply RawPolicy
load_value (object raw) = load_fields raw
load_value _ = raised (policy_error "Policy file must parse to a mapping at the top level")

-- What the `except` clauses around the file do.
unfoldable pub refuse_file : String → Reply Value → Reply Value
refuse_file path (raised (file_not_found s)) =
    raised (policy_error ("Policy file not found: " <> path))
refuse_file path (raised (yaml_error s)) =
    raised (policy_error ("Policy file is not valid YAML: " <> s))
refuse_file path reply = reply

-- `read_yaml` opens a file and is `yaml.safe_load` of it.
unfoldable pub load_policy : (String → Reply Value) → String → Reply RawPolicy
load_policy read_yaml path = do raw ← refuse_file path (read_yaml path); load_value raw
