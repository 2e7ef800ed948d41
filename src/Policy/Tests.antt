-- ===== src/Policy/Tests.antt =====
-- The loader on concrete files, and the theorems about it at that input.
use wyndpy.Base.{
  String, [], ◌∷◌, false, none, some, ◌==◌, ℕ_eq, string_eq, ◌≡◌, refl, if◌then◌else◌,
}
use wyndpy.Base.Dict.{lookup}
use wyndpy.Base.Reply.{attribute_error, file_not_found, yaml_error, Reply, ok, raised, traverse}
use wyndpy.Base.Value.{
  pos, Fields, no_fields, entry, Value, null, int, object, truthy, find_field, get_or, texts,
  items_of, list_of,
}
use wyndpy.Core.Escalation.{EscalationRule}
use wyndpy.Policy.Load.{
  RawPolicy, is_supported, as_dict, iterate, has_key, item_at, rule_of, rules_of, assemble,
  load_roles, load_fields, load_value, refuse_file, load_policy,
}
use wyndpy.Policy.File.{PolicyFile, policy_of, fields_of, dict_of, rule_values, dump, raw_policy}
use wyndpy.Policy.RoundTrip.{load_policy-dump}

abbrev rule : EscalationRule
rule = record { trigger = "empty_shell"; to = "firecrawl"; from_ = some "httpx" }

abbrev file : PolicyFile
file = record {
  roles = ("search", "exa" ∷ []) ∷ ("fetch", "httpx" ∷ "firecrawl" ∷ []) ∷ [];
  candidate_count = none;
  escalation_rules = some (rule ∷ []);
  discovery = none;
  trust =
      some
        (record { strategy = none; allow = some ("a.example" ∷ []); require_review = some false });
  unresolved_handling = none;
  registry_backend = some "memory";
  scheduling_backend = none;
  cost_caps = none;
  rate_limits = none;
}

-- One file is there; another has a section without a value; a third is missing.
abbrev disk : String → Reply Value
disk path =
    if path == "policy.yaml"
    then ok (dump file)
    else if path == "null.yaml"
    then ok (object (entry "schema_version" (int (pos 1)) (entry "roles" null no_fields)))
    else raised (file_not_found path)

-- Opens all that loading computes with.
loaded : String → Reply RawPolicy
unfolding load_policy refuse_file load_value load_fields load_roles is_supported as_dict iterate
    has_key item_at rule_of rules_of assemble traverse truthy find_field get_or list_of fields_of
    dict_of rule_values items_of texts dump string_eq ℕ_eq
loaded path = load_policy disk path

null_section : loaded "null.yaml" ≡ raised (attribute_error "get")
unfolding loaded
null_section = refl

load_policy-dump_example : loaded "policy.yaml" ≡ ok (raw_policy (policy_of file))
unfolding loaded lookup
load_policy-dump_example =
    load_policy-dump disk "policy.yaml" file "httpx" ("firecrawl" ∷ []) refl refl

-- A disk with the one file, without roles.
abbrev bare : Fields
bare = entry "schema_version" (int (pos 1)) no_fields

abbrev bare_disk : String → Reply Value
bare_disk path = if path == "bare.yaml" then ok (object bare) else raised (yaml_error path)
