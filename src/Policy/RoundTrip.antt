-- ===== src/Policy/RoundTrip.antt =====
-- Loading a policy file gives the policy that it means.
use wyndpy.Base.{String, List, [], ◌∷◌, true, some, ℕ_eq, string_eq, ◌≡◌, refl, ap, ◌∙◌, arith}
use wyndpy.Base.Dict.{Dict, lookup}
use wyndpy.Base.Reply.{Reply, ok}
use wyndpy.Base.Value.{or_default}
use wyndpy.Base.Value.{
  pos, Fields, no_fields, no_items, entry, Value, null, int, text, array, object, truthy,
  find_field, get_or, texts, items_of,
}
use wyndpy.Policy.Load.{
  RawRule, is_supported, as_dict, assemble, load_roles, load_fields, load_value, refuse_file,
  load_policy,
}
use wyndpy.Policy.File.{
  no_trust, PolicyFile, or_else, policy_of, fields_of, option_map, dict_of, rule_values,
  trust_sections, sections, dump, raw_rules, raw_policy,
}
use wyndpy.Policy.ReadBack.{
  get_or-section, get_or-there, rules_of-rule_values, mapping, get_or-mapping, strategy_read,
  allow_read, review_read, trust_mapping, count_read,
}

-- The sections of a file.
module _ (file : PolicyFile) where
  abbrev raw : Fields
  raw = fields_of (sections file)

  discovery_read :
      get_or "discovery" (object no_fields) raw ≡ (object) (or_else file.discovery no_fields)
  unfolding string_eq
  discovery_read = get_or-section "discovery" (sections file) (object) file.discovery no_fields refl

  handling_read :
      get_or "unresolved_handling" (text "leave_unresolved") raw
      ≡ (text) (or_else file.unresolved_handling "leave_unresolved")
  unfolding string_eq
  handling_read =
      get_or-section "unresolved_handling" (sections file) (text) file.unresolved_handling
        "leave_unresolved" refl

  registry_read :
      get_or "registry_backend" (text "memory") raw
      ≡ (text) (or_else file.registry_backend "memory")
  unfolding string_eq
  registry_read =
      get_or-section "registry_backend" (sections file) (text) file.registry_backend "memory" refl

  scheduling_read :
      get_or "scheduling_backend" (text "cron") raw
      ≡ (text) (or_else file.scheduling_backend "cron")
  unfolding string_eq
  scheduling_read =
      get_or-section "scheduling_backend" (sections file) (text) file.scheduling_backend "cron" refl

  caps_read :
      get_or "cost_caps" (object no_fields) raw ≡ object (dict_of text (or_else file.cost_caps []))
  unfolding string_eq dict_of
  caps_read =
      get_or-section "cost_caps" (sections file) (λ d. object (dict_of text d)) file.cost_caps []
        refl

  limits_read :
      get_or "rate_limits" (object no_fields) raw
      ≡ object (dict_of text (or_else file.rate_limits []))
  unfolding string_eq dict_of
  limits_read =
      get_or-section "rate_limits" (sections file) (λ d. object (dict_of text d)) file.rate_limits
        [] refl

  rules_read :
      get_or "escalation_rules" (array no_items) raw
      ≡ array (items_of (rule_values (or_else file.escalation_rules [])))
  unfolding string_eq items_of rule_values
  rules_read =
      get_or-section "escalation_rules" (sections file) (λ rs. array (items_of (rule_values rs)))
        file.escalation_rules [] refl

  search_read :
      get_or "search" (object no_fields) raw
      ≡ object (mapping (λ n. entry "candidate_count" (int (pos n)) no_fields) file.candidate_count)
  unfolding string_eq
  search_read = get_or-mapping "search" (sections file) _ file.candidate_count refl

  trust_read :
      get_or "trust" (object no_fields) raw
      ≡ object (fields_of (trust_sections (or_else file.trust no_trust)))
  unfolding string_eq
  trust_read =
      get_or-mapping "trust" (sections file) _ file.trust refl
      ∙ ap object (trust_mapping file.trust)

  version_read : get_or "schema_version" null raw ≡ int (pos 1)
  unfolding string_eq
  version_read = get_or-there "schema_version" (sections file) (int (pos 1)) null refl

  roles_read :
      get_or "roles" (object no_fields) raw
      ≡ object (dict_of (λ names. array (texts names)) file.roles)
  unfolding string_eq
  roles_read = get_or-there "roles" (sections file) _ (object no_fields) refl

  assemble-sections :
      (version : Value) (roles : Fields) (rules : List RawRule)
      → assemble raw version roles rules
        ≡ ok (record (raw_policy (policy_of file)) {
          schema_version = version;
          roles = roles;
          escalation_rules = rules;
        })
  unfolding assemble as_dict
  assemble-sections version roles rules =
      let trust = or_else file.trust no_trust in
      rw
        (
          search_read,
          trust_read,
          count_read file.candidate_count,
          discovery_read,
          strategy_read trust,
          allow_read trust,
          review_read trust,
          handling_read,
          registry_read,
          scheduling_read,
          caps_read,
          limits_read,
        )
        refl

  load_roles-sections :
      (version : Value)
      → truthy (get_or "fetch" null (dict_of (λ names. array (texts names)) file.roles)) ≡ true
      → load_roles raw version
        ≡ ok (record (raw_policy (policy_of file)) { schema_version = version })
  unfolding load_roles as_dict
  load_roles-sections version h =
      rw (roles_read, h, rules_read, rules_of-rule_values (or_else file.escalation_rules []))
        (assemble-sections version (dict_of (λ names. array (texts names)) file.roles)
          (raw_rules (or_else file.escalation_rules [])))

find_field-dict_of :
    {A : Type 0} (f : A → Value) (key : String) (d : Dict String A)
    → find_field key (dict_of f d) ≡ option_map f (lookup key d)
unfolding find_field dict_of lookup
find_field-dict_of f key [] = refl
find_field-dict_of f key ((k, a) ∷ d) = ground (arith, find_field-dict_of f key d)

fetch_truthy :
    (roles : Dict String (List String)) (name : String) (names : List String)
    → lookup "fetch" roles ≡ some (name ∷ names)
    → truthy (get_or "fetch" null (dict_of (λ names. array (texts names)) roles)) ≡ true
unfolding get_or truthy texts
fetch_truthy roles name names h =
    let f : List String → Value = λ names. array (texts names) in
    ap (λ o. truthy (or_default o null)) (find_field-dict_of f "fetch" roles ∙ ap (option_map f) h)

-- Loading a file of the documented schema whose fetch role names an adapter gives the policy that
-- the file means: each section that is there, and the documented default of each that is left out.
pub load_policy-dump :
    (read_yaml : String → Reply Value) (path : String) (file : PolicyFile) (name : String)
    (names : List String)
    → read_yaml path ≡ ok (dump file)
    → lookup "fetch" file.roles ≡ some (name ∷ names)
    → load_policy read_yaml path ≡ ok (raw_policy (policy_of file))
unfolding load_policy refuse_file load_value load_fields is_supported dump ℕ_eq
load_policy-dump read_yaml path file name names h e =
    rw (h, version_read file)
      (load_roles-sections file (int (pos 1)) (fetch_truthy file.roles name names e))
