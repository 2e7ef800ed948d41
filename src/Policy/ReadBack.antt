-- ===== src/Policy/ReadBack.antt =====
-- What the loader's lookups find in the mapping of a file.
use wyndpy.Base.{
  ℕ, String, List, [], ◌∷◌, true, Option, none, some, ◌==◌, ℕ_eq, string_eq, ◌≡◌, refl, ap, ◌∙◌,
  arith, if◌then◌else◌,
}
use wyndpy.Base.Reply.{ok, traverse}
use wyndpy.Base.Value.{or_default}
use wyndpy.Base.Value.{
  pos, Fields, no_fields, no_items, entry, Value, null, bool, int, text, array, object, find_field,
  get_or, texts, items_of, list_of,
}
use wyndpy.Core.Escalation.{EscalationRule}
use wyndpy.Policy.Load.{as_dict, iterate, has_key, item_at, rule_of, rules_of}
use wyndpy.Policy.File.{
  TrustSection, no_trust, or_else, Sections, fields_of, option_map, rule_fields, rule_values,
  trust_sections, sections, raw_rules,
}

-- The first section of a key that is there.
abbrev pub section : String → Sections → Option Value
section key [] = none
section key ((k, v) ∷ sections) =
    let rest = section key sections in
    if key == k then elim v [ none ↦ rest | some x ↦ some x ] else rest

pub find_field-fields_of :
    (key : String) (sections : Sections)
    → find_field key (fields_of sections) ≡ section key sections
unfolding find_field fields_of
find_field-fields_of key [] = refl
find_field-fields_of key ((k, none) ∷ sections) = ground (arith, find_field-fields_of key sections)
find_field-fields_of key ((k, some v) ∷ sections) =
    ground (arith, find_field-fields_of key sections)

-- What an optional section gives, with the default for a section that is left out.
abbrev pub kept : Option Value → Option Value
kept v = elim v [ none ↦ none | some x ↦ some x ]

pub get_or-section :
    {A : Type 0} (key : String) (ss : Sections) (f : A → Value) (o : Option A) (d : A)
    → section key ss ≡ kept (option_map f o)
    → get_or key (f d) (fields_of ss) ≡ f (or_else o d)
unfolding get_or
get_or-section key ss f none d e = ap (λ o. or_default o (f d)) (find_field-fields_of key ss ∙ e)
get_or-section key ss f (some a) d e =
    ap (λ o. or_default o (f d)) (find_field-fields_of key ss ∙ e)

pub get_or-there :
    (key : String) (ss : Sections) (v d : Value)
    → section key ss ≡ some v
    → get_or key d (fields_of ss) ≡ v
unfolding get_or
get_or-there key ss v d e = ap (λ o. or_default o d) (find_field-fields_of key ss ∙ e)

list_of-items_of : (vs : List Value) → list_of (items_of vs) ≡ vs
unfolding list_of items_of
list_of-items_of [] = refl
list_of-items_of (v ∷ vs) = ap (λ ws. v ∷ ws) (list_of-items_of vs)

rule_of-rule_fields :
    (trigger to : String) (from_ : Option String)
    → rule_of (object (rule_fields (record { trigger = trigger; to = to; from_ = from_ })))
      ≡ ok (record {
        trigger = text trigger;
        to = text to;
        from_ = elim from_ [ none ↦ null | some name ↦ text name ];
      })
unfolding rule_of has_key item_at as_dict find_field get_or string_eq
rule_of-rule_fields trigger to none = refl
rule_of-rule_fields trigger to (some name) = refl

traverse-rule_values :
    (rules : List EscalationRule) → traverse rule_of (rule_values rules) ≡ ok (raw_rules rules)
unfolding traverse rule_values raw_rules
traverse-rule_values [] = refl
traverse-rule_values (rule ∷ rules) =
    rw (rule_of-rule_fields rule.trigger rule.to rule.from_, traverse-rule_values rules) refl

pub rules_of-rule_values :
    (rules : List EscalationRule)
    → rules_of (array (items_of (rule_values rules))) ≡ ok (raw_rules rules)
unfolding rules_of iterate
rules_of-rule_values rules = rw (list_of-items_of (rule_values rules)) (traverse-rule_values rules)

-- The mapping of an optional section.
abbrev pub mapping : {A : Type 0} → (A → Fields) → Option A → Fields
mapping g none = no_fields
mapping g (some a) = g a

pub get_or-mapping :
    {A : Type 0} (key : String) (ss : Sections) (g : A → Fields) (o : Option A)
    → section key ss ≡ kept (option_map (λ a. object (g a)) o)
    → get_or key (object no_fields) (fields_of ss) ≡ object (mapping g o)
unfolding get_or
get_or-mapping key ss g none e =
    ap (λ o. or_default o (object no_fields)) (find_field-fields_of key ss ∙ e)
get_or-mapping key ss g (some a) e =
    ap (λ o. or_default o (object no_fields)) (find_field-fields_of key ss ∙ e)

-- The sections of a trust mapping, as the loader asks for them.
module _ (trust : TrustSection) where
  pub strategy_read :
      get_or "strategy" (text "allowlist") (fields_of (trust_sections trust))
      ≡ text (or_else trust.strategy "allowlist")
  unfolding string_eq
  strategy_read =
      get_or-section "strategy" (trust_sections trust) text trust.strategy "allowlist" refl

  pub allow_read :
      get_or "allow" (array no_items) (fields_of (trust_sections trust))
      ≡ array (texts (or_else trust.allow []))
  unfolding string_eq texts
  allow_read =
      get_or-section "allow" (trust_sections trust) (λ a. array (texts a)) trust.allow [] refl

  pub review_read :
      get_or "require_review" (bool true) (fields_of (trust_sections trust))
      ≡ bool (or_else trust.require_review true)
  unfolding string_eq
  review_read =
      get_or-section "require_review" (trust_sections trust) bool trust.require_review true refl

pub trust_mapping :
    (trust : Option TrustSection)
    → mapping (λ t. fields_of (trust_sections t)) trust
      ≡ fields_of (trust_sections (or_else trust no_trust))
unfolding fields_of
trust_mapping none = refl
trust_mapping (some trust) = refl

pub count_read :
    (count : Option ℕ)
    → get_or "candidate_count"
        (int (pos 10))
        (mapping (λ n. entry "candidate_count" (int (pos n)) no_fields) count)
      ≡ int (pos (or_else count 10))
unfolding get_or find_field string_eq
count_read none = refl
count_read (some n) = refl
