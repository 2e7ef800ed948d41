-- ===== src/Policy/Refusal.antt =====
-- Which exceptions leave `load_policy`.
use wyndpy.Base.{Bool, ℕ_eq, string_eq, ◌≡◌, All}
use wyndpy.Base.Reply.{Exception, policy_error, Reply, ok, raised}
use wyndpy.Base.Value.{
  Fields, no_fields, no_items, Items, Value, null, array, object, get_or, list_of,
}
use wyndpy.Policy.Load.{is_supported}

abbrev pub IsPolicyError : Exception → Type 0
IsPolicyError (policy_error _) = Unit
IsPolicyError _ = ⊥

-- If it raises, it raises a `PolicyError`.
abbrev pub Refuses : {A : Type 0} → Reply A → Type 0
Refuses (ok _) = Unit
Refuses (raised e) = IsPolicyError e

abbrev IsObject : Value → Type 0
IsObject v = (fields : Fields) × (v ≡ object fields)

-- The sections that the loader reads have the shapes of the documented schema: the version is no
-- list or mapping, roles, search and trust are mappings, and the rules are a list of mappings.
pub record IsShaped (raw : Fields) : Type 0 where
  pub version : (b : Bool) × (is_supported (get_or "schema_version" null raw) ≡ ok b)
  pub roles : IsObject (get_or "roles" (object no_fields) raw)
  pub search : IsObject (get_or "search" (object no_fields) raw)
  pub trust : IsObject (get_or "trust" (object no_fields) raw)
  pub rules :
      (items : Items) × (get_or "escalation_rules" (array no_items) raw ≡ array items)
      × All IsObject (list_of items)
