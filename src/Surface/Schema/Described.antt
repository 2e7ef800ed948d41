-- ===== src/Surface/Schema/Described.antt =====
-- What a schema tells of each parameter.
use wyndpy.Base.{
  ap, String, List, [], ◌∷◌, Bool, true, false, Option, none, some, string_eq, ◌==◌, contains, ◌≡◌,
  ◌≢◌, refl, arith, if◌then◌else◌, inl, inr, Bool-cases, Option-cases, map,
}
use wyndpy.Base.Value.{Fields, Value, text, array, object, texts, find_field, Items, has_text}
use wyndpy.Surface.Schema.{
  Annotation, str_class, int_class, float_class, bool_class, bytes_class, other_object, postponed,
  json_type, py_type, Parameter, Method, property_of, properties_of, required_of, schema_for,
}

-- The first parameter of a name.
unfoldable pub find_parameter : String → List Parameter → Option Parameter
find_parameter name [] = none
find_parameter name (p ∷ ps) =
    let rest = find_parameter name ps in if name == p.name then some p else rest

abbrev pub parameter_names : List Parameter → List String
parameter_names ps = map (λ p. p.name) ps

-- No two parameters have one name, as Python asks of a signature.
abbrev pub DistinctNames : List Parameter → Type 0
DistinctNames [] = Unit
DistinctNames (p ∷ ps) = (contains (parameter_names ps) p.name ≡ false) × DistinctNames ps

-- The JSON types of annotations. A parameter without one counts as a text, and so does one whose
-- annotation is no class of the table, an annotation that is a text with it.
pub data TypeName : Option Annotation → String → Type 0 where
  unannotated : TypeName none "string"
  strings : TypeName (some str_class) "string"
  integers : TypeName (some int_class) "integer"
  numbers : TypeName (some float_class) "number"
  booleans : TypeName (some bool_class) "boolean"
  encoded : TypeName (some bytes_class) "string"
  unlisted : TypeName (some other_object) "string"
  unread : (annotation : String) → TypeName (some (postponed annotation)) "string"

-- A property that has the parameter's type, and its default if it has one.
pub record IsPropertyOf (p : Parameter) (v : Value) : Type 0 where
  pub fields : Fields
  pub json : String
  pub shape : v ≡ object fields
  pub typed : TypeName p.annotation json
  pub has_type : find_field "type" fields ≡ some (text json)
  pub has_default : find_field "default" fields ≡ p.default

-- What a schema is to tell under a name.
abbrev pub Describes : Option Parameter → Option Value → Type 0
Describes none o = o ≡ none
Describes (some p) o = (v : Value) × (o ≡ some v) × IsPropertyOf p v

json_type-TypeName : (a : Option Annotation) → TypeName a (json_type (py_type a))
json_type-TypeName none = unannotated
json_type-TypeName (some str_class) = strings
json_type-TypeName (some int_class) = integers
json_type-TypeName (some float_class) = numbers
json_type-TypeName (some bool_class) = booleans
json_type-TypeName (some bytes_class) = encoded
json_type-TypeName (some other_object) = unlisted
json_type-TypeName (some (postponed s)) = unread s

property_of-IsPropertyOf : (p : Parameter) → IsPropertyOf p (property_of p)
unfolding find_field string_eq
property_of-IsPropertyOf p = record {
  fields = _;
  json = json_type (py_type p.annotation);
  shape = refl;
  typed = json_type-TypeName p.annotation;
  has_type = refl;
  has_default = elim (Option-cases p.default) [
    | inl unset ↦ ground (arith, unset)
    | inr (v, given) ↦ ground (arith, given)
  ];
}

abbrev described : Option Parameter → Option Value
described none = none
described (some p) = some (property_of p)

described-Describes : (p : Option Parameter) (o : Option Value) → o ≡ described p → Describes p o
described-Describes none o h = h
described-Describes (some p) o h = (property_of p, h, property_of-IsPropertyOf p)

-- Whether an argument is to be required under a name.
abbrev pub is_obligatory : Option Parameter → Bool
is_obligatory none = false
is_obligatory (some p) = elim p.default [ none ↦ true | some _ ↦ false ]

properties_of_self : (ps : List Parameter) → find_field "self" (properties_of ps) ≡ none
unfolding properties_of find_field
properties_of_self [] = refl
properties_of_self (p ∷ ps) = ground (arith, properties_of_self ps)

properties_of-find :
    (name : String) (ps : List Parameter)
    → name ≢ "self"
    → find_field name (properties_of ps) ≡ described (find_parameter name ps)
unfolding properties_of find_field find_parameter
properties_of-find name [] h = refl
properties_of-find name (p ∷ ps) h = ground (arith, h, properties_of-find name ps h)

absent :
    (name : String) (ps : List Parameter)
    → contains (parameter_names ps) name ≡ false
    → has_text name (texts (required_of ps)) ≡ false
unfolding required_of texts has_text
absent name [] h = refl
absent name (p ∷ ps) h = ground (arith, h, absent name ps)

required_of-has :
    (name : String) (ps : List Parameter)
    → DistinctNames ps
    → name ≢ "self"
    → has_text name (texts (required_of ps)) ≡ is_obligatory (find_parameter name ps)
unfolding required_of texts has_text find_parameter
required_of-has name [] d h = refl
required_of-has name (p ∷ ps) (fresh, d) h = elim (Bool-cases (name == p.name)) [
  | inl same ↦ elim (Option-cases p.default) [
    | inl none_given ↦ ground (arith, h, same, none_given)
    | inr (v, given) ↦ ground (
      arith,
      h,
      same,
      given,
      absent p.name ps fresh,
      λ (e : name ≡ p.name). ap (λ x. has_text x (texts (required_of ps))) e,
    )
  ]
  | inr differs ↦ elim (Option-cases p.default) [
    | inl none_given ↦ ground (arith, differs, none_given, required_of-has name ps d h)
    | inr (v, given) ↦ ground (arith, differs, given, required_of-has name ps d h)
  ]
]

-- What a schema tells of an argument: it has a property for it, and requires it or not.
pub record Tells (schema : Fields) (key : String) (p : Option Parameter) : Type 0 where
  pub shape : Fields
  pub properties : Fields
  pub required : Items
  pub has_shape : find_field "parameters" schema ≡ some (object shape)
  pub has_properties : find_field "properties" shape ≡ some (object properties)
  pub has_required : find_field "required" shape ≡ some (array required)
  pub property : Describes p (find_field key properties)
  pub obligatory : has_text key required ≡ is_obligatory p

-- The schema of a method whose parameters have distinct names has, under any name but `self`, a
-- property with the JSON type of the annotation of the parameter of that name and with its default,
-- if it has one, or no property if no parameter has the name, and it requires the name if and only
-- if there is such a parameter and it has no default.
pub schema_for-Tells :
    (m : Method) (name : String) (description : Option String) (key : String)
    → DistinctNames m.parameters
    → key ≢ "self"
    → Tells (schema_for m name description) key (find_parameter key m.parameters)
unfolding schema_for find_field string_eq
schema_for-Tells m name description key d h = record {
  shape = _;
  properties = properties_of m.parameters;
  required = texts (required_of m.parameters);
  has_shape = refl;
  has_properties = refl;
  has_required = refl;
  property =
      described-Describes (find_parameter key m.parameters) _
        (properties_of-find key m.parameters h);
  obligatory = required_of-has key m.parameters d h;
}
