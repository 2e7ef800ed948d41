-- ===== src/Surface/Schema.antt =====
-- wyndpy/surface/tool_schema.py: the schema of a tool from a method's signature.
pub mod Described
use Prim.Native.Char.{code}
use wyndpy.Base.{
  String, List, [], ◌∷◌, ◌++◌, Option, none, some, ◌==◌, ℕ_eq, string_eq, if◌then◌else◌,
}
use wyndpy.Base.Value.{Fields, no_fields, entry, Value, text, array, object, texts}

-- What an annotation may be: one of the classes of `_TYPE_MAP`, another object, or a text, which
-- every annotation is in a module that postpones their evaluation.
pub data Annotation : Type 0 where
  str_class int_class float_class bool_class bytes_class other_object : Annotation
  postponed : String → Annotation

-- `none` is `inspect.Parameter.empty`.
pub record Parameter : Type 0 where
  pub name : String
  pub annotation : Option Annotation
  pub default : Option Value

-- A method: `inspect.signature` of it, and `inspect.getdoc` of it.
pub record Method : Type 0 where
  pub parameters : List Parameter
  pub doc : Option String

-- `_TYPE_MAP.get(py_type, "string")`
abbrev pub json_type : Annotation → String
json_type str_class = "string"
json_type int_class = "integer"
json_type float_class = "number"
json_type bool_class = "boolean"
json_type bytes_class = "string"
json_type other_object = "string"
json_type (postponed _) = "string"

-- `param.annotation if param.annotation is not inspect.Parameter.empty else str`
abbrev pub py_type : Option Annotation → Annotation
py_type none = str_class
py_type (some a) = a

-- A property, with the default if the parameter has one.
abbrev pub property_of : Parameter → Value
property_of p = object (
    entry "type" (text (json_type (py_type p.annotation)))
      (elim p.default [ none ↦ no_fields | some v ↦ entry "default" v no_fields ]))

-- The loop over the parameters. Their names differ from one another, as Python asks of a signature.
unfoldable pub properties_of : List Parameter → Fields
properties_of [] = no_fields
properties_of (p ∷ ps) =
    let rest = properties_of ps in
    if p.name == "self" then rest else entry p.name (property_of p) rest

unfoldable pub required_of : List Parameter → List String
required_of [] = []
required_of (p ∷ ps) =
    let rest = required_of ps in
    if p.name == "self" then rest else elim p.default [ none ↦ p.name ∷ rest | some _ ↦ rest ]

-- `s.split("\n")[0]`
unfoldable pub first_line : String → String
unfolding ℕ_eq
first_line String.[] = ""
first_line (String.◌∷◌ c s) =
    let rest = first_line s in if code c == b'\n' then "" else String.◌∷◌ c rest

-- `description or (inspect.getdoc(method) or "").split("\n")[0]`
abbrev pub description_of : Option String → Option String → String
description_of none doc = elim doc [ none ↦ "" | some d ↦ first_line d ]
description_of (some given) doc =
    if given == "" then elim doc [ none ↦ "" | some d ↦ first_line d ] else given

unfoldable pub schema_for : Method → String → Option String → Fields
schema_for method name description = entry "name" (text name) (
    entry "description" (text (description_of description method.doc)) (
      entry "parameters"
        (object (
          entry "type" (text "object") (
            entry "properties" (object (properties_of method.parameters))
              (entry "required" (array (texts (required_of method.parameters))) no_fields))))
        no_fields))
