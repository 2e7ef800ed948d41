-- ===== src/Base/Value.antt =====
-- Values of a dynamic language: what a YAML file or a JSON reply holds, and opaque metadata.
use Prim.Native.Nat.{ℕ, zero}
use Prim.Native.String.{String}
use mathlib.Core.Bool.{Bool, true, false, not, ◌||◌}
use mathlib.Core.Option.{Option, none, some}
use mathlib.Core.List.{List, [], ◌∷◌}
use wyndpy.Base.Equality.{◌==◌, ℕ_eq, string_eq, if◌then◌else◌}

-- `negsuc n` is -(n + 1).
pub data ℤ : Type 0 where
  pos : ℕ → ℤ
  negsuc : ℕ → ℤ

-- A float by its 64-bit pattern. The library only carries floats.
pub record Float : Type 0 where
  pub bits : ℕ

mutual
  -- The entries of a mapping, in order. A key of another type than `str` is not represented.
  pub data Fields : Type 0 where
    no_fields : Fields
    entry : String → Value → Fields → Fields

  pub data Items : Type 0 where
    no_items : Items
    item : Value → Items → Items

  pub data Value : Type 0 where
    null : Value
    bool : Bool → Value
    int : ℤ → Value
    float : Float → Value
    text : String → Value
    array : Items → Value
    object : Fields → Value

-- The patterns of 0.0 and -0.0.
abbrev is_zero : Float → Bool
is_zero x = x.bits == 0 || x.bits == 9223372036854775808

-- `bool(v)`
unfoldable pub truthy : Value → Bool
unfolding ℕ_eq string_eq
truthy null = false
truthy (bool b) = b
truthy (int (pos zero)) = false
truthy (int _) = true
truthy (float x) = not (is_zero x)
truthy (text s) = not (s == "")
truthy (array no_items) = false
truthy (array (item _ _)) = true
truthy (object no_fields) = false
truthy (object (entry _ _ _)) = true

-- A list of texts, as a value.
unfoldable pub texts : List String → Items
texts [] = no_items
texts (s ∷ ss) = item (text s) (texts ss)

-- What stands under a key, if the key is there.
unfoldable pub find_field : String → Fields → Option Value
find_field key no_fields = none
find_field key (entry k v fields) =
    let rest = find_field key fields in if key == k then some v else rest

abbrev pub or_default : Option Value → Value → Value
or_default none default = default
or_default (some v) default = v

-- `d.get(key, default)`
unfoldable pub get_or : String → Value → Fields → Value
get_or key default fields = or_default (find_field key fields) default

-- `d.get(key)`
unfoldable pub get_field : String → Fields → Value
unfolding string_eq
get_field key no_fields = null
get_field key (entry k v fields) = let rest = get_field key fields in if key == k then v else rest

-- `v or w`
abbrev pub or_value : Value → Value → Value
or_value v w = if truthy v then v else w

-- `str(v)`, where `repr` prints what is not a text.
abbrev pub print : (Value → String) → Value → String
print repr (text s) = s
print repr v = repr v

-- `[row for row in items if isinstance(row, dict)]`
unfoldable pub objects_of : Items → List Fields
objects_of no_items = []
objects_of (item (object fields) items) = fields ∷ objects_of items
objects_of (item _ items) = objects_of items

unfoldable pub list_of : Items → List Value
list_of no_items = []
list_of (item v items) = v ∷ list_of items

unfoldable pub items_of : List Value → Items
items_of [] = no_items
items_of (v ∷ vs) = item v (items_of vs)

-- The keys of a mapping, and the characters of a text, as texts.
unfoldable pub keys_of : Fields → List Value
keys_of no_fields = []
keys_of (entry k v fields) = text k ∷ keys_of fields

unfoldable pub characters_of : String → List Value
characters_of String.[] = []
characters_of (String.◌∷◌ c s) = text (String.◌∷◌ c String.[]) ∷ characters_of s

-- `key in items`, for a text.
unfoldable pub has_text : String → Items → Bool
has_text key no_items = false
has_text key (item (text s) items) = key == s || has_text key items
has_text key (item _ items) = has_text key items
