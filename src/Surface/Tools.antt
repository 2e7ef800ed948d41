-- ===== src/Surface/Tools.antt =====
-- wyndpy/surface/mcp_server.py: the tools that are made of adapters.
pub mod Latest
pub mod Listed
use wyndpy.Base.{String, ◌<>◌, List, [], ◌∷◌, Option, none, some, map, string_eq}
use wyndpy.Base.Dict.{Dict, lookup, insert, values}
use wyndpy.Base.Reply.{Reply, raised, key_error}
use wyndpy.Base.Value.{Fields, Value}
use wyndpy.Surface.Schema.{Method, schema_for}

-- What a call of a bound method with keyword arguments does.
abbrev pub Handler : Type 0 → Type 0
Handler W = Fields → W → Reply Value × W

-- An adapter, by the method that is registered of it.
pub record Adapter (W : Type 0) : Type 0 where
  pub name : String
  pub method : Method
  pub run : Handler W

-- `AdapterToolRegistry._tools`
abbrev pub Tools : Type 0 → Type 0
Tools W = Dict String (Fields × Handler W)

-- The roles of the three methods `register_...`, which differ in the prefix of the name alone.
pub data Role : Type 0 where
  fetch_role search_role parse_role : Role

abbrev pub prefix : Role → String
prefix fetch_role = "fetch_via_"
prefix search_role = "search_via_"
prefix parse_role = "parse_via_"

unfoldable pub tool_name : Role → String → String
tool_name role name = prefix role <> name

module _ {W : Type 0} where
  abbrev pub new_registry : Tools W
  new_registry = []

  unfoldable pub register : Role → Adapter W → Tools W → Tools W
  register role a tools =
      let name = tool_name role a.name in insert name (schema_for a.method name none, a.run) tools

  abbrev pub register_fetch : Adapter W → Tools W → Tools W
  register_fetch = register fetch_role

  abbrev pub register_search : Adapter W → Tools W → Tools W
  register_search = register search_role

  abbrev pub register_parse : Adapter W → Tools W → Tools W
  register_parse = register parse_role

  -- `schemas`
  unfoldable pub schemas : Tools W → List Fields
  schemas tools = map (λ t. t.0) (values tools)

  unfoldable pub call : String → Fields → Tools W → W → Reply Value × W
  call name kwargs tools w = elim (lookup name tools) [
    | none ↦ (raised (key_error name), w)
    | some tool ↦ tool.1 kwargs w
  ]
