-- ===== src/Core/Discovery.antt =====
-- wyndpy/core/discovery.py: adapters by name, from the entry points that packages register.
pub mod Laws
mod Tests
use wyndpy.Base.{String, ◌<>◌, List, [], ◌∷◌, Option, none, some, ◌==◌, string_eq, if◌then◌else◌}
use wyndpy.Base.Dict.{Dict, lookup, insert}
use wyndpy.Base.Reply.{Reply, ok, raised, key_error, ◌>>=◌}

-- `load` is what importing the entry point's target gives.
pub record EntryPoint {ℓ} (C : Type ℓ) : Type ℓ where
  pub name : String
  pub target : String
  pub load : Reply C

abbrev pub groups : Dict String String
groups = ("fetch", "wyndpy.fetch") ∷ ("search", "wyndpy.search") ∷ ("parse", "wyndpy.parse") ∷ []

-- `_GROUPS[role]`
unfoldable pub group_of : String → Reply String
group_of role = elim (lookup role groups) [ none ↦ raised (key_error role) | some group ↦ ok group ]

-- `importlib.metadata.entry_points` is the parameter: the entry points of a group, in order.
module _ {ℓ} {C : Type ℓ} (entry_points : String → List (EntryPoint C)) where
  -- `{ep.name: ep.value for ep in eps}`
  unfoldable pub targets : List (EntryPoint C) → Dict String String → Dict String String
  targets [] d = d
  targets (ep ∷ eps) d = targets eps (insert ep.name ep.target d)

  unfoldable pub available_adapters : String → Reply (Dict String String)
  available_adapters role = do group ← group_of role; ok (targets (entry_points group) [])

  -- The loop of `load_adapter_class`, and the `KeyError` after it.
  unfoldable pub load_first : String → List (EntryPoint C) → Reply C
  load_first name [] = raised (key_error ("No adapter named " <> name))
  load_first name (ep ∷ eps) = if ep.name == name then ep.load else load_first name eps

  unfoldable pub load_adapter_class : String → String → Reply C
  load_adapter_class role name = do group ← group_of role; load_first name (entry_points group)
