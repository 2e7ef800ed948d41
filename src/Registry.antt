-- ===== src/Registry.antt =====
-- wyndpy/registry/memory_adapter.py. The registry keeps references to the caller's items, so a
-- later change of an item is seen through it: `objects` gives the items as they are at a call.
pub mod Laws
pub mod Postgres
mod Tests
use wyndpy.Base.{ℕ, String, List, [], ◌∷◌, Bool, true, false, Option, string_eq, if◌then◌else◌}
use wyndpy.Base.Dict.{Dict, lookup, insert, values}
use wyndpy.Core.Item.{ItemStatus, pending_discovery, ResolvableItem}

-- The items behind the references.
abbrev pub Objects : Type 0
Objects = ℕ → ResolvableItem

pub record MemoryRegistry : Type 0 where
  pub items : Dict String ℕ

abbrev pub new_registry : MemoryRegistry
new_registry = record { items = [] }

unfoldable pub get : String → MemoryRegistry → Option ℕ
get item_id reg = lookup item_id reg.items

unfoldable pub upsert : Objects → ℕ → MemoryRegistry → MemoryRegistry
upsert objects item reg = record { items = insert (objects item).id item reg.items }

-- `i.status == ItemStatus.PENDING_DISCOVERY`
abbrev pub is_pending_discovery : ItemStatus → Bool
is_pending_discovery pending_discovery = true
is_pending_discovery _ = false

unfoldable pub pending : Objects → List ℕ → List ℕ
pending objects [] = []
pending objects (i ∷ items) =
    let rest = pending objects items in
    if is_pending_discovery (objects i).status then i ∷ rest else rest

unfoldable pub list_pending_discovery : Objects → MemoryRegistry → List ℕ
unfolding pending
list_pending_discovery objects reg = pending objects (values reg.items)
