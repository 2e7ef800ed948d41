-- ===== src/Registry/Tests.antt =====
-- The in-memory registry on concrete items, and the theorems about it at concrete data.
use wyndpy.Base.{
  ℕ, zero, suc, String, [], ◌∷◌, true, none, some, ◌==◌, if◌then◌else◌, contains, ◌≡◌, ◌↔◌, refl,
  string_eq, ℕ_eq,
}
use wyndpy.Base.Dict.{lookup, insert, values}
use wyndpy.Core.Item.{new_item, pending_discovery, resolved}
use wyndpy.Registry.{Objects, MemoryRegistry, new_registry, get, upsert, list_pending_discovery}
use wyndpy.Registry.Laws.{upsert_all, last_with, upsert_all-list_pending_discovery}

-- Object 0 is item "a", object 1 a later item "a" that is resolved, the others are item "b".
objects : Objects
objects zero = new_item "a" "qa"
objects (suc zero) = record (new_item "a" "qa") { status = resolved }
objects (suc (suc n)) = new_item "b" "qb"

abbrev saved : MemoryRegistry
saved = upsert objects 2 (upsert objects 0 new_registry)

listed : list_pending_discovery objects saved ≡ 0 ∷ 2 ∷ []
unfolding list_pending_discovery upsert objects insert values string_eq
listed = refl

replaced : get "a" (upsert objects 1 saved) ≡ some 1
unfolding get upsert objects insert lookup string_eq
replaced = refl

-- Item "b" is resolved by the time of the listing.
abbrev now : Objects
now = λ i. record (objects i) { status = if i == 2 then resolved else (objects i).status }

upsert_all-list_pending_discovery_example :
    ((id : String)
      → get id (upsert_all objects (0 ∷ 2 ∷ 1 ∷ 0 ∷ []) new_registry)
        ≡ last_with objects id (0 ∷ 2 ∷ 1 ∷ 0 ∷ []) none)
    × ((i : ℕ)
        → (contains
              (list_pending_discovery now (upsert_all objects (0 ∷ 2 ∷ 1 ∷ 0 ∷ []) new_registry))
              i
            ≡ true)
          ↔ (((id : String) × (last_with objects id (0 ∷ 2 ∷ 1 ∷ 0 ∷ []) none ≡ some i))
              × ((now i).status ≡ pending_discovery)))
upsert_all-list_pending_discovery_example =
    upsert_all-list_pending_discovery objects now (0 ∷ 2 ∷ 1 ∷ 0 ∷ [])
