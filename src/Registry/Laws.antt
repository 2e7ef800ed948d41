-- ===== src/Registry/Laws.antt =====
-- What the in-memory registry answers after updates, and which items it lists for discovery.
use wyndpy.Base.{
  ℕ, String, List, [], ◌∷◌, true, Option, none, some, contains, ◌==◌, ==_iff, ==_refl, string_eq,
  ℕ_eq, ◌≡◌, ◌↔◌, refl, sym, ap, ◌∙◌, inl, inr, Bool-cases, arith, if◌then◌else◌,
}
use wyndpy.Base.Dict.{Dict, lookup, values, lookup-insert, NodupKeys, insert-NodupKeys}
use wyndpy.Core.Item.{pending_discovery}
use wyndpy.Registry.{
  Objects, MemoryRegistry, new_registry, get, upsert, pending, list_pending_discovery,
}

-- The updates of a run, in order.
unfoldable pub upsert_all : Objects → List ℕ → MemoryRegistry → MemoryRegistry
upsert_all objects [] reg = reg
upsert_all objects (i ∷ items) reg = upsert_all objects items (upsert objects i reg)

-- The last item with the id, or what was there before.
abbrev pub last_with : Objects → String → List ℕ → Option ℕ → Option ℕ
last_with objects id [] before = before
last_with objects id (i ∷ items) before =
    last_with objects id items (if id == (objects i).id then some i else before)

-- After any updates an id gives the item that was saved last under it, and an id under which
-- nothing was saved gives what it gave before.
get-upsert_all :
    (objects : Objects) (id : String) (items : List ℕ) (reg : MemoryRegistry)
    → get id (upsert_all objects items reg) ≡ last_with objects id items (get id reg)
unfolding get upsert upsert_all
get-upsert_all objects id [] reg = refl
get-upsert_all objects id (i ∷ items) reg =
    rw (get-upsert_all objects id items (upsert objects i reg))
      (rw (lookup-insert id (objects i).id i reg.items) refl)

saved_last :
    (objects : Objects) (id : String) (items : List ℕ)
    → get id (upsert_all objects items new_registry) ≡ last_with objects id items none
unfolding get lookup
saved_last objects id items = get-upsert_all objects id items new_registry

-- A dictionary has each key once.
abbrev IsKeyed : MemoryRegistry → Type 0
IsKeyed reg = NodupKeys reg.items

upsert-IsKeyed :
    (objects : Objects) (i : ℕ) (reg : MemoryRegistry)
    → IsKeyed reg
    → IsKeyed (upsert objects i reg)
unfolding upsert
upsert-IsKeyed objects i reg h = insert-NodupKeys (objects i).id i reg.items h

key_of :
    (i : ℕ) (d : Dict String ℕ)
    → NodupKeys d
    → contains (values d) i ≡ true
    → (k : String) × (lookup k d ≡ some i)
unfolding values lookup
key_of i [] h m = cc
key_of i ((k, j) ∷ d) (fresh, h) m = elim (Bool-cases (i == j)) [
  | inl same ↦ (k, rw (==_refl k) (ground arith))
  | inr other ↦ let (k', found) = key_of i d h (ground arith) in (k', ground arith)
]

value_of :
    (k : String) (i : ℕ) (d : Dict String ℕ) → lookup k d ≡ some i → contains (values d) i ≡ true
unfolding values lookup
value_of k i [] e = cc
value_of k i (_ ∷ d) e = ground (arith, value_of k i d)

contains-pending :
    (objects : Objects) (i : ℕ) (items : List ℕ)
    → (contains (pending objects items) i ≡ true)
      ↔ ((contains items i ≡ true) × ((objects i).status ≡ pending_discovery))
unfolding pending
contains-pending objects i [] = ground arith
contains-pending objects i (j ∷ items) = elim (Bool-cases (i == j)) [
  | inl same ↦
      let e = (==_iff i j).0 same in
      ground (arith, contains-pending objects i items, e, ap (λ k. (objects k).status) e)
  | inr other ↦ ground (arith, contains-pending objects i items)
]

-- The listing holds an item exactly if it is registered under some id and its status is
-- pending_discovery when the listing is made.
list_pending_discovery_iff :
    (objects : Objects) (reg : MemoryRegistry) (i : ℕ)
    → IsKeyed reg
    → (contains (list_pending_discovery objects reg) i ≡ true)
      ↔ (((k : String) × (get k reg ≡ some i)) × ((objects i).status ≡ pending_discovery))
unfolding list_pending_discovery get
list_pending_discovery_iff objects reg i h =
    let (to, from) = contains-pending objects i (values reg.items) in
    (
      λ m. (key_of i reg.items h (to m).0, (to m).1),
      λ p. from (value_of p.0.0 i reg.items p.0.1, p.1),
    )

upsert_all-IsKeyed :
    (objects : Objects) (items : List ℕ) (reg : MemoryRegistry)
    → IsKeyed reg
    → IsKeyed (upsert_all objects items reg)
unfolding upsert_all
upsert_all-IsKeyed objects [] reg h = h
upsert_all-IsKeyed objects (i ∷ items) reg h =
    upsert_all-IsKeyed objects items (upsert objects i reg) (upsert-IsKeyed objects i reg h)

-- After any series of upserts into a new registry, `get` of an id gives the item saved last among
-- those that carried this id when they were saved, and a listing that is made at any time after
-- holds an item exactly if `get` gives it under some id and its status is then pending_discovery.
pub upsert_all-list_pending_discovery :
    (objects now : Objects) (items : List ℕ)
    → ((id : String)
        → get id (upsert_all objects items new_registry) ≡ last_with objects id items none)
      × ((i : ℕ)
          → (contains (list_pending_discovery now (upsert_all objects items new_registry)) i ≡ true)
            ↔ (((id : String) × (last_with objects id items none ≡ some i))
                × ((now i).status ≡ pending_discovery)))
upsert_all-list_pending_discovery objects now items =
    let reg = upsert_all objects items new_registry in
    let gets : (id : String) → get id reg ≡ last_with objects id items none =
      λ id. saved_last objects id items in
    (
      gets,
      λ i.
          let (to, from) =
            list_pending_discovery_iff now reg i
              (upsert_all-IsKeyed objects items new_registry tt) in
          (
            λ m. let ((id, found), status) = to m in ((id, sym (gets id) ∙ found), status),
            λ p. from ((p.0.0, gets p.0.0 ∙ p.0.1), p.1),
          ),
    )
