-- ===== src/Router/Locks/Table.antt =====
-- The table of locks: a lock for each id, none for two.
use wyndpy.Base.{
  ℕ, suc, ◌<◌, String, [], ◌∷◌, none, some, length, ◌==◌, ==_iff, ==_refl, ℕ_eq, string_eq, ◌≡◌,
  refl, ap, inl, inr, Bool-cases, Option-cases, arith,
}
use wyndpy.Base.Dict.{Dict, lookup, insert, lookup-insert}
use wyndpy.Router.Action.{setdefault_lock}

-- Each lock in the table is below the table's length, and belongs to one id.
pub record IsTable (locks : Dict String ℕ) : Type 0 where
  pub bounded : (id : String) (l : ℕ) → lookup id locks ≡ some l → l < length locks
  pub distinct : (a b : String) (l : ℕ) → lookup a locks ≡ some l → lookup b locks ≡ some l → a ≡ b

length-insert :
    (id : String) (l : ℕ) (locks : Dict String ℕ)
    → lookup id locks ≡ none
    → length (insert id l locks) ≡ suc (length locks)
unfolding lookup insert
length-insert id l [] h = refl
length-insert id l (_ ∷ locks) h = ground (arith, length-insert id l locks)

-- The two cases of `setdefault`.
setdefault_lock_there :
    (id : String) (l : ℕ) (locks : Dict String ℕ)
    → lookup id locks ≡ some l
    → setdefault_lock id locks ≡ (l, locks)
unfolding setdefault_lock
setdefault_lock_there id l locks h = ground (arith, h)

setdefault_lock_missing :
    (id : String) (locks : Dict String ℕ)
    → lookup id locks ≡ none
    → setdefault_lock id locks ≡ (length locks, insert id (length locks) locks)
unfolding setdefault_lock
setdefault_lock_missing id locks h = ground (arith, h)

insert-IsTable :
    (id : String) (locks : Dict String ℕ)
    → lookup id locks ≡ none
    → IsTable locks
    → IsTable (insert id (length locks) locks)
insert-IsTable id locks missing h = record {
  bounded = λ a l e. ground (
    arith,
    e,
    lookup-insert a id (length locks) locks,
    length-insert id (length locks) locks missing,
    h.bounded a l,
  );
  distinct = λ a b l e f. ground (
    arith,
    e,
    f,
    lookup-insert a id (length locks) locks,
    lookup-insert b id (length locks) locks,
    h.bounded a l,
    h.bounded b l,
    h.distinct a b l,
  );
}

pub setdefault_lock-IsTable :
    (id : String) (locks : Dict String ℕ) → IsTable locks → IsTable (setdefault_lock id locks).1
setdefault_lock-IsTable id locks h = elim (Option-cases (lookup id locks)) [
  | inr (l, there) ↦ rw (setdefault_lock_there id l locks there) h
  | inl missing ↦ rw (setdefault_lock_missing id locks missing) (insert-IsTable id locks missing h)
]

pub setdefault_lock-lookup :
    (id : String) (locks : Dict String ℕ)
    → lookup id (setdefault_lock id locks).1 ≡ some (setdefault_lock id locks).0
unfolding setdefault_lock
setdefault_lock-lookup id locks = elim (Option-cases (lookup id locks)) [
  | inr (l, there) ↦ ground (arith, there)
  | inl missing ↦ ground (arith, missing, lookup-insert id id (length locks) locks, ==_refl id)
]

-- A lock that is in the table stays there.
pub setdefault_lock-kept :
    (a id : String) (l : ℕ) (locks : Dict String ℕ)
    → lookup a locks ≡ some l
    → lookup a (setdefault_lock id locks).1 ≡ some l
unfolding setdefault_lock
setdefault_lock-kept a id l locks h = elim (Option-cases (lookup id locks)) [
  | inr (m, there) ↦ ground (arith, h, there)
  | inl missing ↦ elim (Bool-cases (a == id)) [
    | inl same ↦ ground (arith, h, missing, ap (λ x. lookup x locks) ((==_iff a id).0 same))
    | inr differs ↦ ground (arith, h, missing, lookup-insert a id (length locks) locks, differs)
  ]
]
