-- ===== src/Base/Dict.antt =====
-- Python's `dict` in insertion order. Proofs elsewhere go by the laws; tests unfold the operations.
use wyndpy.Base.Equality.{Eq, ◌==◌, Bool-cases, ==_refl, contains, if◌then◌else◌}
use wyndpy.Base.Lists.{All, All-mono}
use mathlib.Core.Path.{◌≡◌, refl, ap, subst}
use mathlib.Core.Logic.{◌≢◌, ◌↔◌, inl, inr}
use mathlib.Core.Bool.{true, ◌||◌}
use mathlib.Core.Option.{Option, none, some}
use mathlib.Core.List.{List, [], ◌∷◌}
use native.Mathlib.Omega.{arith}

abbrev pub Dict {ℓ κ} : Type ℓ → Type κ → Type (ℓ ⊔ κ)
Dict K V = List (K × V)

module _ {ℓ κ} {K : Type ℓ} {V : Type κ} where
  unfoldable pub keys : Dict K V → List K
  keys [] = []
  keys ((k, _) ∷ d) = k ∷ keys d

  unfoldable pub values : Dict K V → List V
  values [] = []
  values ((_, v) ∷ d) = v ∷ values d

module _ {ℓ κ} {K : Type ℓ} {V : Type κ} ⦃e : Eq K⦄ where
  -- `d.get(k)`
  unfoldable pub lookup : K → Dict K V → Option V
  lookup k [] = none
  lookup k ((j, v) ∷ d) = if k == j then some v else lookup k d

  -- `d[k] = v`: a key that is there keeps its place.
  unfoldable pub insert : K → V → Dict K V → Dict K V
  insert k v [] = (k, v) ∷ []
  insert k v ((j, w) ∷ d) = if k == j then (j, v) ∷ d else (j, w) ∷ insert k v d

  pub lookup-insert :
      (j k : K) (v : V) (d : Dict K V)
      → lookup j (insert k v d) ≡ (if j == k then some v else lookup j d)
  unfolding insert lookup
  lookup-insert j k v [] = refl
  lookup-insert j k v (_ ∷ d) = ground (arith, lookup-insert j k v d)

  pub contains-keys : (d : Dict K V) (k : K) → (contains (keys d) k ≡ true) ↔ (lookup k d ≢ none)
  unfolding keys lookup
  contains-keys [] k = (λ h. cc, λ h. absurd (h refl))
  contains-keys (_ ∷ d) k = ground (arith, contains-keys d k)

  pub contains-keys-insert :
      (d : Dict K V) (k j : K) (v : V)
      → contains (keys (insert k v d)) j ≡ (j == k || contains (keys d) j)
  unfolding insert keys
  contains-keys-insert [] k j v = refl
  contains-keys-insert (_ ∷ d) k j v = ground (arith, contains-keys-insert d k j v)

  -- Each key once, as in every Python dictionary.
  abbrev pub NodupKeys : Dict K V → Type κ
  NodupKeys [] = Unit
  NodupKeys ((k, _) ∷ d) = (lookup k d ≡ none) × NodupKeys d

  pub insert-NodupKeys : (k : K) (v : V) (d : Dict K V) → NodupKeys d → NodupKeys (insert k v d)
  unfolding insert lookup
  insert-NodupKeys k v [] h = (refl, tt)
  insert-NodupKeys k v ((j, w) ∷ d) (fresh, h) =
      ground (arith, insert-NodupKeys k v d h, lookup-insert j k v d)

  -- The entries are what the keys are looked up to.
  pub entries-lookup : (d : Dict K V) → NodupKeys d → All (λ e. lookup e.0 d ≡ some e.1) d
  unfolding lookup
  entries-lookup [] h = tt
  entries-lookup ((k, v) ∷ d) (fresh, h) = (
    ground (arith, ==_refl k),
    All-mono {P = λ e. lookup e.0 d ≡ some e.1}
        {Q = λ e. (if e.0 == k then some v else lookup e.0 d) ≡ some e.1}
        (λ e found. ground (arith, fresh, found, λ (same : e.0 ≡ k). ap (λ x. lookup x d) same)) d
        (entries-lookup d h),
  )

-- Whatever is found in a dictionary has the property.
abbrev pub AllFound {ℓ κ μ} :
    {K : Type ℓ} {V : Type κ} ⦃e : Eq K⦄ → (V → Type μ) → Dict K V → Type (ℓ ⊔ κ ⊔ μ)
AllFound {K = K} {V = V} P d = (k : K) (v : V) → lookup k d ≡ some v → P v

module _ {ℓ κ μ} {K : Type ℓ} {V : Type κ} ⦃e : Eq K⦄ (P : V → Type μ) where
  pub nil-AllFound : AllFound {K = K} P []
  unfolding lookup
  nil-AllFound k v h = cc

  pub insert-AllFound :
      (k : K) (v : V) (d : Dict K V) → P v → AllFound P d → AllFound P (insert k v d)
  insert-AllFound k v d p h j w found = elim (Bool-cases (j == k)) [
    | inl same ↦
        let is_v : v ≡ w = ground (arith, found, lookup-insert j k v d, same) in subst P is_v p
    | inr other ↦ h j w (ground (arith, found, lookup-insert j k v d, other))
  ]
