-- ===== src/Factory/Build/Parts.antt =====
-- The parts of a router that `build_router` takes from its caller or makes from the policy.
use wyndpy.Base.{
  true, ◌==◌, ==_iff, sym, Bool-cases, Option-cases, String, List, [], ◌∷◌, Bool, Option, none,
  some, string_eq, ◌≡◌, ◌⊎◌, refl, ap, subst, inl, inr, arith,
}
use wyndpy.Base.Dict.{lookup}
use wyndpy.Base.Value.{Value, truthy}
use wyndpy.Base.Url.{UrlParser}
use wyndpy.Core.Protocols.{TrustStrategy, Registry}
use wyndpy.Registry.Postgres.{postgres_registry}
use wyndpy.Trust.{allowlist_trust}
use wyndpy.Base.Reply.{policy_error, raised, Reply, ok, traverse, bind-ok, ok_injective}
use wyndpy.Policy.{Policy}
use wyndpy.Factory.Construct.{Kwargs, Credentials, kwargs_for}
use wyndpy.Factory.Construct.Checked.{HasCredentials, kwargs_for-HasCredentials}
use wyndpy.Factory.Build.{names_for, given_or, build_trust, build_registry, build_postgres}

-- Adapters that are made one by one, in the order of their names.
pub data AreMade {A : Type 0} (P : String → A → Type 0) : List String → List A → Type 0 where
  no_names : AreMade P [] []
  made_one :
      {name : String} {a : A} {names : List String} {made : List A}
      → P name a
      → AreMade P names made
      → AreMade P (name ∷ names) (a ∷ made)

traverse-AreMade :
    {A : Type 0} (P : String → A → Type 0) (f : String → Reply A)
    → ((name : String) (a : A) → f name ≡ ok a → P name a)
    → (names : List String) (made : List A) → traverse f names ≡ ok made
    → AreMade P names made
unfolding traverse
traverse-AreMade P f makes [] [] h = no_names
traverse-AreMade P f makes [] (_ ∷ _) h = cc
traverse-AreMade P f makes (name ∷ names) made h =
    let (a, first, h1) = bind-ok (f name) _ made h in
    let (rest, others, h2) = bind-ok (traverse f names) _ made h1 in
    let same : a ∷ rest ≡ made = cc in
    subst (AreMade P (name ∷ names)) same
      (made_one (makes name a first) (traverse-AreMade P f makes names rest others))

-- The names that a policy has for a role, or none.
pub data HasNames (role : String) (policy : Policy) : List String → Type 0 where
  listed :
      (names : List String) → lookup role policy.roles ≡ some names → HasNames role policy names
  unlisted : lookup role policy.roles ≡ none → HasNames role policy []

names_for-HasNames :
    (role : String) (policy : Policy) → HasNames role policy (names_for role policy)
names_for-HasNames role policy = go (lookup role policy.roles) refl
  where
    go :
        (o : Option (List String))
        → lookup role policy.roles ≡ o
        → HasNames role policy (elim o [ none ↦ [] | some names ↦ names ])
    go none h = unlisted h
    go (some names) h = listed names h

-- What a caller gives is taken; what is not given is made for each name of the role, in order.
abbrev pub GivenOr :
    {A : Type 0} → (String → A → Type 0) → Option (List A) → String → Policy → List A → Type 0
GivenOr P given role policy made =
    (given ≡ some made)
    ⊎ ((given ≡ none) × (names : List String) × HasNames role policy names × AreMade P names made)

pub given_or-GivenOr :
    {A : Type 0} (P : String → A → Type 0) (f : String → Reply A)
    → ((name : String) (a : A) → f name ≡ ok a → P name a)
    → (given : Option (List A)) (role : String) (policy : Policy) (made : List A)
    → given_or given (traverse f (names_for role policy)) ≡ ok made
    → GivenOr P given role policy made
unfolding given_or
given_or-GivenOr P f makes none role policy made h = inr (
  refl,
  names_for role policy,
  names_for-HasNames role policy,
  traverse-AreMade P f makes (names_for role policy) made h,
)
given_or-GivenOr P f makes (some given) role policy made h = inl (ground (arith, h))

pub given_or-cases :
    {A : Type 0} (given : Option A) (build : Reply A) (made : A)
    → given_or given build ≡ ok made
    → (given ≡ some made) ⊎ ((given ≡ none) × (build ≡ ok made))
unfolding given_or
given_or-cases none build made h = inr (refl, h)
given_or-cases (some a) build made h = inl (ap some (ok_injective h))

module _ {W : Type 0} where
  -- The allowlist of the policy, which is the one strategy that there is.
  pub record IsAllowlist (urlparse : UrlParser) (policy : Policy) (trust : TrustStrategy W)
      : Type 0 where
    pub strategy : policy.trust_strategy ≡ "allowlist"
    pub patterns : trust ≡ allowlist_trust urlparse policy.trust_allow

  -- The registry of the policy's backend.
  pub data IsBackend (in_memory : Registry W) (policy : Policy) (credentials : Credentials)
      (allow_stubs : Bool) (registry : Registry W) : Type 0 where
    memory :
        policy.registry_backend ≡ "memory"
        → registry ≡ in_memory
        → IsBackend in_memory policy credentials allow_stubs registry
    postgres :
        (own : Kwargs) (dsn : Value)
        → policy.registry_backend ≡ "postgres"
        → allow_stubs ≡ true
        → HasCredentials "postgres" credentials own
        → lookup "dsn" own ≡ some dsn
        → truthy dsn ≡ true
        → registry ≡ postgres_registry dsn
        → IsBackend in_memory policy credentials allow_stubs registry

  pub build_trust-IsAllowlist :
      (urlparse : UrlParser) (policy : Policy) (trust : TrustStrategy W)
      → build_trust urlparse policy ≡ ok trust
      → IsAllowlist urlparse policy trust
  unfolding build_trust
  build_trust-IsAllowlist urlparse policy trust h =
      elim (Bool-cases (policy.trust_strategy == "allowlist")) [
        | inr other ↦ ground (arith, h, other)
        | inl same ↦ record {
          strategy = (==_iff policy.trust_strategy "allowlist").0 same;
          patterns = sym (ok_injective (rw same at h));
        }
      ]

  build_postgres-IsBackend :
      (in_memory : Registry W) (policy : Policy) (credentials : Credentials) (allow_stubs : Bool)
      (registry : Registry W)
      → policy.registry_backend ≡ "postgres"
      → allow_stubs ≡ true
      → build_postgres credentials ≡ ok registry
      → IsBackend in_memory policy credentials allow_stubs registry
  unfolding build_postgres
  build_postgres-IsBackend in_memory policy credentials allow_stubs registry backend stubs h =
      elim (Option-cases (lookup "dsn" (kwargs_for "postgres" credentials))) [
        | inl missing ↦ absurd (no_dsn (rw (build_postgres, missing) at h))
        | inr (dsn, there) ↦ elim (Bool-cases (truthy dsn)) [
          | inr empty ↦ absurd (no_dsn (rw (build_postgres, there, empty) at h))
          | inl full ↦
              postgres (kwargs_for "postgres" credentials) dsn backend stubs
                (kwargs_for-HasCredentials "postgres" credentials) there full
                (sym (ok_injective (rw (build_postgres, there, full) at h)))
        ]
      ]
    where
      no_dsn :
          {s : String} → ¬ (◌≡◌ {A = Reply (Registry W)} (raised (policy_error s)) (ok registry))
      no_dsn h = cc

  pub build_registry-IsBackend :
      (in_memory : Registry W) (policy : Policy) (credentials : Credentials) (allow_stubs : Bool)
      (registry : Registry W)
      → build_registry in_memory policy credentials allow_stubs ≡ ok registry
      → IsBackend in_memory policy credentials allow_stubs registry
  unfolding build_registry
  build_registry-IsBackend in_memory policy credentials allow_stubs registry h =
      elim (Bool-cases (policy.registry_backend == "memory")) [
        | inl same ↦
            memory ((==_iff policy.registry_backend "memory").0 same)
              (sym (ok_injective (rw same at h)))
        | inr other ↦ elim (Bool-cases (policy.registry_backend == "postgres")) [
          | inr third ↦ ground (arith, h, other, third)
          | inl same ↦
              build_postgres-IsBackend in_memory policy credentials allow_stubs registry
                ((==_iff policy.registry_backend "postgres").0 same)
                (ground (arith, h, other, same)) (ground (arith, h, other, same))
        ]
      ]
