-- ===== src/Base/Reply.antt =====
-- What a Python call gives: a value, or an exception that propagates.
use Prim.Native.Nat.{ℕ}
use Prim.Native.String.{String}
use mathlib.Core.Path.{◌≡◌, refl}
use mathlib.Core.Logic.{◌⊎◌, inl, inr}
use mathlib.Core.List.{List, [], ◌∷◌}

-- The classes of exceptions that the modelled code raises, catches or lets through, with a text.
-- `timeout_error` is a subclass of `os_error`, and `http_timeout` and `http_status`, which carries
-- the response's status, are subclasses of `http_error` in httpx; `invalid_url` is not.
pub data Exception : Type 0 where
  value_error type_error key_error attribute_error os_error timeout_error : String → Exception
  http_timeout http_error invalid_url : String → Exception
  http_status : ℕ → String → Exception
  policy_error search_failed file_not_found yaml_error other : String → Exception

-- `str(exc)`
abbrev pub message_of : Exception → String
message_of (value_error s) = s
message_of (type_error s) = s
message_of (key_error s) = s
message_of (attribute_error s) = s
message_of (os_error s) = s
message_of (timeout_error s) = s
message_of (http_timeout s) = s
message_of (http_error s) = s
message_of (invalid_url s) = s
message_of (http_status _ s) = s
message_of (policy_error s) = s
message_of (search_failed s) = s
message_of (file_not_found s) = s
message_of (yaml_error s) = s
message_of (other s) = s

pub data Reply {ℓ} (A : Type ℓ) : Type ℓ where
  ok : A → Reply A
  raised : Exception → Reply A

infixl 5 ◌>>=◌
abbrev pub ◌>>=◌ {ℓ κ} : {A : Type ℓ} {B : Type κ} → Reply A → (A → Reply B) → Reply B
ok a >>= f = f a
raised e >>= f = raised e

-- `[f(x) for x in xs]`: the first exception ends the comprehension.
unfoldable pub traverse {ℓ κ} : {A : Type ℓ} {B : Type κ} → (A → Reply B) → List A → Reply (List B)
traverse f [] = ok []
traverse f (x ∷ xs) = do y ← f x; ys ← traverse f xs; ok (y ∷ ys)

-- A split that keeps the equation.
pub Reply-cases {ℓ} :
    {A : Type ℓ} → (x : Reply A) → ((a : A) × (x ≡ ok a)) ⊎ ((e : Exception) × (x ≡ raised e))
Reply-cases (ok a) = inl (a, refl)
Reply-cases (raised e) = inr (e, refl)

-- What a chain that gives a value has gone through.
pub bind-ok {ℓ κ} :
    {A : Type ℓ} {B : Type κ} (x : Reply A) (f : A → Reply B) (b : B)
    → (x >>= f) ≡ ok b
    → (a : A) × (x ≡ ok a) × (f a ≡ ok b)
bind-ok (ok a) f b h = (a, refl, h)
bind-ok (raised e) f b h = cc

pub ok_injective {ℓ} : {A : Type ℓ} {x y : A} → ◌≡◌ {A = Reply A} (ok x) (ok y) → x ≡ y
ok_injective h = cc
