-- ===== src/Surface/Tools/Latest.antt =====
-- A tool is the last one that was registered for its role and its adapter's name.
use Prim.Native.Char.{code}
use text.Mathlib.TextLemmas.{append_cancel_left, cons-append}
use mathlib.Core.Logic.{dite}
use mathlib.Core.Option
use native.Mathlib.Decide.{ℕ_discrete}
use wyndpy.Base.{
  ℕ, Eq, ℕ_eq, inl, inr, String, List, [], ◌∷◌, ◌&&◌, Option, none, some, string_eq, ◌==◌, ◌≡◌,
  refl, sym, ap, ◌∙◌, arith, if◌then◌else◌, Option-cases,
}
use wyndpy.Base.Dict.{lookup, lookup-insert}
use wyndpy.Base.Reply.{raised, key_error}
use wyndpy.Base.Value.{Fields}
use wyndpy.Surface.Schema.{schema_for}
use wyndpy.Surface.Tools.{
  Handler, Adapter, Tools, Role, fetch_role, search_role, parse_role, prefix, tool_name,
  new_registry, register, call,
}

head : String → ℕ
head String.[] = 0
head (String.◌∷◌ c s) = code c

abbrev pub initial : Role → ℕ
initial fetch_role = 102
initial search_role = 115
initial parse_role = 112

head-tool_name : (r : Role) (a : String) → head (tool_name r a) ≡ initial r
unfolding tool_name head
head-tool_name fetch_role a = ap head (cons-append "f" "etch_via_" a)
head-tool_name search_role a = ap head (cons-append "s" "earch_via_" a)
head-tool_name parse_role a = ap head (cons-append "p" "arse_via_" a)

-- The role, from its initial.
role_of : ℕ → Role
unfolding ℕ_eq
role_of n = if n == 102 then fetch_role else if n == 115 then search_role else parse_role

role_of-initial : (r : Role) → role_of (initial r) ≡ r
unfolding role_of ℕ_eq
role_of-initial fetch_role = refl
role_of-initial search_role = refl
role_of-initial parse_role = refl

pub initial_injective : (r q : Role) → initial r ≡ initial q → r ≡ q
initial_injective r q h = sym (role_of-initial r) ∙ ap role_of h ∙ role_of-initial q

instance unfoldable pub role_eq : Eq Role
role_eq = record {
  dec = λ r q.
      dite (ℕ_discrete (initial r) (initial q)) (λ same. yes (initial_injective r q same))
        (λ differ. no (λ e. differ (ap initial e)));
}

-- A tool's name tells its role and its adapter.
tool_name_injective :
    (r q : Role) (a b : String) → tool_name r a ≡ tool_name q b → (r ≡ q) × (a ≡ b)
unfolding tool_name
tool_name_injective r q a b h =
    let same : r ≡ q =
      initial_injective r q (sym (head-tool_name r a) ∙ ap head h ∙ head-tool_name q b) in
    (same, append_cancel_left (prefix r) a b (h ∙ ap (λ x. tool_name x b) (sym same)))

tool_name_eq : (r q : Role) (a b : String) → (tool_name r a == tool_name q b) ≡ (r == q && a == b)
tool_name_eq r q a b = ground (
  arith,
  tool_name_injective r q a b,
  λ (e : r ≡ q). ap (λ x. tool_name x a) e,
  λ (e : a ≡ b). ap (tool_name q) e,
)

module _ {W : Type 0} where
  -- Registrations, one after the other.
  unfoldable pub register_all : List (Role × Adapter W) → Tools W → Tools W
  register_all [] tools = tools
  register_all ((role, a) ∷ rest) tools = register_all rest (register role a tools)

  -- The last adapter that was registered for a role under a name, or else `before`.
  unfoldable pub latest :
      Role → String → List (Role × Adapter W) → Option (Adapter W) → Option (Adapter W)
  latest role name [] before = before
  latest role name ((q, a) ∷ rest) before =
      let next = if role == q && name == a.name then some a else before in
      latest role name rest next

  -- The entry of an adapter that is registered for a role.
  abbrev pub tool_of : Role → Adapter W → Fields × Handler W
  tool_of role a = (schema_for a.method (tool_name role a.name) none, a.run)

  -- A dictionary has the entry of an adapter, if there is one.
  abbrev pub Holds : Role → String → Option (Adapter W) → Tools W → Type 0
  Holds role name o tools = lookup (tool_name role name) tools ≡ Option.map (tool_of role) o

  register-Holds :
      (role q : Role) (name : String) (a : Adapter W) (o : Option (Adapter W)) (tools : Tools W)
      → Holds role name o tools
      → Holds role name (if role == q && name == a.name then some a else o) (register q a tools)
  unfolding register
  register-Holds role q name a o tools h =
      let found = lookup-insert (tool_name role name) (tool_name q a.name) (tool_of q a) tools in
      ground (arith, h, found, tool_name_eq role q name a.name)

  pub register_all-Holds :
      (role : Role) (name : String) (regs : List (Role × Adapter W)) (o : Option (Adapter W))
      (tools : Tools W)
      → Holds role name o tools
      → Holds role name (latest role name regs o) (register_all regs tools)
  unfolding register_all latest
  register_all-Holds role name [] o tools h = h
  register_all-Holds role name ((q, a) ∷ rest) o tools h =
      register_all-Holds role name rest (if role == q && name == a.name then some a else o)
        (register q a tools) (register-Holds role q name a o tools h)

  -- Of the adapters that were registered, a call by a role and a name runs the last one that has
  -- both, and fails if there is none.
  pub call-latest :
      (role : Role) (name : String) (regs : List (Role × Adapter W)) (kwargs : Fields) (w : W)
      → call (tool_name role name) kwargs (register_all regs new_registry) w
        ≡ elim (latest role name regs none) [
          | none ↦ (raised (key_error (tool_name role name)), w)
          | some a ↦ a.run kwargs w
        ]
  unfolding call lookup
  call-latest role name regs kwargs w =
      let h = register_all-Holds role name regs none new_registry refl in
      elim (Option-cases (latest role name regs none)) [
        | inl missing ↦ ground (arith, h, missing)
        | inr (a, there) ↦ ground (arith, h, there)
      ]
