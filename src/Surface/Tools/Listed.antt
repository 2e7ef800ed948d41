-- ===== src/Surface/Tools/Listed.antt =====
-- The schemas of a registry, each of a tool that can be called.
use wyndpy.Base.{
  String, List, [], ◌∷◌, none, some, string_eq, ◌==◌, ◌≡◌, refl, ap, sym, ◌∙◌, arith, inl, inr,
  Bool-cases, Option-cases, All,
}
use wyndpy.Base.Dict.{lookup, insert, values, NodupKeys, insert-NodupKeys, entries-lookup}
use wyndpy.Base.Value.{Fields}
use wyndpy.Surface.Schema.{schema_for}
use wyndpy.Surface.Tools.{Handler, Adapter, Tools, Role, tool_name, new_registry, register, schemas}
use wyndpy.Surface.Tools.Latest.{role_eq, register_all, latest, tool_of, register_all-Holds}

module _ {W : Type 0} where
  -- The key is the name of a tool.
  abbrev IsNamed : String × (Fields × Handler W) → Type 0
  IsNamed e = (role : Role) × ((name : String) × (e.0 ≡ tool_name role name))

  -- A dictionary with each key once, all of them names of tools.
  record IsTools (tools : Tools W) : Type 0 where
    nodup : NodupKeys tools
    named : All IsNamed tools

  insert-IsNamed :
      (role : Role) (name : String) (t : Fields × Handler W) (tools : Tools W)
      → All IsNamed tools
      → All IsNamed (insert (tool_name role name) t tools)
  unfolding insert
  insert-IsNamed role name t [] h = ((role, (name, refl)), tt)
  insert-IsNamed role name t ((k, v) ∷ tools) (n, h) =
      elim (Bool-cases (tool_name role name == k)) [
        | inl same ↦ rw same (n, h)
        | inr differs ↦ rw differs (n, insert-IsNamed role name t tools h)
      ]

  register_all-IsTools :
      (regs : List (Role × Adapter W)) (tools : Tools W)
      → IsTools tools
      → IsTools (register_all regs tools)
  unfolding register_all register
  register_all-IsTools [] tools h = h
  register_all-IsTools ((role, a) ∷ rest) tools h =
      register_all-IsTools rest (register role a tools) (record {
        nodup = insert-NodupKeys (tool_name role a.name) (tool_of role a) tools h.nodup;
        named = insert-IsNamed role a.name (tool_of role a) tools h.named;
      })

  -- The schema of the last adapter that was registered for some role and name.
  abbrev pub IsLatest : List (Role × Adapter W) → Fields → Type 0
  IsLatest regs schema =
      (role : Role) × ((name : String) × ((a : Adapter W) × ((latest role name regs none ≡ some a)
            × (schema ≡ schema_for a.method (tool_name role a.name) none))))

  entry-IsLatest :
      (regs : List (Role × Adapter W)) (k : String) (t : Fields × Handler W)
      → IsNamed (k, t)
      → lookup k (register_all regs new_registry) ≡ some t
      → IsLatest regs t.0
  unfolding lookup
  entry-IsLatest regs k t (role, (name, named)) found =
      let h = register_all-Holds role name regs none new_registry refl in
      let g = sym h ∙ ap (λ x. lookup x (register_all regs new_registry)) (sym named) ∙ found in
      elim (Option-cases (latest role name regs none)) [
        | inl missing ↦ absurd (ground (arith, g, missing))
        | inr (a, there) ↦ (role, (name, (a, (there, ground (arith, g, there)))))
      ]

  entries-IsLatest :
      (regs : List (Role × Adapter W)) (d : Tools W)
      → All IsNamed d
      → All (λ e. lookup e.0 (register_all regs new_registry) ≡ some e.1) d
      → All (IsLatest regs) (schemas d)
  unfolding schemas values
  entries-IsLatest regs [] n h = tt
  entries-IsLatest regs ((k, t) ∷ d) (named, n) (found, h) =
      (entry-IsLatest regs k t named found, entries-IsLatest regs d n h)

  -- Every schema that a registry gives, after any registrations, is the schema of the last adapter
  -- that was registered for some role and name.
  pub schemas-All-IsLatest :
      (regs : List (Role × Adapter W))
      → All (IsLatest regs) (schemas (register_all regs new_registry))
  schemas-All-IsLatest regs =
      let h = register_all-IsTools regs new_registry (record { nodup = tt; named = tt }) in
      entries-IsLatest regs (register_all regs new_registry) h.named
        (entries-lookup (register_all regs new_registry) h.nodup)
