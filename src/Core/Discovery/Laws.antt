-- ===== src/Core/Discovery/Laws.antt =====
-- How loading an adapter by name relates to the names that are listed as available.
use wyndpy.Base.{
  String, ◌<>◌, List, [], ◌∷◌, Option, none, some, ◌==◌, string_eq, ◌≡◌, refl, ap, ◌∙◌, arith,
  if◌then◌else◌,
}
use wyndpy.Base.Dict.{Dict, lookup, insert, lookup-insert}
use wyndpy.Base.Reply.{ok, raised, key_error}
use wyndpy.Core.Discovery.{
  EntryPoint, group_of, targets, available_adapters, load_first, load_adapter_class,
}

module _ {ℓ} {C : Type ℓ} where
  -- The first and the last entry point of a name.
  abbrev pub first_named : String → List (EntryPoint C) → Option (EntryPoint C)
  first_named name [] = none
  first_named name (ep ∷ eps) = if ep.name == name then some ep else first_named name eps

  abbrev pub last_target : String → List (EntryPoint C) → Option String → Option String
  last_target name [] found = found
  last_target name (ep ∷ eps) found =
      last_target name eps (if name == ep.name then some ep.target else found)

module _ {ℓ} {C : Type ℓ} (entry_points : String → List (EntryPoint C)) where
  load_first-eq :
      (name : String) (eps : List (EntryPoint C))
      → load_first entry_points name eps ≡ elim (first_named name eps) [
        | none ↦ raised (key_error ("No adapter named " <> name))
        | some ep ↦ ep.load
      ]
  unfolding load_first
  load_first-eq name [] = refl
  load_first-eq name (ep ∷ eps) = ground (arith, load_first-eq name eps)

  lookup-targets :
      (name : String) (eps : List (EntryPoint C)) (d : Dict String String)
      → lookup name (targets entry_points eps d) ≡ last_target name eps (lookup name d)
  unfolding targets
  lookup-targets name [] d = refl
  lookup-targets name (ep ∷ eps) d =
      lookup-targets name eps (insert ep.name ep.target d)
      ∙ ap (last_target name eps) (lookup-insert name ep.name ep.target d)

  -- For a known role: `load_adapter_class` gives what the first entry point of the name loads, and
  -- raises `KeyError` if there is none, while `available_adapters` lists the target of the last.
  pub load_adapter_class-first_available_adapters-last :
      (role group name : String)
      → group_of role ≡ ok group
      → (load_adapter_class entry_points role name ≡ elim (first_named name (entry_points group)) [
        | none ↦ raised (key_error ("No adapter named " <> name))
        | some ep ↦ ep.load
      ])
        × ((d : Dict String String)
            → available_adapters entry_points role ≡ ok d
            → lookup name d ≡ last_target name (entry_points group) none)
  unfolding load_adapter_class available_adapters lookup
  load_adapter_class-first_available_adapters-last role group name e = (
    rw e (load_first-eq name (entry_points group)),
    λ d a.
        let same : available_adapters entry_points role
            ≡ ok (targets entry_points (entry_points group) []) =
          rw e refl in
        let listed : targets entry_points (entry_points group) [] ≡ d = cc in
        rw (← listed) (lookup-targets name (entry_points group) []),
  )
