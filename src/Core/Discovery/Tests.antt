-- ===== src/Core/Discovery/Tests.antt =====
-- Discovery on two packages that register one name, and the theorem at that input.
use wyndpy.Base.{String, List, [], ◌∷◌, some, ◌≡◌, refl, string_eq}
use wyndpy.Base.Dict.{Dict, lookup, insert}
use wyndpy.Base.Reply.{ok, raised, key_error}
use wyndpy.Core.Discovery.{
  EntryPoint, group_of, targets, available_adapters, load_first, load_adapter_class,
}
use wyndpy.Core.Discovery.Laws.{load_adapter_class-first_available_adapters-last}

abbrev named : String → String → EntryPoint String
named name target = record { name = name; target = target; load = ok target }

-- `importlib.metadata.entry_points`
abbrev installed : String → List (EntryPoint String)
installed group =
    named "httpx" "a:Httpx" ∷ named "firecrawl" "a:Firecrawl" ∷ named "httpx" "b:Other" ∷ []

loaded : load_adapter_class installed "fetch" "httpx" ≡ ok "a:Httpx"
unfolding load_adapter_class load_first group_of lookup string_eq
loaded = refl

listed :
    available_adapters installed "fetch"
    ≡ ok (("httpx", "b:Other") ∷ ("firecrawl", "a:Firecrawl") ∷ [])
unfolding available_adapters targets group_of lookup insert string_eq
listed = refl

unknown_role : load_adapter_class installed "trust" "httpx" ≡ raised (key_error "trust")
unfolding load_adapter_class group_of lookup string_eq
unknown_role = refl

load_adapter_class-first_available_adapters-last_example :
    (load_adapter_class installed "fetch" "httpx" ≡ ok "a:Httpx")
    × ((d : Dict String String)
        → available_adapters installed "fetch" ≡ ok d
        → lookup "httpx" d ≡ some "b:Other")
unfolding group_of lookup string_eq
load_adapter_class-first_available_adapters-last_example =
    load_adapter_class-first_available_adapters-last installed "fetch" "wyndpy.fetch" "httpx" refl
