-- ===== src/Surface/Tests.antt =====
-- Two adapters as tools: ExaSearcher's and a fetcher's, and a second one of the fetcher's name.
use native.Mathlib.Decide.{ℕ_discrete}
use wyndpy.Base.{String, List, [], ◌∷◌, none, some, string_eq, ℕ_eq, ◌≡◌, ◌≢◌, refl}
use wyndpy.Base.Dict.{lookup, insert}
use wyndpy.Base.Reply.{ok, raised, key_error}
use wyndpy.Base.Value.{no_fields, entry, int, pos, text, array, object, texts, no_items, item}
use wyndpy.Surface.Schema.{
  postponed, Parameter, Method, properties_of, required_of, first_line, schema_for,
}
use wyndpy.Surface.Schema.Described.{find_parameter, schema_for-Tells, Tells}
use wyndpy.Surface.Tools.{
  Adapter, Role, fetch_role, search_role, tool_name, new_registry, register, call,
}
use wyndpy.Surface.Tools.Latest.{role_eq, register_all, latest, call-latest}

abbrev query : Parameter
query = record { name = "query"; annotation = some (postponed "str"); default = none }

abbrev n : Parameter
n = record { name = "n"; annotation = some (postponed "int"); default = some (int (pos 5)) }

-- `async def search(self, query: str, n: int = 5)`, with a docstring of two lines, as it is bound.
abbrev search_method : Method
search_method = record { parameters = query ∷ n ∷ []; doc = some "Find pages.\nBy query." }

abbrev search_tool : Adapter Unit
search_tool = record {
  name = "exa";
  method = search_method;
  run = λ kwargs w. (ok (object kwargs), w);
}

abbrev url : Parameter
url = record { name = "url"; annotation = some (postponed "str"); default = none }

abbrev fetch_method : Method
fetch_method = record { parameters = url ∷ []; doc = none }

abbrev fetch_tool : Adapter Unit
fetch_tool = record { name = "web"; method = fetch_method; run = λ kwargs w. (ok (text "old"), w) }

abbrev other_tool : Adapter Unit
other_tool = record { name = "web"; method = fetch_method; run = λ kwargs w. (ok (text "new"), w) }

abbrev registrations : List (Role × Adapter Unit)
registrations =
    (fetch_role, fetch_tool) ∷ (search_role, search_tool) ∷ (fetch_role, other_tool) ∷ []

-- The number is described as a string: its annotation is postponed.
search_schema :
    schema_for search_method "search_via_exa" none
    ≡ entry "name" (text "search_via_exa") (
        entry "description" (text "Find pages.") (
          entry "parameters"
            (object (
              entry "type" (text "object") (
                entry "properties"
                  (object (
                    entry "query" (object (entry "type" (text "string") no_fields)) (
                      entry "n"
                        (object
                          (entry "type" (text "string") (entry "default" (int (pos 5)) no_fields)))
                        no_fields)))
                  (entry "required" (array (item (text "query") no_items)) no_fields))))
            no_fields))
unfolding schema_for properties_of required_of first_line texts string_eq ℕ_eq
search_schema = refl

-- Two different names.
n_not_self : ◌≢◌ {A = String} "n" "self"
unfolding string_eq
n_not_self e = cc

schema_for-Tells_example :
    Tells (schema_for search_method "search_via_exa" none) "n" (find_parameter "n" (query ∷ n ∷ []))
unfolding string_eq
schema_for-Tells_example =
    schema_for-Tells search_method "search_via_exa" none "n" (refl, (refl, tt)) n_not_self

-- The second adapter of one name takes the first one's place.
call_fetch :
    call "fetch_via_web" no_fields (register_all registrations new_registry) tt
    ≡ (ok (text "new"), tt)
unfolding call register_all register lookup insert tool_name string_eq
call_fetch = refl

call_parse :
    call "parse_via_exa" no_fields (register_all registrations new_registry) tt
    ≡ (raised (key_error "parse_via_exa"), tt)
unfolding call register_all register lookup insert tool_name string_eq
call_parse = refl

call-latest_example :
    call (tool_name fetch_role "web") no_fields (register_all registrations new_registry) tt
    ≡ (ok (text "new"), tt)
unfolding latest string_eq role_eq ℕ_discrete
call-latest_example = call-latest fetch_role "web" registrations no_fields tt
