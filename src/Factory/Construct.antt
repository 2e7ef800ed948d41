-- ===== src/Factory/Construct.antt =====
-- wyndpy/factory.py, `_construct`: one adapter from its name, its credentials and the allowlist.
pub mod Checked
use wyndpy.Base.{
  String, ◌<>◌, List, [], ◌∷◌, Bool, true, false, not, ◌&&◌, ◌||◌, Option, none, some, ◌==◌,
  string_eq, if◌then◌else◌,
}
use wyndpy.Base.Dict.{Dict, lookup, insert}
use wyndpy.Base.Reply.{Exception, type_error, policy_error, Reply, ok, raised, ◌>>=◌}
use wyndpy.Base.Value.{Value, array, truthy, texts}
use wyndpy.Core.Discovery.{EntryPoint, load_adapter_class}
use wyndpy.Factory.Allow.{normalize_allow}

abbrev pub Kwargs : Type 0
Kwargs = Dict String Value

abbrev pub Credentials : Type 0
Credentials = Dict String Kwargs

-- An adapter class: its attribute `implemented`, if it has one, its name in messages, and what its
-- constructor gives.
pub record AdapterClass (A : Type 0) : Type 0 where
  pub implemented : Option Bool
  pub qualname : String
  pub init : Kwargs → Reply A

-- `getattr(cls, "implemented", True)`
abbrev pub is_implemented : Option Bool → Bool
is_implemented none = true
is_implemented (some b) = b

-- `credentials.get(name, {})`
abbrev pub kwargs_for : String → Credentials → Kwargs
kwargs_for name credentials = elim (lookup name credentials) [ none ↦ [] | some kwargs ↦ kwargs ]

-- `key in kwargs`
abbrev pub has_key : String → Kwargs → Bool
has_key key kwargs = elim (lookup key kwargs) [ none ↦ false | some _ ↦ true ]

-- `kwargs.get(key)`, as a test.
abbrev pub is_set : String → Kwargs → Bool
is_set key kwargs = elim (lookup key kwargs) [ none ↦ false | some v ↦ truthy v ]

-- `trust_allow or []`
abbrev pub or_nothing : Option (List String) → List String
or_nothing none = []
or_nothing (some domains) = domains

-- `kwargs[key] = _normalize_allow(...)`, unless the key is there.
unfoldable pub with_allow : String → Option (List String) → Kwargs → Kwargs
with_allow key trust_allow kwargs =
    if has_key key kwargs
    then kwargs
    else insert key (array (texts (normalize_allow (or_nothing trust_allow)))) kwargs

abbrev pub takes_allowlist : String → String → Bool
takes_allowlist role name = role == "fetch" && (name == "httpx" || name == "firecrawl")

-- The arguments of a fetcher, refused for httpx without an allowlist.
unfoldable pub fetch_kwargs : String → String → Option (List String) → Kwargs → Reply Kwargs
fetch_kwargs role name trust_allow kwargs =
    if not (takes_allowlist role name)
    then ok kwargs
    else let filled = with_allow "allowlist_domains" trust_allow kwargs in
      if name == "httpx" && not (is_set "allowlist_domains" filled)
      then raised (policy_error "httpx fetcher requires a non-empty allowlist.")
      else ok filled

unfoldable pub search_kwargs : String → String → Option (List String) → Kwargs → Kwargs
search_kwargs role name trust_allow kwargs =
    if role == "search" && name == "exa"
    then with_allow "domain_allowlist" trust_allow kwargs
    else kwargs

-- `except TypeError as exc: raise PolicyError(...) from exc`
unfoldable pub refuse_type_error : {A : Type 0} → String → Reply A → Reply A
refuse_type_error name (raised (type_error message)) =
    raised (policy_error ("Could not construct adapter '" <> name <> "': " <> message))
refuse_type_error name reply = reply

module _ {A : Type 0} (entry_points : String → List (EntryPoint (AdapterClass A))) where
  unfoldable pub construct_class :
      String → String → Credentials → Bool → Option (List String) → AdapterClass A → Reply A
  construct_class role name credentials allow_stubs trust_allow cls =
      if not (is_implemented cls.implemented) && not allow_stubs
      then raised (policy_error ("Adapter '" <> name <> "' for role '" <> role <> "' is a stub"))
      else do
        kwargs ← fetch_kwargs role name trust_allow (kwargs_for name credentials)
        refuse_type_error name (cls.init (search_kwargs role name trust_allow kwargs))

  unfoldable pub construct : String → String → Credentials → Bool → Option (List String) → Reply A
  construct role name credentials allow_stubs trust_allow = do
    cls ← load_adapter_class entry_points role name
    construct_class role name credentials allow_stubs trust_allow cls
