-- ===== src/Factory/Review.antt =====
-- From a policy file to the review gate of the router that is built from it.
use wyndpy.Base.{String, List, [], ◌∷◌, Bool, true, Option, none, some, string_eq, ◌≡◌, ◌∙◌}
use wyndpy.Base.Dict.{lookup}
use wyndpy.Base.Reply.{Reply, ok}
use wyndpy.Base.Value.{Value}
use wyndpy.Core.Results.{Retrieval}
use wyndpy.Policy.File.{PolicyFile, or_else, no_trust, policy_of, dump, raw_policy}
use wyndpy.Policy.Load.{load_policy}
use wyndpy.Policy.RoundTrip.{load_policy-dump}
use wyndpy.Router.Setup.{Router}
use wyndpy.Router.Action.{State, returned}
use wyndpy.Router.History.{Did}
use wyndpy.Router.Resolve.{resolve}
use wyndpy.Router.Resolve.Review.{IsNoFetch, resolve-IsNoFetch}
use wyndpy.Factory.Construct.{Credentials}
use wyndpy.Factory.Build.{Installed, Injected, build_router}
use wyndpy.Factory.Build.Wired.{build_router-IsWired}

-- A file of the documented schema whose fetch role names an adapter, and that does not set
-- `require_review` to false, loads as the policy that it means, and a router that is built from
-- that policy never fetches, parses or waits in a `resolve` of an item with no source, whatever it
-- discovers, and gives `None` if it returns.
pub load_policy-resolve :
    {W : Type 0} (read_yaml : String → Reply Value) (path : String) (file : PolicyFile)
    (name : String) (names : List String) (env : Installed W) (credentials : Credentials)
    (injected : Injected W) (allow_stubs : Bool) (r : Router W) (s : State W)
    → read_yaml path ≡ ok (dump file)
    → lookup "fetch" file.roles ≡ some (name ∷ names)
    → or_else (or_else file.trust no_trust).require_review true ≡ true
    → build_router env (policy_of file) credentials injected allow_stubs ≡ ok r
    → s.item.current_sources ≡ []
    → (load_policy read_yaml path ≡ ok (raw_policy (policy_of file)))
      × Did IsNoFetch s (resolve r s).1
      × ((o : Option Retrieval) → (resolve r s).0 ≡ returned o → o ≡ none)
load_policy-resolve read_yaml path file name names env credentials injected allow_stubs r s reads
      fetches review built no_source =
    let wired =
      build_router-IsWired env (policy_of file) credentials injected allow_stubs r built in
    let (did, gives) = resolve-IsNoFetch r s (wired.require_review ∙ review) no_source in
    (load_policy-dump read_yaml path file name names reads fetches, did, gives)
