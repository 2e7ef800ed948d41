-- ===== src/Router/TrackA/Built.antt =====
-- A router that the constructor builds from adapters that keep a property of the world.
use wyndpy.Base.{ℕ, String, List, [], ◌∷◌, Option, All, string_eq}
use wyndpy.Base.Dict.{Dict, insert, AllFound, nil-AllFound, insert-AllFound}
use wyndpy.Base.Reply.{Reply}
use wyndpy.Core.Escalation.{EscalationRule}
use wyndpy.Core.Item.{ResolvableItem}
use wyndpy.Core.Protocols.{Fetcher, Searcher, Parser, TrustStrategy, Registry}
use wyndpy.Router.Setup.{RouterConfig, new_router, fetchers_by_name, parsers_by_name}
use wyndpy.Router.Action.{State}
use wyndpy.Router.TrackA.{resolve_known_source}
use wyndpy.Router.TrackA.World.{FetchKeeps, ParseKeeps}
use wyndpy.Router.TrackA.Kept.{resolve_known_source-IsKept}

module _ {W : Type 0} (Q : W → Type 0) where
  fetchers_by_name-FetchKeeps :
      (fs : List (Fetcher W)) (d : Dict String (Fetcher W))
      → All (FetchKeeps Q) fs
      → AllFound (FetchKeeps Q) d
      → AllFound (FetchKeeps Q) (fetchers_by_name fs d)
  unfolding fetchers_by_name
  fetchers_by_name-FetchKeeps [] d h k = k
  fetchers_by_name-FetchKeeps (g ∷ fs) d (kept, h) k =
      fetchers_by_name-FetchKeeps fs (insert g.name g d) h
        (insert-AllFound (FetchKeeps Q) g.name g d kept k)

  parsers_by_name-ParseKeeps :
      (ps : List (Parser W)) (d : Dict String (Parser W))
      → All (ParseKeeps Q) ps
      → AllFound (ParseKeeps Q) d
      → AllFound (ParseKeeps Q) (parsers_by_name ps d)
  unfolding parsers_by_name
  parsers_by_name-ParseKeeps [] d h k = k
  parsers_by_name-ParseKeeps (g ∷ ps) d (kept, h) k =
      parsers_by_name-ParseKeeps ps (insert g.name g d) h
        (insert-AllFound (ParseKeeps Q) g.name g d kept k)

  -- A registry and a pause that keep `Q`.
  abbrev pub SaveKeeps : Registry W → Type 0
  SaveKeeps registry = (i : ResolvableItem) (w : W) → Q w → Q (registry.upsert i w).1

  abbrev pub SleepKeeps : (ℕ → W → Reply (Unit {0}) × W) → Type 0
  SleepKeeps sleep = (n : ℕ) (w : W) → Q w → Q (sleep n w).1

  pub new_router-IsKept :
      (fs : List (Fetcher W)) (ss : List (Searcher W)) (ps : List (Parser W))
      (trust : TrustStrategy W) (registry : Registry W) (config : Option RouterConfig)
      (rules : Option (List EscalationRule)) (sleep : ℕ → W → Reply (Unit {0}) × W) (s : State W)
      → All (FetchKeeps Q) fs
      → All (ParseKeeps Q) ps
      → SaveKeeps registry
      → SleepKeeps sleep
      → Q s.world
      → Q (resolve_known_source (new_router fs ss ps trust registry config rules sleep) s).1.world
  unfolding new_router
  new_router-IsKept fs ss ps trust registry config rules sleep s fetchers parsers saves sleeps q =
      resolve_known_source-IsKept Q (new_router fs ss ps trust registry config rules sleep)
        (record {
          fetchers = fetchers;
          named = fetchers_by_name-FetchKeeps fs [] fetchers (nil-AllFound (FetchKeeps Q));
          parsers = parsers;
          parser_named = parsers_by_name-ParseKeeps ps [] parsers (nil-AllFound (ParseKeeps Q));
          saves = saves;
          sleeps = sleeps;
        })
        s q
