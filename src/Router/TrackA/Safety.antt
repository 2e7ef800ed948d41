-- ===== src/Router/TrackA/Safety.antt =====
-- What Track A leaves alone, and what it never does.
use wyndpy.Base.{String, List, ◌∷◌, ◌≡◌, refl, arith}
use wyndpy.Router.Setup.{Router}
use wyndpy.Router.Action.{
  State, Event, fetched, slept, parsed, searched, trust_asked, upserted, acquired, released,
}
use wyndpy.Router.History.{HasSameSources, Did, Did-stay, Did-both, Did-one, Did-none}
use wyndpy.Router.Keeps.{IsPreorder, KeepsLocks}
use wyndpy.Router.TrackA.{resolve_known_source}
use wyndpy.Router.TrackA.Frame.{KeepsSteps, resolve_known_source-Keeps}

-- Track A fetches `url` and nothing else, never searches and never asks for trust.
abbrev pub FetchesOnly : String → Event → Type 0
FetchesOnly url (fetched id u) = u ≡ url
FetchesOnly url (searched _ _ _) = ⊥
FetchesOnly url (trust_asked _) = ⊥
FetchesOnly url _ = Unit

pub record IsFastPath {W : Type 0} (url : String) (s t : State W) : Type 0 where
  pub item : HasSameSources s.item t.item
  pub did : Did (FetchesOnly url) s t

module _ {W : Type 0} {url : String} where
  IsFastPath-IsPreorder : IsPreorder (IsFastPath {W = W} url)
  IsFastPath-IsPreorder = record {
    stay = λ s. record { item = ground arith; did = Did-stay (FetchesOnly url) s };
    both = λ d d'. record { item = ground arith; did = Did-both (FetchesOnly url) d.did d'.did };
  }

  -- A step that adds one allowed event.
  step :
      (e : Event) (s t : State W)
      → FetchesOnly url e
      → HasSameSources s.item t.item
      → t.history ≡ e ∷ s.history
      → IsFastPath url s t
  step e s t p i h = record { item = i; did = Did-one (FetchesOnly url) e s t p h }

  -- A step that adds none.
  quiet :
      (s t : State W) → HasSameSources s.item t.item → t.history ≡ s.history → IsFastPath url s t
  quiet s t i h = record { item = i; did = Did-none (FetchesOnly url) s t h }

  IsFastPath-KeepsSteps : KeepsSteps url (IsFastPath {W = W} url)
  IsFastPath-KeepsSteps = record {
    fetching = record {
      preorder = IsFastPath-IsPreorder;
      fetches = λ id s w. step (fetched id url) s _ refl (ground arith) refl;
      sleeps = λ n s w. step (slept n) s _ tt (ground arith) refl;
    };
    parses = λ name body mime s w. step (parsed name body mime) s _ tt (ground arith) refl;
    saves = λ s w. step (upserted s.item) s _ tt (ground arith) refl;
    marks = λ status s. quiet s _ (ground arith) refl;
    rehashes = λ hash s. quiet s _ (ground arith) refl;
  }

  IsFastPath-KeepsLocks : KeepsLocks (IsFastPath {W = W} url)
  IsFastPath-KeepsLocks = record {
    relocks = λ locks s. quiet s _ (ground arith) refl;
    acquires = λ l s. step (acquired l) s _ tt (ground arith) refl;
    releases = λ l s. step (released l) s _ tt (ground arith) refl;
  }

-- Whatever the adapters answer or raise, `resolve_known_source` on an item whose first source is
-- `url` leaves the item's id, query, sources, staged candidates, seen URLs and metadata as they
-- were, fetches no URL but `url`, and never searches or asks for trust.
pub resolve_known_source-IsFastPath :
    {W : Type 0} (r : Router W) (s : State W) (url : String) (rest : List String)
    → s.item.current_sources ≡ url ∷ rest
    → IsFastPath url s (resolve_known_source r s).1
resolve_known_source-IsFastPath r s url rest e =
    resolve_known_source-Keeps r IsFastPath-KeepsSteps IsFastPath-KeepsLocks s rest e
