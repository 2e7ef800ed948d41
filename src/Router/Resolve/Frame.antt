-- ===== src/Router/Resolve/Frame.antt =====
-- `resolve` as a whole keeps a relation that both tracks keep.
use wyndpy.Base.{String, List, [], ◌∷◌, Option, none, some}
use wyndpy.Core.Results.{Candidate}
use wyndpy.Router.Setup.{Router}
use wyndpy.Router.Action.{State}
use wyndpy.Router.Keeps.{IsPreorder, Keeps, Keeps-pure, Keeps-bind, Keeps-gets, Keeps-if}
use wyndpy.Router.TrackA.{resolve_known_source}
use wyndpy.Router.TrackB.{discover_source}
use wyndpy.Router.Resolve.{fetch_known, after_discovery, resolve_from, resolve}

module _ {W : Type 0} (r : Router W) {R : State W → State W → Type 0} (p : IsPreorder R)
    (known : Keeps R (resolve_known_source r)) (discovers : Keeps R (discover_source r)) where
  fetch_known-Keeps : Keeps R (fetch_known r)
  unfolding fetch_known
  fetch_known-Keeps = Keeps-bind p _ _ known λ outcome. Keeps-pure p (some outcome)

  after_discovery-Keeps : (o : Option Candidate) → Keeps R (after_discovery r o)
  unfolding after_discovery
  after_discovery-Keeps none = Keeps-pure p none
  after_discovery-Keeps (some c) =
      Keeps-gets p _ _ λ item. Keeps-if p _ _ _ fetch_known-Keeps (Keeps-pure p none)

  resolve_from-Keeps : (sources : List String) → Keeps R (resolve_from r sources)
  unfolding resolve_from
  resolve_from-Keeps (url ∷ rest) = fetch_known-Keeps
  resolve_from-Keeps [] = Keeps-bind p _ _ discovers after_discovery-Keeps

  pub resolve-Keeps : Keeps R (resolve r)
  unfolding resolve
  resolve-Keeps = Keeps-gets p _ _ λ item. resolve_from-Keeps item.current_sources
