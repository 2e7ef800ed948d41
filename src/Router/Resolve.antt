-- ===== src/Router/Resolve.antt =====
-- wyndpy/core/router.py: `resolve`, which wires Track B into Track A.
pub mod Frame
pub mod Review
pub mod Saved
use wyndpy.Base.{
  Bool, true, false, not, ◌&&◌, String, List, [], ◌∷◌, Option, none, some, if◌then◌else◌,
}
use wyndpy.Core.Results.{Retrieval, Candidate}
use wyndpy.Core.Item.{ItemStatus, pending_review}
use wyndpy.Router.Setup.{Router}
use wyndpy.Router.Action.{Action, pure, gets, ◌>>=◌}
use wyndpy.Router.TrackA.{resolve_known_source}
use wyndpy.Router.TrackB.{discover_source}

-- `status == ItemStatus.PENDING_REVIEW`
abbrev pub is_pending_review : ItemStatus → Bool
is_pending_review pending_review = true
is_pending_review _ = false

module _ {W : Type 0} (r : Router W) where
  unfoldable pub fetch_known : Action W (Option Retrieval)
  fetch_known = do outcome ← resolve_known_source r; pure (some outcome)

  -- What follows `discover_source` in `resolve`.
  unfoldable pub after_discovery : Option Candidate → Action W (Option Retrieval)
  after_discovery none = pure none
  after_discovery (some _) = do
    item ← gets (λ s. s.item)
    if is_pending_review item.status && not r.config.require_review then fetch_known else pure none

  -- The rest of `resolve`, by the item's sources.
  unfoldable pub resolve_from : List String → Action W (Option Retrieval)
  resolve_from (_ ∷ _) = fetch_known
  resolve_from [] = do candidate ← discover_source r; after_discovery candidate

  unfoldable pub resolve : Action W (Option Retrieval)
  resolve = do item ← gets (λ s. s.item); resolve_from item.current_sources
