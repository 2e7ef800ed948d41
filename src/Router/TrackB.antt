-- ===== src/Router/TrackB.antt =====
-- wyndpy/core/router.py, Track B: discover a source.
pub mod Discovered
pub mod Chosen
pub mod Merge
pub mod Frame
use wyndpy.Base.{
  String, List, [], ◌∷◌, ◌++◌, Option, none, some, contains, string_eq, if◌then◌else◌,
}
use wyndpy.Core.Results.{Candidate}
use wyndpy.Core.Item.{ResolvableItem, pending_review, unresolved}
use wyndpy.Core.Protocols.{Searcher}
use wyndpy.Router.Setup.{Router}
use wyndpy.Router.Action.{
  Action, pure, gets, ◌>>=◌, ◌>>◌, modify_item, search_for, ask_trust, upsert, lock_for, with_lock,
}

-- `set.add`
abbrev pub add : String → List String → List String
add url set = if contains set url then set else url ∷ set

-- The merge rules: what an accepted candidate changes in the item.
unfoldable pub merge : Candidate → ResolvableItem → ResolvableItem
merge c item =
    let seen = add c.url item.discovered_urls_seen in
    elim item.current_sources [
      | [] ↦ record item {
        discovered_urls_seen = seen;
        current_sources = c.url ∷ [];
        status = pending_review;
      }
      | _ ∷ _ ↦ record item {
        discovered_urls_seen = seen;
        candidate_sources = item.candidate_sources ++ c.url ∷ [];
      }
    ]

module _ {W : Type 0} (r : Router W) where
  unfoldable pub accept : Candidate → Action W (Option Candidate)
  accept c = do modify_item (merge c); upsert r; pure (some c)

  -- The loop over one searcher's candidates; `none` when it runs to its end.
  unfoldable pub scan : List Candidate → Action W (Option Candidate)
  scan [] = pure none
  scan (c ∷ cs) = do
    item ← gets (λ s. s.item)
    if contains item.discovered_urls_seen c.url
        then scan cs
        else do trusted ← ask_trust r c; if trusted then accept c else scan cs

  -- The loop over the searchers.
  unfoldable pub search_all : List (Searcher W) → Action W (Option Candidate)
  search_all [] = pure none
  search_all (f ∷ fs) = do
    item ← gets (λ s. s.item)
    candidates ← search_for f item.query_hint r.config.candidate_count
    found ← scan candidates
    elim found [ some c ↦ pure (some c) | none ↦ search_all fs ]

  -- The body of `discover_source`, under the lock.
  unfoldable pub discovery : Action W (Option Candidate)
  discovery = do
    found ← search_all r.searchers
    elim found [
      | some c ↦ pure (some c)
      | none ↦ do modify_item (λ i. record i { status = unresolved }); upsert r; pure none
    ]

  unfoldable pub discover_source : Action W (Option Candidate)
  discover_source = do item ← gets (λ s. s.item); lock ← lock_for item.id; with_lock lock discovery
