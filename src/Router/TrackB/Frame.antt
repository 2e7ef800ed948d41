-- ===== src/Router/TrackB/Frame.antt =====
-- Track B as a whole keeps a relation that its single steps keep.
use wyndpy.Base.{ℕ, String, List, [], ◌∷◌, Option, none, some, contains, string_eq}
use wyndpy.Core.Results.{Candidate}
use wyndpy.Core.Item.{ResolvableItem, unresolved}
use wyndpy.Core.Protocols.{Searcher}
use wyndpy.Router.Setup.{Router}
use wyndpy.Router.Action.{
  State, searched, trust_asked, upserted, ◌>>=◌, ◌>>◌, pure, modify_item, upsert, search_for,
  ask_trust,
}
use wyndpy.Router.Keeps.{
  after, changed, IsPreorder, Keeps, Keeps-pure, Keeps-change, Keeps-bind, Keeps-gets, Keeps-if,
  Keeps-option, Keeps-call, KeepsLocks, under_lock-Keeps,
}
use wyndpy.Router.TrackB.{merge, accept, scan, search_all, discovery, discover_source}

module _ {W : Type 0} where
  -- What a discovery does to the state, where a change of the item and its save are one step.
  pub record KeepsChanges (R : State W → State W → Type 0) : Type 0 where
    pub preorder : IsPreorder R
    pub searches :
        (name query : String) (n : ℕ) (s : State W) (w : W)
        → R s (after (searched name query n) s w)
    pub asks : (c : Candidate) (s : State W) (w : W) → R s (after (trust_asked c) s w)
    pub merges : (c : Candidate) (s : State W) (w : W) → R s (changed (merge c s.item) s w)
    pub marks : (s : State W) (w : W) → R s (changed (record s.item { status = unresolved }) s w)

  -- What each step of a discovery does to the state.
  pub record KeepsSteps (R : State W → State W → Type 0) : Type 0 where
    pub preorder : IsPreorder R
    pub searches :
        (name query : String) (n : ℕ) (s : State W) (w : W)
        → R s (after (searched name query n) s w)
    pub asks : (c : Candidate) (s : State W) (w : W) → R s (after (trust_asked c) s w)
    pub saves : (s : State W) (w : W) → R s (after (upserted s.item) s w)
    pub merges : (c : Candidate) (s : State W) → R s (record s { item = merge c s.item })
    pub marks : (s : State W) → R s (record s { item = record s.item { status = unresolved } })

module _ {W : Type 0} {R : State W → State W → Type 0} (k : KeepsSteps R) where
  KeepsSteps-KeepsChanges : KeepsChanges R
  KeepsSteps-KeepsChanges = record {
    preorder = k.preorder;
    searches = k.searches;
    asks = k.asks;
    merges = λ c s w. k.preorder.both (k.merges c s) (k.saves _ w);
    marks = λ s w. k.preorder.both (k.marks s) (k.saves _ w);
  }

module _ {W : Type 0} (r : Router W) {R : State W → State W → Type 0} (k : KeepsChanges R) where
  saved-Keeps :
      (f : ResolvableItem → ResolvableItem) (o : Option Candidate)
      → ((s : State W) (w : W) → R s (changed (f s.item) s w))
      → Keeps R (do modify_item f; upsert r; pure o)
  saved-Keeps f o h = Keeps-change k.preorder r f (pure o) h (Keeps-pure k.preorder o)

  accept-Keeps : (c : Candidate) → Keeps R (accept r c)
  unfolding accept
  accept-Keeps c = saved-Keeps (merge c) (some c) (k.merges c)

  scan-Keeps : (cs : List Candidate) → Keeps R (scan r cs)
  unfolding scan ask_trust
  scan-Keeps [] = Keeps-pure k.preorder _
  scan-Keeps (c ∷ cs) = Keeps-gets k.preorder _ _ λ item.
      Keeps-if k.preorder (contains item.discovered_urls_seen c.url) _ _ (scan-Keeps cs) (
        Keeps-bind k.preorder _ _ (Keeps-call _ _ (k.asks c))
          λ b. Keeps-if k.preorder b _ _ (accept-Keeps c) (scan-Keeps cs))

  search_all-Keeps : (fs : List (Searcher W)) → Keeps R (search_all r fs)
  unfolding search_all search_for
  search_all-Keeps [] = Keeps-pure k.preorder _
  search_all-Keeps (f ∷ fs) = Keeps-gets k.preorder _ _ λ item.
      Keeps-bind k.preorder _ _ (Keeps-call _ _ (k.searches f.name item.query_hint _)) λ cs.
        Keeps-bind k.preorder _ _ (scan-Keeps cs)
          λ x. Keeps-option k.preorder x _ _ (search_all-Keeps fs) λ c. Keeps-pure k.preorder _

  discovery-Keeps : Keeps R (discovery r)
  unfolding discovery
  discovery-Keeps =
      Keeps-bind k.preorder _ _ (search_all-Keeps r.searchers)
        λ x. Keeps-option k.preorder x _ _ (saved-Keeps _ none k.marks) λ c. Keeps-pure k.preorder _

  pub discover_source-KeepsChanges : KeepsLocks R → (s : State W) → R s (discover_source r s).1
  unfolding discover_source ◌>>=◌
  discover_source-KeepsChanges l s =
      under_lock-Keeps k.preorder l s.item.id (discovery r) s λ t same. discovery-Keeps.at t

module _ {W : Type 0} (r : Router W) {R : State W → State W → Type 0} (k : KeepsSteps R) where
  pub discover_source-Keeps : KeepsLocks R → (s : State W) → R s (discover_source r s).1
  discover_source-Keeps = discover_source-KeepsChanges r (KeepsSteps-KeepsChanges k)
