-- ===== src/Router/TrackB/Merge.antt =====
-- The merge rules of `discover_source`: the trusted sources of an item are never replaced, and no
-- URL is staged twice.
use wyndpy.Base.{
  String, List, [], ◌∷◌, ◌++◌, true, false, ◌||◌, contains, ◌==◌, string_eq, ◌≡◌, ◌≢◌, refl, sym,
  arith, Option, none, some, subst,
}
use wyndpy.Core.Results.{Candidate}
use wyndpy.Core.Item.{ResolvableItem, pending_review, unresolved}
use wyndpy.Router.Setup.{Router}
use wyndpy.Router.Action.{State, returned}
use wyndpy.Router.TrackB.{add, merge, discover_source}
use wyndpy.Router.TrackB.Discovered.{Discovered, found, nothing, discover_source-Discovered}

-- No text twice.
abbrev pub IsDistinct : List String → Type 0
IsDistinct [] = Unit
IsDistinct (x ∷ xs) = (contains xs x ≡ false) × IsDistinct xs

-- What discovery keeps true of an item that was registered by hand or found by discovery: each
-- staged URL was seen, and neither list has a URL twice.
pub record IsStaged (i : ResolvableItem) : Type 0 where
  pub seen :
      (url : String)
      → contains i.candidate_sources url ≡ true
      → contains i.discovered_urls_seen url ≡ true
  pub distinct : IsDistinct i.candidate_sources
  pub seen_once : IsDistinct i.discovered_urls_seen

contains-append :
    (xs : List String) (x y : String) → contains (xs ++ x ∷ []) y ≡ (contains xs y || y == x)
contains-append [] x y = ground arith
contains-append (z ∷ xs) x y = ground (arith, contains-append xs x y)

contains-add :
    (url y : String) (set : List String) → contains (add url set) y ≡ (y == url || contains set y)
contains-add url y set = ground arith

IsDistinct-append :
    (xs : List String) (x : String)
    → IsDistinct xs
    → contains xs x ≡ false
    → IsDistinct (xs ++ x ∷ [])
IsDistinct-append [] x h n = (refl, tt)
IsDistinct-append (y ∷ xs) x (fresh, h) n =
    ground (arith, contains-append xs x y, IsDistinct-append xs x h)

IsDistinct-add : (url : String) (set : List String) → IsDistinct set → IsDistinct (add url set)
IsDistinct-add url set h = ground arith

merge-IsStaged :
    (c : Candidate) (i : ResolvableItem)
    → contains i.discovered_urls_seen c.url ≡ false
    → IsStaged i
    → IsStaged (merge c i)
unfolding merge
merge-IsStaged c i new h = go i.current_sources refl
  where
    staged-new : contains i.candidate_sources c.url ≡ false
    staged-new = ground (arith, h.seen c.url)

    go : (sources : List String) → i.current_sources ≡ sources → IsStaged (merge c i)
    go [] e = record {
      seen = λ url m. ground (arith, h.seen url, contains-add c.url url i.discovered_urls_seen);
      distinct = ground (arith, h.distinct);
      seen_once = ground (arith, IsDistinct-add c.url i.discovered_urls_seen h.seen_once);
    }
    go (x ∷ xs) e = record {
      seen = λ url m. ground (
        arith,
        h.seen url,
        contains-add c.url url i.discovered_urls_seen,
        contains-append i.candidate_sources c.url url,
      );
      distinct = ground (arith, IsDistinct-append i.candidate_sources c.url h.distinct staged-new);
      seen_once = ground (arith, IsDistinct-add c.url i.discovered_urls_seen h.seen_once);
    }

Discovered-IsStaged :
    {W : Type 0} (r : Router W) (i : ResolvableItem) {o : Option Candidate} (u : State W)
    → Discovered r i o u
    → IsStaged i
    → IsStaged u.item
Discovered-IsStaged r i u (found c w w' events _ new _ item _) h =
    subst IsStaged (sym item) (merge-IsStaged c i new h)
Discovered-IsStaged r i u (nothing events _ item _) h =
    subst IsStaged (sym item)
      (record { seen = h.seen; distinct = h.distinct; seen_once = h.seen_once })

-- A run of `discover_source` that returns keeps the staging invariant: every staged candidate is
-- among the URLs seen, and no URL is staged or seen twice.
pub discover_source-IsStaged :
    {W : Type 0} (r : Router W) (s t : State W) (o : Option Candidate)
    → IsStaged s.item
    → discover_source r s ≡ (returned o, t)
    → IsStaged t.item
discover_source-IsStaged r s t o h e =
    let (u, lock, d, item, _) = discover_source-Discovered r s t o e in
    subst IsStaged (sym item) (Discovered-IsStaged r s.item u d h)

-- What the merge rules say of the item before and after.
abbrev pub IsMerged : Option Candidate → ResolvableItem → ResolvableItem → Type 0
IsMerged none i j = j ≡ record i { status = unresolved }
IsMerged (some c) i j =
    (contains i.discovered_urls_seen c.url ≡ false)
    × (contains j.discovered_urls_seen c.url ≡ true)
    × (j.last_content_hash ≡ i.last_content_hash)
    × (i.current_sources ≡ []
        → (j.current_sources ≡ c.url ∷ [])
          × (j.status ≡ pending_review)
          × (j.candidate_sources ≡ i.candidate_sources))
    × (i.current_sources ≢ []
        → (j.current_sources ≡ i.current_sources)
          × (j.status ≡ i.status)
          × (j.candidate_sources ≡ i.candidate_sources ++ c.url ∷ []))

merge-IsMerged :
    (c : Candidate) (i : ResolvableItem)
    → contains i.discovered_urls_seen c.url ≡ false
    → IsMerged (some c) i (merge c i)
unfolding merge
merge-IsMerged c i new = (
  new,
  ground (arith, contains-add c.url c.url i.discovered_urls_seen),
  ground arith,
  λ e. ground arith,
  λ e. ground arith,
)

-- A run of `discover_source` that returns `None` has marked the item unresolved and changed nothing
-- else of it. One that returns a candidate returns a URL not seen before and has noted it as seen.
-- The URL becomes the source of an item that had none, pending review; beside an existing source it
-- is staged last, and sources and status stay.
pub discover_source-IsMerged :
    {W : Type 0} (r : Router W) (s t : State W) (o : Option Candidate)
    → discover_source r s ≡ (returned o, t)
    → IsMerged o s.item t.item
discover_source-IsMerged {W} r s t o e =
    let (u, lock, d, item, _) = discover_source-Discovered r s t o e in
    subst (IsMerged o s.item) (sym item) (go u d)
  where
    go : (u : State W) → Discovered r s.item o u → IsMerged o s.item u.item
    go u (found c w w' events same new _ item _) =
        subst (λ q. IsMerged q s.item u.item) (sym same)
          (subst (IsMerged (some c) s.item) (sym item) (merge-IsMerged c s.item new))
    go u (nothing events same item _) = subst (λ q. IsMerged q s.item u.item) (sym same) item
