-- ===== src/Router/TrackB/Chosen.antt =====
-- Which candidate `discover_source` chooses, told by what the searchers and the trust strategy
-- answer.
pub mod Found
pub mod Runs
pub mod Outcome
use wyndpy.Base.{
  ℕ, String, List, [], ◌∷◌, Bool, true, false, Option, none, some, contains, string_eq, ◌≡◌, refl,
  sym, ap, subst, ◌∙◌, inl, inr, Bool-cases, arith, if◌then◌else◌,
}
use wyndpy.Base.Reply.{ok}
use wyndpy.Core.Results.{Candidate}
use wyndpy.Core.Item.{ResolvableItem, unresolved}
use wyndpy.Core.Protocols.{Searcher}
use wyndpy.Router.Setup.{Router}
use wyndpy.Router.Action.{
  State, Action, acquired, returned, setdefault_lock, pure, ◌>>=◌, ◌>>◌, call, modify_item, upsert,
  search_for, ask_trust, lock_for, with_lock,
}
use wyndpy.Router.Keeps.{bind-eq-returned, pure-eq-returned}
use wyndpy.Router.TrackB.{merge, accept, scan, search_all, discovery, discover_source}

module _ {W : Type 0} (r : Router W) (i : ResolvableItem) where
  -- Candidates are taken in turn, from the world `w` on, until one is neither seen nor refused.
  pub data Picks : List Candidate → W → Option Candidate → W → Type 0 where
    none_left : (w : W) → Picks [] w none w
    seen :
        (c : Candidate) (cs : List Candidate) (o : Option Candidate) (w v : W)
        → contains i.discovered_urls_seen c.url ≡ true
        → Picks cs w o v
        → Picks (c ∷ cs) w o v
    refused :
        (c : Candidate) (cs : List Candidate) (o : Option Candidate) (w u v : W)
        → contains i.discovered_urls_seen c.url ≡ false
        → r.trust.is_trusted c w ≡ (ok false, u)
        → Picks cs u o v
        → Picks (c ∷ cs) w o v
    trusted :
        (c : Candidate) (cs : List Candidate) (w u : W)
        → contains i.discovered_urls_seen c.url ≡ false
        → r.trust.is_trusted c w ≡ (ok true, u)
        → Picks (c ∷ cs) w (some c) u

  -- Searchers are asked in turn, until a candidate of one is picked.
  pub data Chooses : List (Searcher W) → W → Option Candidate → W → Type 0 where
    nobody_left : (w : W) → Chooses [] w none w
    hit :
        (f : Searcher W) (fs : List (Searcher W)) (cs : List Candidate) (c : Candidate) (w u v : W)
        → f.search i.query_hint r.config.candidate_count w ≡ (ok cs, u)
        → Picks cs u (some c) v
        → Chooses (f ∷ fs) w (some c) v
    miss :
        (f : Searcher W) (fs : List (Searcher W)) (cs : List Candidate) (o : Option Candidate)
        (w u v x : W)
        → f.search i.query_hint r.config.candidate_count w ≡ (ok cs, u)
        → Picks cs u none v
        → Chooses fs v o x
        → Chooses (f ∷ fs) w o x

-- What becomes of the item.
abbrev pub chosen : Option Candidate → ResolvableItem → ResolvableItem
chosen none i = record i { status = unresolved }
chosen (some c) i = merge c i
