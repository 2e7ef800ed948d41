-- ===== src/Router/Resolve/Review.antt =====
-- The review gate of `resolve`: a source found by discovery is fetched only where the
-- configuration says so.
use wyndpy.Base.{[], ◌∷◌, true, false, Option, none, some, ◌≡◌, refl, sym, ap, ◌∙◌, subst, arith}
use wyndpy.Core.Results.{Retrieval, Candidate}
use wyndpy.Core.Item.{pending_review}
use wyndpy.Router.Setup.{Router}
use wyndpy.Router.Action.{
  State, Event, fetched, slept, parsed, searched, trust_asked, upserted, acquired, released, Exit,
  returned, failed, out_of_fuel, continue, ◌>>=◌,
}
use wyndpy.Router.Keeps.{KeepsLocks}
use wyndpy.Router.History.{Did, Did-stay, Did-both, Did-one, Did-none}
use wyndpy.Router.TrackB.{discover_source}
use wyndpy.Router.TrackB.Frame.{KeepsSteps, discover_source-Keeps}
use wyndpy.Router.TrackB.Merge.{discover_source-IsMerged}
use wyndpy.Router.Resolve.{fetch_known, after_discovery, resolve_from, resolve}

-- No fetch, no parse and no wait for a retry.
abbrev pub IsNoFetch : Event → Type 0
IsNoFetch (fetched _ _) = ⊥
IsNoFetch (parsed _ _ _) = ⊥
IsNoFetch (slept _) = ⊥
IsNoFetch _ = Unit

module _ {W : Type 0} where
  one : (e : Event) (s t : State W) → IsNoFetch e → t.history ≡ e ∷ s.history → Did IsNoFetch s t
  one = Did-one IsNoFetch

  IsNoFetch-KeepsSteps : KeepsSteps {W = W} (Did IsNoFetch)
  IsNoFetch-KeepsSteps = record {
    preorder = record { stay = Did-stay IsNoFetch; both = Did-both IsNoFetch };
    searches = λ name query n s w. one (searched name query n) s _ tt refl;
    asks = λ c s w. one (trust_asked c) s _ tt refl;
    saves = λ s w. one (upserted s.item) s _ tt refl;
    merges = λ c s. Did-none IsNoFetch s _ refl;
    marks = λ s. Did-none IsNoFetch s _ refl;
  }

  IsNoFetch-KeepsLocks : KeepsLocks {W = W} (Did IsNoFetch)
  IsNoFetch-KeepsLocks = record {
    relocks = λ locks s. Did-none IsNoFetch s _ refl;
    acquires = λ l s. one (acquired l) s _ tt refl;
    releases = λ l s. one (released l) s _ tt refl;
  }

  -- Discovery never fetches, whatever the adapters answer or raise.
  pub discover_source-IsNoFetch :
      (r : Router W) (s : State W) → Did IsNoFetch s (discover_source r s).1
  discover_source-IsNoFetch r s =
      discover_source-Keeps r IsNoFetch-KeepsSteps IsNoFetch-KeepsLocks s

module _ {W : Type 0} (r : Router W) where
  after_discovery-none :
      r.config.require_review ≡ true
      → (o : Option Candidate) (s : State W) → after_discovery r o s ≡ (returned none, s)
  unfolding after_discovery ◌>>=◌
  after_discovery-none h none s = refl
  after_discovery-none h (some c) s = ground arith

  continue-none :
      r.config.require_review ≡ true
      → (x : Exit (Option Candidate)) (s : State W) → (continue x (after_discovery r) s).1 ≡ s
  continue-none h (returned o) s = ap (λ q. q.1) (after_discovery-none h o s)
  continue-none h (failed e) s = refl
  continue-none h out_of_fuel s = refl

  returned-none :
      r.config.require_review ≡ true
      → (x : Exit (Option Candidate)) (s : State W) {o : Option Retrieval}
      → (continue x (after_discovery r) s).0 ≡ returned o
      → o ≡ none
  returned-none h (returned c) s e = inject (sym e ∙ ap (λ q. q.0) (after_discovery-none h c s))
    where
      inject :
          {o : Option Retrieval}
          → ◌≡◌ {A = Exit (Option Retrieval)} (returned o) (returned none)
          → o ≡ none
      inject e = cc
  returned-none h (failed x) s e = cc
  returned-none h out_of_fuel s e = cc

  from_nil_review :
      r.config.require_review ≡ true
      → (s : State W)
      → Did IsNoFetch s (resolve_from r [] s).1
        × ((o : Option Retrieval) → (resolve_from r [] s).0 ≡ returned o → o ≡ none)
  unfolding resolve_from ◌>>=◌
  from_nil_review h s =
      let (x, t) = discover_source r s in
      (
        subst (Did IsNoFetch s) (sym (continue-none h x t)) (discover_source-IsNoFetch r s),
        λ o e. returned-none h x t e,
      )

  -- Where review is required, `resolve` on an item with no source never fetches, parses or waits,
  -- whatever discovery finds, and if it returns it returns `None`.
  pub resolve-IsNoFetch :
      (s : State W)
      → r.config.require_review ≡ true
      → s.item.current_sources ≡ []
      → Did IsNoFetch s (resolve r s).1
        × ((o : Option Retrieval) → (resolve r s).0 ≡ returned o → o ≡ none)
  unfolding resolve ◌>>=◌
  resolve-IsNoFetch s h e =
      subst
        (λ sources.
          Did IsNoFetch s (resolve_from r sources s).1
          × ((o : Option Retrieval) → (resolve_from r sources s).0 ≡ returned o → o ≡ none))
        (sym e) (from_nil_review h s)

  after_discovery-fetch :
      r.config.require_review ≡ false
      → (c : Candidate) (t : State W) → t.item.status ≡ pending_review
      → after_discovery r (some c) t ≡ fetch_known r t
  unfolding after_discovery ◌>>=◌
  after_discovery-fetch h c t e = ground arith

  -- Where review is not required and discovery returns a candidate for an item with no source,
  -- `resolve` goes on from there with Track A, whose one source is now the candidate's URL.
  pub resolve-eq-fetch_known :
      (s t : State W) (c : Candidate)
      → r.config.require_review ≡ false
      → s.item.current_sources ≡ []
      → discover_source r s ≡ (returned (some c), t)
      → (resolve r s ≡ fetch_known r t) × (t.item.current_sources ≡ c.url ∷ [])
  unfolding resolve resolve_from ◌>>=◌
  resolve-eq-fetch_known s t c h e found =
      let merged = (discover_source-IsMerged r s t (some c) found).3 e in
      (
        ap (λ sources. resolve_from r sources s) e
            ∙ ap (λ q. continue q.0 (after_discovery r) q.1) found
            ∙ after_discovery-fetch h c t merged.1,
        merged.0,
      )
