-- ===== src/Router/TrackB/Discovered.antt =====
-- The ways in which `discover_source` can return, and what each leaves behind.
use wyndpy.Base.{
  ℕ, String, List, [], ◌∷◌, Bool, true, false, Option, none, some, contains, string_eq, ◌≡◌, sym,
  ap, subst, ◌∙◌, inl, inr, Bool-cases, arith, if◌then◌else◌,
}
use wyndpy.Base.Reply.{ok}
use wyndpy.Core.Results.{Candidate}
use wyndpy.Core.Item.{ResolvableItem, unresolved}
use wyndpy.Core.Protocols.{Searcher}
use wyndpy.Router.Setup.{Router}
use wyndpy.Router.Action.{
  State, Action, Event, upserted, acquired, released, returned, setdefault_lock, pure, ◌>>=◌, ◌>>◌,
  call, modify_item, upsert, search_for, ask_trust, lock_for, with_lock,
}
use wyndpy.Router.Keeps.{bind-eq-returned, pure-eq-returned}
use wyndpy.Router.TrackB.{merge, accept, scan, search_all, discovery, discover_source}

-- A run on the item `i` that returns `o` ends in `t` in one of two ways.
pub data Discovered {W : Type 0} (r : Router W) (i : ResolvableItem) (o : Option Candidate)
    (t : State W) : Type 0 where
  -- A candidate that was not seen before and is trusted is merged into the item and saved last.
  found :
      (c : Candidate) (w w' : W) (h : List Event)
      → o ≡ some c
      → contains i.discovered_urls_seen c.url ≡ false
      → r.trust.is_trusted c w ≡ (ok true, w')
      → t.item ≡ merge c i
      → t.history ≡ upserted t.item ∷ h
      → Discovered r i o t
  -- Nothing usable: the item, marked unresolved, is saved last.
  nothing :
      (h : List Event)
      → o ≡ none
      → t.item ≡ record i { status = unresolved }
      → t.history ≡ upserted t.item ∷ h
      → Discovered r i o t

-- A loop of the search has either found something or left the item alone.
data Searched {W : Type 0} (r : Router W) (i : ResolvableItem) (o : Option Candidate) (t : State W)
    : Type 0 where
  hit : (c : Candidate) → o ≡ some c → Discovered r i o t → Searched r i o t
  miss : o ≡ none → t.item ≡ i → Searched r i o t

module _ {W : Type 0} (r : Router W) where
  accept-Searched :
      (c : Candidate) (s : State W) {o : Option Candidate} {t : State W} (w w' : W)
      → contains s.item.discovered_urls_seen c.url ≡ false
      → r.trust.is_trusted c w ≡ (ok true, w')
      → accept r c s ≡ (returned o, t)
      → Searched r s.item o t
  unfolding accept ◌>>=◌ modify_item upsert call
  accept-Searched c s w w' new trusted e =
      hit c (ground arith)
        (found c w w' s.history (ground arith) new trusted (ground arith) (ground arith))

  ask_trust_lem :
      (c : Candidate) (s : State W) {b : Bool} {t : State W}
      → ask_trust r c s ≡ (returned b, t)
      → (r.trust.is_trusted c s.world ≡ (ok b, t.world)) × (t.item ≡ s.item)
  unfolding ask_trust call
  ask_trust_lem c s e = ground arith

  -- After the answer `b` of the trust strategy, in a state `u` with the item of `s`.
  answered-Searched :
      (c : Candidate) (cs : List Candidate) (s u : State W) {o : Option Candidate} {t : State W}
      (b : Bool)
      → contains s.item.discovered_urls_seen c.url ≡ false
      → r.trust.is_trusted c s.world ≡ (ok b, u.world)
      → u.item ≡ s.item
      → (scan r cs u ≡ (returned o, t) → Searched r u.item o t)
      → (if b then accept r c else scan r cs) u ≡ (returned o, t)
      → Searched r s.item o t
  answered-Searched c cs s u {o} {t} true new answer item later e =
      subst (λ i. Searched r i o t) item
        (accept-Searched c u s.world u.world
          (ap (λ i. contains i.discovered_urls_seen c.url) item ∙ new) answer e)
  answered-Searched c cs s u {o} {t} false new answer item later e =
      subst (λ i. Searched r i o t) item (later e)

  scan-Searched :
      (cs : List Candidate) (s : State W) {o : Option Candidate} {t : State W}
      → scan r cs s ≡ (returned o, t)
      → Searched r s.item o t
  unfolding scan ◌>>=◌
  scan-Searched [] s e = miss (ground arith) (ground arith)
  scan-Searched (c ∷ cs) s e = elim (Bool-cases (contains s.item.discovered_urls_seen c.url)) [
    | inl old ↦ scan-Searched cs s (rw old at e)
    | inr new ↦
        let (b, u, asked, rest) = bind-eq-returned (ask_trust r c) _ s (rw new at e) in
        let (answer, item) = ask_trust_lem c s asked in
        answered-Searched c cs s u b new answer item (scan-Searched cs u) rest
  ]

  search_for_item :
      (f : Searcher W) (query : String) (n : ℕ) (s : State W) {cs : List Candidate} {u : State W}
      → search_for f query n s ≡ (returned cs, u)
      → u.item ≡ s.item
  unfolding search_for call
  search_for_item f query n s e = ground arith

  search_all-Searched :
      (fs : List (Searcher W)) (s : State W) {o : Option Candidate} {t : State W}
      → search_all r fs s ≡ (returned o, t)
      → Searched r s.item o t
  unfolding search_all ◌>>=◌
  search_all-Searched [] s e = miss (ground arith) (ground arith)
  search_all-Searched (f ∷ fs) s {o} {t} e =
      let (cs, u, searched, rest) =
        bind-eq-returned (search_for f s.item.query_hint r.config.candidate_count) _ s e in
      let (x, v, scanned, rest') = bind-eq-returned (scan r cs) _ u rest in
      subst (λ i. Searched r i o t) (search_for_item f _ _ s searched)
        (next x v (scan-Searched cs u scanned) (search_all-Searched fs v) rest')
    where
      next :
          (x : Option Candidate) {i : ResolvableItem} (v : State W)
          → Searched r i x v
          → (search_all r fs v ≡ (returned o, t) → Searched r v.item o t)
          → (let k : Action W (Option Candidate) = elim x [
            | some c ↦ pure (some c)
            | none ↦ search_all r fs
          ] in
              k v ≡ (returned o, t))
          → Searched r i o t
      next (some c) {i} v h later e =
          let (same_o, same_t) = pure-eq-returned e in
          subst (λ q. Searched r i q t) same_o (subst (Searched r i (some c)) same_t h)
      next none {i} v (miss _ item) later e = subst (λ i. Searched r i o t) item (later e)
      next none v (hit c eq _) later e = cc

  unresolved_lem :
      (s : State W) {o : Option Candidate} {t : State W}
      → (do modify_item (λ i. record i { status = unresolved }); upsert r; pure none) s
        ≡ (returned o, t)
      → Discovered r s.item o t
  unfolding ◌>>=◌ modify_item upsert call
  unresolved_lem s e = nothing s.history (ground arith) (ground arith) (ground arith)

  discovery-Discovered :
      (s : State W) {o : Option Candidate} {t : State W}
      → discovery r s ≡ (returned o, t)
      → Discovered r s.item o t
  unfolding discovery
  discovery-Discovered s {o} {t} e =
      let (x, u, searched, rest) = bind-eq-returned (search_all r r.searchers) _ s e in
      finish x u (search_all-Searched r.searchers s searched) rest
    where
      finish :
          (x : Option Candidate) {i : ResolvableItem} (u : State W)
          → Searched r i x u
          → (let k : Action W (Option Candidate) = elim x [
            | some c ↦ pure (some c)
            | none ↦ do modify_item (λ i. record i { status = unresolved }); upsert r; pure none
          ] in
              k u ≡ (returned o, t))
          → Discovered r i o t
      finish (some c) {i} u (miss h _) e = cc
      finish (some c) {i} u (hit _ _ d) e =
          let (same_o, same_t) = pure-eq-returned e in
          subst (λ q. Discovered r i q t) same_o (subst (Discovered r i (some c)) same_t d)
      finish none {i} u (hit c h _) e = cc
      finish none {i} u (miss _ item) e = subst (λ i. Discovered r i o t) item (unresolved_lem u e)

  -- A run of `discover_source` that returns ends in one of the two ways of `Discovered` on the item
  -- that was passed in, and then gives its lock back.
  pub discover_source-Discovered :
      (s t : State W) (o : Option Candidate)
      → discover_source r s ≡ (returned o, t)
      → (u : State W) × (lock : ℕ) × Discovered r s.item o u
        × (t.item ≡ u.item)
        × (t.history ≡ released lock ∷ u.history)
  unfolding discover_source ◌>>=◌ lock_for with_lock
  discover_source-Discovered s t o e =
      let found = setdefault_lock s.item.id s.locks in
      let s' : State W = record s { locks = found.1; history = acquired found.0 ∷ s.history } in
      let run = discovery r s' in
      (
        run.1,
        found.0,
        discovery-Discovered s' (λ k. ((e k).0, run.1)),
        (λ k. (sym e k).1.item),
        (λ k. (sym e k).1.history),
      )
