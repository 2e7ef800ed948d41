-- ===== src/Router/TrackB/Chosen/Found.antt =====
-- A run of `discover_source` that returns has chosen as `Chooses` tells.
use wyndpy.Base.{
  ℕ, String, List, [], ◌∷◌, Bool, true, false, Option, none, some, contains, string_eq, ◌≡◌, refl,
  sym, ap, subst, ◌∙◌, inl, inr, Bool-cases, arith, if◌then◌else◌,
}
use wyndpy.Base.Reply.{ok}
use wyndpy.Core.Results.{Candidate}
use wyndpy.Core.Item.{ResolvableItem, unresolved}
use wyndpy.Core.Protocols.{Searcher}
use wyndpy.Router.Setup.{Router}
use wyndpy.Router.Action.{
  State, Action, returned, pure, ◌>>=◌, ◌>>◌, call, modify_item, upsert, search_for, ask_trust,
}
use wyndpy.Router.Keeps.{bind-eq-returned, pure-eq-returned}
use wyndpy.Router.TrackB.{merge, accept, scan, search_all, discovery}
use wyndpy.Router.TrackB.Chosen.{
  Picks, Chooses, none_left, seen, refused, trusted, nobody_left, hit, miss, chosen,
}

-- Where the choice `o` was made in the world `v`: a candidate has been merged and saved from there,
-- and without one nothing has happened to the item.
data Settled {W : Type 0} (r : Router W) (i : ResolvableItem) (t : State W)
    : Option Candidate → W → Type 0 where
  merged :
      (c : Candidate) (v : W)
      → t.item ≡ merge c i
      → r.registry.upsert t.item v ≡ (ok tt, t.world)
      → Settled r i t (some c) v
  left_alone : t.item ≡ i → Settled r i t none t.world

module _ {W : Type 0} (r : Router W) where
  accept-Settled :
      (c : Candidate) (s : State W) {o : Option Candidate} {t : State W}
      → accept r c s ≡ (returned o, t)
      → (o ≡ some c)
        × (t.item ≡ merge c s.item)
        × (r.registry.upsert t.item s.world ≡ (ok tt, t.world))
  unfolding accept ◌>>=◌ modify_item upsert call
  accept-Settled c s e = (ground arith, ground arith, ground arith)

  ask_trust_lem :
      (c : Candidate) (s : State W) {b : Bool} {u : State W}
      → ask_trust r c s ≡ (returned b, u)
      → (r.trust.is_trusted c s.world ≡ (ok b, u.world)) × (u.item ≡ s.item)
  unfolding ask_trust call
  ask_trust_lem c s e = ground arith

  Scans : ResolvableItem → List Candidate → W → Option Candidate → State W → Type 0
  Scans i cs w o t = (v : W) × Picks r i cs w o v × Settled r i t o v

  accept-Scans :
      (c : Candidate) (cs : List Candidate) (w : W) (s : State W) (o : Option Candidate)
      (t : State W)
      → contains s.item.discovered_urls_seen c.url ≡ false
      → r.trust.is_trusted c w ≡ (ok true, s.world)
      → accept r c s ≡ (returned o, t)
      → Scans s.item (c ∷ cs) w o t
  unfolding Scans
  accept-Scans c cs w s o t new answer e =
      let (chosen, item, saved) = accept-Settled c s e in
      subst (λ o'. Scans s.item (c ∷ cs) w o' t) (sym chosen)
        (s.world, trusted c cs w s.world new answer, merged c s.world item saved)

  -- After the answer `b` of the trust strategy, in a state `u` with the item `i`.
  answered-Scans :
      (c : Candidate) (cs : List Candidate) (i : ResolvableItem) (w : W) (u : State W)
      (o : Option Candidate) (t : State W) (b : Bool)
      → contains i.discovered_urls_seen c.url ≡ false
      → r.trust.is_trusted c w ≡ (ok b, u.world)
      → u.item ≡ i
      → (scan r cs u ≡ (returned o, t) → Scans u.item cs u.world o t)
      → (if b then accept r c else scan r cs) u ≡ (returned o, t)
      → Scans i (c ∷ cs) w o t
  unfolding Scans
  answered-Scans c cs i w u o t true new answer item later e =
      subst (λ i. Scans i (c ∷ cs) w o t) item
        (accept-Scans c cs w u o t (ap (λ i. contains i.discovered_urls_seen c.url) item ∙ new)
          answer e)
  answered-Scans c cs i w u o t false new answer item later e =
      let (v, picks, settled) = subst (λ i. Scans i cs u.world o t) item (later e) in
      (v, refused c cs o w u.world v new answer picks, settled)

  scan-Scans :
      (cs : List Candidate) (s : State W) (o : Option Candidate) (t : State W)
      → scan r cs s ≡ (returned o, t)
      → Scans s.item cs s.world o t
  unfolding scan ◌>>=◌ Scans
  scan-Scans [] s o t e =
      let (same_o, same_t) = pure-eq-returned e in
      subst (λ o'. Scans s.item [] s.world o' t) same_o
        (subst (λ t'. Scans s.item [] s.world none t') same_t
          (s.world, none_left s.world, left_alone refl))
  scan-Scans (c ∷ cs) s o t e = elim (Bool-cases (contains s.item.discovered_urls_seen c.url)) [
    | inl old ↦
        let (v, picks, settled) = scan-Scans cs s o t (rw old at e) in
        (v, seen c cs o s.world v old picks, settled)
    | inr new ↦
        let (b, u, asked, rest) = bind-eq-returned (ask_trust r c) _ s (rw new at e) in
        let (answer, item) = ask_trust_lem c s asked in
        answered-Scans c cs s.item s.world u o t b new answer item (scan-Scans cs u o t) rest
  ]

  search_for_lem :
      (f : Searcher W) (query : String) (n : ℕ) (s : State W) {cs : List Candidate} {u : State W}
      → search_for f query n s ≡ (returned cs, u)
      → (f.search query n s.world ≡ (ok cs, u.world)) × (u.item ≡ s.item)
  unfolding search_for call
  search_for_lem f query n s e = ground arith

  Searches : ResolvableItem → List (Searcher W) → W → Option Candidate → State W → Type 0
  Searches i fs w o t = (v : W) × Chooses r i fs w o v × Settled r i t o v

  -- After a scan that came to `x` in the state `u`.
  scanned-Searches :
      (f : Searcher W) (fs : List (Searcher W)) (cs : List Candidate) (i : ResolvableItem) (w y : W)
      (x : Option Candidate) (u : State W) (o : Option Candidate) (t : State W)
      → f.search i.query_hint r.config.candidate_count w ≡ (ok cs, y)
      → Scans i cs y x u
      → (search_all r fs u ≡ (returned o, t) → Searches u.item fs u.world o t)
      → (let k : Action W (Option Candidate) = elim x [
        | some c ↦ pure (some c)
        | none ↦ search_all r fs
      ] in
          k u ≡ (returned o, t))
      → Searches i (f ∷ fs) w o t
  unfolding Scans Searches
  scanned-Searches f fs cs i w y (some c) u o t answer (v, picks, settled) later e =
      let (same_o, same_t) = pure-eq-returned e in
      subst (λ o'. Searches i (f ∷ fs) w o' t) same_o
        (subst (λ t'. Searches i (f ∷ fs) w (some c) t') same_t
          (v, hit f fs cs c w y v answer picks, settled))
  scanned-Searches f fs cs i w y none u o t answer (_, picks, left_alone item) later e =
      let (v, chooses, settled) = subst (λ i. Searches i fs u.world o t) item (later e) in
      (v, miss f fs cs o w y u.world v answer picks chooses, settled)

  search_all-Searches :
      (fs : List (Searcher W)) (s : State W) (o : Option Candidate) (t : State W)
      → search_all r fs s ≡ (returned o, t)
      → Searches s.item fs s.world o t
  unfolding search_all ◌>>=◌ Searches
  search_all-Searches [] s o t e =
      let (same_o, same_t) = pure-eq-returned e in
      subst (λ o'. Searches s.item [] s.world o' t) same_o
        (subst (λ t'. Searches s.item [] s.world none t') same_t
          (s.world, nobody_left s.world, left_alone refl))
  search_all-Searches (f ∷ fs) s o t e =
      let (cs, u, searched, rest) =
        bind-eq-returned (search_for f s.item.query_hint r.config.candidate_count) _ s e in
      let (answer, item) = search_for_lem f _ _ s searched in
      let (x, v, scanned, rest') = bind-eq-returned (scan r cs) _ u rest in
      scanned-Searches f fs cs s.item s.world u.world x v o t answer
        (subst (λ i. Scans i cs u.world x v) item (scan-Scans cs u x v scanned))
        (search_all-Searches fs v o t) rest'

  -- The item is as the choice `o` makes it, and was saved from the world `v` on.
  abbrev pub Saves : ResolvableItem → Option Candidate → W → State W → Type 0
  Saves i o v t = (t.item ≡ chosen o i) × (r.registry.upsert t.item v ≡ (ok tt, t.world))

  abbrev pub Ends : ResolvableItem → W → Option Candidate → State W → Type 0
  Ends i w o t = (v : W) × Chooses r i r.searchers w o v × Saves i o v t

  give_up-Saves :
      (s : State W) (o : Option Candidate) (t : State W)
      → (do modify_item (λ i. record i { status = unresolved }); upsert r; pure none) s
        ≡ (returned o, t)
      → (o ≡ none) × Saves s.item none s.world t
  unfolding ◌>>=◌ modify_item upsert call
  give_up-Saves s o t e = (ground arith, (ground arith, ground arith))

  finish :
      (i : ResolvableItem) (w : W) (x : Option Candidate) (u : State W) (o : Option Candidate)
      (t : State W)
      → Searches i r.searchers w x u
      → (let k : Action W (Option Candidate) = elim x [
        | some c ↦ pure (some c)
        | none ↦ do modify_item (λ i. record i { status = unresolved }); upsert r; pure none
      ] in
          k u ≡ (returned o, t))
      → Ends i w o t
  unfolding Searches
  finish i w (some c) u o t (v, chooses, merged _ _ item saved) e =
      let (same_o, same_t) = pure-eq-returned e in
      subst (λ o'. Ends i w o' t) same_o
        (subst (λ t'. Ends i w (some c) t') same_t (v, chooses, (item, saved)))
  finish i w none u o t (_, chooses, left_alone item) e =
      let (none_found, saves) = give_up-Saves u o t e in
      subst (λ o'. Ends i w o' t) (sym none_found)
        (u.world, chooses, subst (λ i. Saves i none u.world t) item saves)

  pub discovery-Ends :
      (s : State W) (o : Option Candidate) (t : State W)
      → discovery r s ≡ (returned o, t)
      → Ends s.item s.world o t
  unfolding discovery
  discovery-Ends s o t e =
      let (x, u, searched, rest) = bind-eq-returned (search_all r r.searchers) _ s e in
      finish s.item s.world x u o t (search_all-Searches r.searchers s x u searched) rest
