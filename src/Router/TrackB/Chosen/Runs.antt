-- ===== src/Router/TrackB/Chosen/Runs.antt =====
-- A choice that `Chooses` tells of is what a run of `discover_source` comes to.
use wyndpy.Base.{
  ℕ, String, List, [], ◌∷◌, Bool, true, false, Option, none, some, contains, string_eq, ◌≡◌, refl,
  ap, ◌∙◌, if◌then◌else◌,
}
use wyndpy.Base.Reply.{ok}
use wyndpy.Core.Results.{Candidate}
use wyndpy.Core.Item.{ResolvableItem, unresolved}
use wyndpy.Core.Protocols.{Searcher}
use wyndpy.Router.Setup.{Router}
use wyndpy.Router.Action.{
  State, Action, searched, trust_asked, returned, pure, gets, ◌>>=◌, ◌>>◌, continue, call,
  modify_item, upsert, search_for, ask_trust,
}
use wyndpy.Router.Keeps.{after, changed, bind-returned}
use wyndpy.Router.TrackB.{accept, scan, search_all}
use wyndpy.Router.TrackB.Chosen.{
  Picks, Chooses, none_left, seen, refused, trusted, nobody_left, hit, miss, chosen,
}

module _ {W : Type 0} (r : Router W) where
  -- A state with the item `i` and the world `w`.
  pub record Stands (i : ResolvableItem) (w : W) (s : State W) : Type 0 where
    pub item : s.item ≡ i
    pub world : s.world ≡ w

  ask_trust-run :
      (c : Candidate) (s : State W) (b : Bool) (u : W)
      → r.trust.is_trusted c s.world ≡ (ok b, u)
      → ask_trust r c s ≡ (returned b, after (trust_asked c) s u)
  unfolding ask_trust call
  ask_trust-run c s b u e = rw e refl

  search_for-run :
      (f : Searcher W) (query : String) (n : ℕ) (s : State W) (cs : List Candidate) (u : W)
      → f.search query n s.world ≡ (ok cs, u)
      → search_for f query n s ≡ (returned cs, after (searched f.name query n) s u)
  unfolding search_for call
  search_for-run f query n s cs u e = rw e refl

  -- A change of the item that can be saved.
  change-run :
      {A : Type 0} (f : ResolvableItem → ResolvableItem) (a : A) (s : State W) (x : W)
      → r.registry.upsert (f s.item) s.world ≡ (ok tt, x)
      → (do modify_item f; upsert r; pure a) s ≡ (returned a, changed (f s.item) s x)
  unfolding modify_item upsert call pure ◌>>=◌
  change-run f a s x e = rw e refl

  -- What a scan comes to: a candidate to accept, or none.
  abbrev last : Option Candidate → Action W (Option Candidate)
  last none = pure none
  last (some c) = accept r c

  scan-seen :
      (c : Candidate) (cs : List Candidate) (s : State W)
      → contains s.item.discovered_urls_seen c.url ≡ true
      → scan r (c ∷ cs) s ≡ scan r cs s
  unfolding scan ◌>>=◌
  scan-seen c cs s h = rw h refl

  scan-new :
      (c : Candidate) (cs : List Candidate) (s : State W) (b : Bool) (u : W)
      → contains s.item.discovered_urls_seen c.url ≡ false
      → r.trust.is_trusted c s.world ≡ (ok b, u)
      → scan r (c ∷ cs) s ≡ (if b then accept r c else scan r cs) (after (trust_asked c) s u)
  unfolding scan ◌>>=◌
  scan-new c cs s b u h e = rw h (bind-returned (ask_trust r c) _ s b _ (ask_trust-run c s b u e))

  is_new :
      (i : ResolvableItem) (c : Candidate) (w : W) (s : State W) (b : Bool) (x : Bool) (u : W)
      → Stands i w s
      → contains i.discovered_urls_seen c.url ≡ x
      → r.trust.is_trusted c w ≡ (ok b, u)
      → (contains s.item.discovered_urls_seen c.url ≡ x)
        × (r.trust.is_trusted c s.world ≡ (ok b, u))
  is_new i c w s b x u at h e = (
    ap (λ i. contains i.discovered_urls_seen c.url) at.item ∙ h,
    ap (λ w. r.trust.is_trusted c w) at.world ∙ e,
  )

  scan-run :
      (i : ResolvableItem) (cs : List Candidate) (w : W) (o : Option Candidate) (v : W)
      (s : State W)
      → Stands i w s
      → Picks r i cs w o v
      → (u : State W) × (scan r cs s ≡ last o u) × Stands i v u
  unfolding scan
  scan-run i _ w _ _ s at (none_left _) = (s, refl, at)
  scan-run i _ w _ _ s at (seen c cs o _ v old picks) =
      let (u, e, at') = scan-run i cs w o v s at picks in
      (u, scan-seen c cs s (ap (λ i. contains i.discovered_urls_seen c.url) at.item ∙ old) ∙ e, at')
  scan-run i _ w _ _ s at (refused c cs o _ u v new answer picks) =
      let (new', answer') = is_new i c w s false false u at new answer in
      let (x, e, at') =
        scan-run i cs u o v (after (trust_asked c) s u) (record { item = at.item; world = refl })
          picks in
      (x, scan-new c cs s false u new' answer' ∙ e, at')
  scan-run i _ w _ _ s at (trusted c cs _ u new answer) =
      let (new', answer') = is_new i c w s true false u at new answer in
      (
        after (trust_asked c) s u,
        scan-new c cs s true u new' answer',
        record { item = at.item; world = refl },
      )

  -- The rest of a search after a scan that came to `x`.
  abbrev onwards : List (Searcher W) → Option Candidate → Action W (Option Candidate)
  onwards fs x = elim x [ some c ↦ pure (some c) | none ↦ search_all r fs ]

  -- What follows the search.
  abbrev pub ending : Option Candidate → Action W (Option Candidate)
  ending x = elim x [
    | some c ↦ pure (some c)
    | none ↦ do modify_item (λ i. record i { status = unresolved }); upsert r; pure none
  ]

  search_all-step :
      (f : Searcher W) (fs : List (Searcher W)) (cs : List Candidate) (s : State W) (u : W)
      → f.search s.item.query_hint r.config.candidate_count s.world ≡ (ok cs, u)
      → search_all r (f ∷ fs) s
        ≡ (scan r cs >>= onwards fs)
            (after (searched f.name s.item.query_hint r.config.candidate_count) s u)
  unfolding search_all gets
  search_all-step f fs cs s u e =
      bind-returned (gets (λ s. s.item)) _ s s.item s refl
      ∙ bind-returned (search_for f s.item.query_hint r.config.candidate_count) _ s cs _
          (search_for-run f _ _ s cs u e)

  -- Two sequences that agree after their first parts.
  bind-same :
      {A B : Type 0} (m m' : Action W A) (k : A → Action W B) (s u : State W)
      → m s ≡ m' u
      → (m >>= k) s ≡ (m' >>= k) u
  unfolding ◌>>=◌
  bind-same m m' k s u e = ap (λ q. continue q.0 k q.1) e

  saved_at :
      (i : ResolvableItem) (w : W) (s : State W) (o : Option Candidate) (x : W)
      → Stands i w s
      → r.registry.upsert (chosen o i) w ≡ (ok tt, x)
      → r.registry.upsert (chosen o s.item) s.world ≡ (ok tt, x)
  saved_at i w s o x at e =
      ap (λ i. r.registry.upsert (chosen o i) s.world) at.item
      ∙ ap (λ w. r.registry.upsert (chosen o i) w) at.world
      ∙ e

  -- The search from a state with the item `i`, as far as the first searcher's candidates.
  asked-run :
      (i : ResolvableItem) (f : Searcher W) (fs : List (Searcher W)) (cs : List Candidate)
      (o : Option Candidate) (w u v : W) (s : State W)
      → Stands i w s
      → f.search i.query_hint r.config.candidate_count w ≡ (ok cs, u)
      → Picks r i cs u o v
      → (p : State W) × (search_all r (f ∷ fs) s ≡ (last o >>= onwards fs) p) × Stands i v p
  asked-run i f fs cs o w u v s at answer picks =
      let answer' =
        ap (λ i. f.search i.query_hint r.config.candidate_count s.world) at.item
        ∙ ap (λ w. f.search i.query_hint r.config.candidate_count w) at.world
        ∙ answer in
      let (p, e, at') = scan-run i cs u o v _ (record { item = at.item; world = refl }) picks in
      (p, search_all-step f fs cs s u answer' ∙ bind-same _ _ _ _ p e, at')

  pub search-run :
      (i : ResolvableItem) (fs : List (Searcher W)) (w : W) (o : Option Candidate) (v x : W)
      (s : State W)
      → Stands i w s
      → r.registry.upsert (chosen o i) v ≡ (ok tt, x)
      → Chooses r i fs w o v
      → (t : State W) × ((search_all r fs >>= ending) s ≡ (returned o, t)) × Stands (chosen o i) x t
  unfolding search_all pure accept
  search-run i _ w _ _ x s at saved (nobody_left _) = (
    changed (chosen none s.item) s x,
    bind-returned (search_all r []) ending s none s refl
        ∙ change-run (chosen none) none s x (saved_at i w s none x at saved),
    record { item = ap (chosen none) at.item; world = refl },
  )
  search-run i _ w _ _ x s at saved (hit f fs cs c _ u v answer picks) =
      let (p, e, at') = asked-run i f fs cs (some c) w u v s at answer picks in
      let t = changed (chosen (some c) p.item) p x in
      let kept = change-run (chosen (some c)) (some c) p x (saved_at i v p (some c) x at' saved) in
      (
        t,
        bind-returned (search_all r (f ∷ fs)) ending s (some c) t
            (e ∙ bind-returned (accept r c) (onwards fs) p (some c) t kept),
        record { item = ap (chosen (some c)) at'.item; world = refl },
      )
  search-run i _ w _ _ x s at saved (miss f fs cs o _ u v y answer picks chooses) =
      let (p, e, at') = asked-run i f fs cs none w u v s at answer picks in
      let (t, e', at'') = search-run i fs v o y x p at' saved chooses in
      (
        t,
        bind-same (search_all r (f ∷ fs)) (search_all r fs) ending s p
              (e ∙ bind-returned (pure none) (onwards fs) p none p refl)
            ∙ e',
        at'',
      )
