-- ===== src/Router/TrackB/Chosen/Outcome.antt =====
-- The outcome of `discover_source`, told by the answers of the adapters.
use wyndpy.Base.{◌∷◌, Option, ◌≡◌, ◌↔◌, refl, sym, ap, ◌∙◌}
use wyndpy.Base.Reply.{ok}
use wyndpy.Core.Results.{Candidate}
use wyndpy.Core.Item.{ResolvableItem}
use wyndpy.Router.Setup.{Router}
use wyndpy.Router.Action.{
  State, acquired, released, returned, setdefault_lock, ◌>>=◌, lock_for, with_lock,
}
use wyndpy.Router.TrackB.{discovery, discover_source}
use wyndpy.Router.TrackB.Chosen.{Chooses, chosen}
use wyndpy.Router.TrackB.Chosen.Found.{discovery-Ends}
use wyndpy.Router.TrackB.Chosen.Runs.{Stands, search-run}

module _ {W : Type 0} (r : Router W) where
  discovery-run :
      (s : State W) (o : Option Candidate) (v x : W)
      → Chooses r s.item r.searchers s.world o v
      → r.registry.upsert (chosen o s.item) v ≡ (ok tt, x)
      → (t : State W) × (discovery r s ≡ (returned o, t)) × Stands r (chosen o s.item) x t
  unfolding discovery
  discovery-run s o v x chooses saved =
      search-run r s.item r.searchers s.world o v x s (record { item = refl; world = refl }) saved
        chooses

  -- The state in which the body of `discover_source` starts.
  start : State W → State W
  start s =
      let found = setdefault_lock s.item.id s.locks in
      record s { locks = found.1; history = acquired found.0 ∷ s.history }

  -- A run of `discover_source` returns `o`, and leaves the item `i` and the world `x`, exactly if
  -- `o` is the first candidate, in the order of the searchers and of their answers, whose URL was
  -- not seen before and that the trust strategy trusts, or `None` where every searcher has
  -- answered and no candidate is of this kind; and `i`, the item with `o` merged into it or marked
  -- unresolved, is saved, from which the world is `x`.
  pub discover_source-Chooses :
      (s : State W) (o : Option Candidate) (i : ResolvableItem) (x : W)
      → ((t : State W) × (discover_source r s ≡ (returned o, t)) × (t.item ≡ i) × (t.world ≡ x)) ↔ (
          (v : W) × Chooses r s.item r.searchers s.world o v
          × (chosen o s.item ≡ i)
          × (r.registry.upsert i v ≡ (ok tt, x)))
  unfolding discover_source ◌>>=◌ lock_for with_lock start
  discover_source-Chooses s o i x = (
    λ p.
        let (t, e, item, world) = p in
        let run = discovery r (start s) in
        let (v, chooses, (same, saved)) =
          discovery-Ends r (start s) o run.1 (λ k. ((e k).0, run.1)) in
        let run_item : run.1.item ≡ i = (λ k. (e k).1.item) ∙ item in
        let run_world : run.1.world ≡ x = (λ k. (e k).1.world) ∙ world in
        (
          v,
          chooses,
          sym same ∙ run_item,
          ap (λ i. r.registry.upsert i v) (sym run_item) ∙ saved ∙ ap (λ w. (ok tt, w)) run_world,
        ),
    λ p.
        let (v, chooses, same, saved) = p in
        let (t, e, at) =
          discovery-run (start s) o v x chooses (ap (λ i. r.registry.upsert i v) same ∙ saved) in
        let lock = (setdefault_lock s.item.id s.locks).0 in
        (
          record t { history = released lock ∷ t.history },
          ap (λ q. (q.0, record q.1 { history = released lock ∷ q.1.history })) e,
          at.item ∙ same,
          at.world,
        ),
  )
