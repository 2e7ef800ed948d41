-- ===== src/Router/TrackA/Endings.antt =====
-- The ways in which `resolve_known_source` can return.
use wyndpy.Base.{
  false, ℕ, zero, suc, ◌+◌, String, List, [], ◌∷◌, Option, none, some, contains, length, ℕ_eq,
  string_eq, ◌≡◌, refl, sym, ap, subst, ◌∙◌, inl, inr, Bool-cases, arith,
}
use wyndpy.Base.Reply.{Exception}
use wyndpy.Core.Results.{RetrievalError, Retrieval, result, error}
use wyndpy.Core.Protocols.{Fetcher}
use wyndpy.Router.Setup.{Router}
use wyndpy.Router.Action.{
  State, Action, acquired, released, Exit, setdefault_lock, returned, failed, pure, raise, ◌>>=◌,
  lock_for, with_lock,
}
use wyndpy.Router.Keeps.{bind-eq-returned}
use wyndpy.Router.TrackA.{
  no_fetchers, fetch_with_retry, on_result, escalate, walk, fetch_first, known_source,
  resolve_known_source,
}
use wyndpy.Router.TrackA.Outcomes.{
  Verdict, settled_by, all_failed, Tries, nowhere, again, succeeds, leads_on, Ending,
  fetch_with_retry-item, not_exhaust, exhausted-Ending, on_result-Ending,
}

-- What a run comes to from the given round on.
pub record Settled {W : Type 0} (r : Router W) (url : String) (current : Option (Fetcher W)) (i : ℕ)
    (e : Option RetrievalError) (visited : List ℕ) (s : State W) (o : Retrieval) (t : State W)
    : Type 0 where
  pub verdict : Verdict W
  pub after : State W
  pub tries : Tries r url current i e visited s verdict after
  pub same_item : after.item ≡ s.item
  pub ending : Ending r after verdict o t

module _ {W : Type 0} (r : Router W) where
  round-Settled :
      (url : String) (fuel : ℕ) (f : Fetcher W) (i : ℕ) (last_error : Option RetrievalError)
      (visited : List ℕ) (s : State W) {o : Retrieval} {t : State W}
      → contains visited f.object_id ≡ false
      → ((c : Option (Fetcher W)) (j : ℕ) (x : RetrievalError) (v : List ℕ) (w : State W)
          → walk r fuel url c j (some x) v w ≡ (returned o, t)
          → Settled r url c j (some x) v w o t)
      → walk r (suc fuel) url (some f) i last_error visited s ≡ (returned o, t)
      → Settled r url (some f) i last_error visited s o t
  unfolding walk
  round-Settled url fuel f i last_error visited s {o} {t} new later e =
      let (outcome, u, fetched, rest) = bind-eq-returned _ _ s (rw new at e) in
      next outcome u fetched (ap (λ q. q.1.item) (sym fetched) ∙ fetch_with_retry-item r f url s)
        rest
    where
      next :
          (outcome : Retrieval) (u : State W)
          → fetch_with_retry r f url s ≡ (returned outcome, u)
          → u.item ≡ s.item
          → (let round : Action W Retrieval = elim outcome [
            | result res ↦ on_result r f res
            | error x ↦
                walk r fuel url
                  (escalate r f x.error_type (i + 1))
                  (i + 1)
                  (some x)
                  (f.object_id ∷ visited)
          ] in
              round u ≡ (returned o, t))
          → Settled r url (some f) i last_error visited s o t
      next (result res) u fetched item h = record {
        verdict = settled_by f res;
        after = u;
        tries = succeeds new fetched;
        same_item = item;
        ending = on_result-Ending r f res u h;
      }
      next (error x) u fetched item h =
          let rest =
            later (escalate r f x.error_type (i + 1)) (i + 1) x (f.object_id ∷ visited) u h in
          record {
            verdict = rest.verdict;
            after = rest.after;
            tries = leads_on new fetched rest.tries;
            same_item = rest.same_item ∙ item;
            ending = rest.ending;
          }

  walk-Settled :
      (url : String) (fuel : ℕ) (current : Option (Fetcher W)) (i : ℕ) (x : RetrievalError)
      (visited : List ℕ) (s : State W) {o : Retrieval} {t : State W}
      → walk r fuel url current i (some x) visited s ≡ (returned o, t)
      → Settled r url current i (some x) visited s o t
  unfolding walk
  walk-Settled url fuel none i x visited s e = record {
    verdict = all_failed x;
    after = s;
    tries = nowhere;
    same_item = refl;
    ending = exhausted-Ending r x s e;
  }
  walk-Settled url zero (some f) i x visited s e =
      elim (Bool-cases (contains visited f.object_id)) [
        | inl old ↦ record {
          verdict = all_failed x;
          after = s;
          tries = again old;
          same_item = refl;
          ending = exhausted-Ending r x s (rw old at e);
        }
        | inr new ↦ absurd (not_exhaust r s (rw new at e))
      ]
  walk-Settled url (suc fuel) (some f) i x visited s {o} {t} e =
      elim (Bool-cases (contains visited f.object_id)) [
        | inl old ↦ record {
          verdict = all_failed x;
          after = s;
          tries = again old;
          same_item = refl;
          ending = exhausted-Ending r x s (rw old at e);
        }
        | inr new ↦
            round-Settled url fuel f i (some x) visited s new
              (λ c j y v w h. walk-Settled url fuel c j y v w h) e
      ]

  fetch_first-Settled :
      (f : Fetcher W) (fs : List (Fetcher W))
      → r.fetchers ≡ f ∷ fs
      → (id : String) (sources : List String) (s : State W) {o : Retrieval} {t : State W}
      → fetch_first r id sources s ≡ (returned o, t)
      → (url : String) × (others : List String) × (sources ≡ url ∷ others)
        × Settled r url (some f) 0 none [] s o t
  unfolding fetch_first raise pure
  fetch_first-Settled f fs some_fetcher id [] s e = absurd (raised_lem e)
    where
      raised_lem :
          {x : Exception} {s t : State W} {o : Retrieval}
          → ¬ (◌≡◌ {A = Exit Retrieval × State W} (failed x, s) (returned o, t))
      raised_lem e = ground arith
  fetch_first-Settled f fs some_fetcher id (url ∷ others) s {o} {t} e =
      (url, others, refl, go r.fetchers some_fetcher e)
    where
      go :
          (gs : List (Fetcher W))
          → gs ≡ f ∷ fs
          → (let start : Action W Retrieval = elim gs [
            | [] ↦ pure (error no_fetchers)
            | g ∷ _ ↦ walk r (length r.fetchers) url (some g) 0 none []
          ] in
              start s ≡ (returned o, t))
          → Settled r url (some f) 0 none [] s o t
      go [] there e = cc
      go (g ∷ _) there e =
          let same : g ≡ f = ground (arith, there) in
          subst (λ g. Settled r url (some g) 0 none [] s o t) same
            (round-Settled url (length fs) g 0 none [] s refl
              (λ c j y v w h. walk-Settled url (length fs) c j y v w h)
              (subst (λ gs. walk r (length gs) url (some g) 0 none [] s ≡ (returned o, t))
                some_fetcher e))

  -- With a fetcher to try, a run of `resolve_known_source` that returns has taken its lock, fetched
  -- the item's first source from the first fetcher and, on each error, from where it escalates to,
  -- until one gave a result or none was left that was not tried, all with the item as it was. The
  -- result is then kept, that is returned and saved with its hash, if its hash is the item's or no
  -- parser is chosen for it, and else its bytes go to that parser, whose answer is returned and
  -- nothing is saved, or are reported missing; without a result the last error is returned and the
  -- item saved as exhausted. Then the lock is given back.
  pub resolve_known_source-Ending :
      (f : Fetcher W) (fs : List (Fetcher W)) (s t : State W) (o : Retrieval)
      → r.fetchers ≡ f ∷ fs
      → resolve_known_source r s ≡ (returned o, t)
      → (url : String) × (others : List String) × (lock : ℕ) × (s' : State W) × (u : State W)
        × (s.item.current_sources ≡ url ∷ others)
        × (s'.item ≡ s.item)
        × (s'.world ≡ s.world)
        × (s'.history ≡ acquired lock ∷ s.history)
        × Settled r url (some f) 0 none [] s' o u
        × (t.item ≡ u.item)
        × (t.history ≡ released lock ∷ u.history)
  unfolding resolve_known_source known_source ◌>>=◌ lock_for with_lock
  resolve_known_source-Ending f fs s t o some_fetcher e =
      let found = setdefault_lock s.item.id s.locks in
      let s' : State W = record s { locks = found.1; history = acquired found.0 ∷ s.history } in
      let run = fetch_first r s.item.id s.item.current_sources s' in
      let (url, others, first, settled) =
        fetch_first-Settled f fs some_fetcher s.item.id s.item.current_sources s'
          (λ k. ((e k).0, run.1)) in
      (
        url,
        others,
        found.0,
        s',
        run.1,
        first,
        refl,
        refl,
        refl,
        settled,
        (λ k. (sym e k).1.item),
        (λ k. (sym e k).1.history),
      )
