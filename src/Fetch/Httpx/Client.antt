-- ===== src/Fetch/Httpx/Client.antt =====
-- The life of the client that the httpx adapter keeps, over calls of `fetch` and `close`.
use wyndpy.Base.{
  String, List, [], ◌∷◌, Bool, true, false, some, string_eq, ◌≡◌, refl, sym, ap, ◌∙◌, subst, arith,
}
use wyndpy.Base.Reply.{Reply, ok, raised}
use wyndpy.Fetch.Network.{Platform, Http}
use wyndpy.Fetch.Httpx.{HttpxFetcher, allowed, ensure_client, after_guard, fetch, close}

-- A call of a method of the fetcher.
pub data Call : Type 0 where
  fetch_url : String → Call
  close_it : Call

-- The calls of `fetch` alone.
abbrev pub fetches_of : List Call → List Call
fetches_of [] = []
fetches_of (fetch_url url ∷ calls) = fetch_url url ∷ fetches_of calls
fetches_of (close_it ∷ calls) = fetches_of calls

module _ {W C : Type 0} (os : Platform W) (http : Http W C) where
  -- What is left of the fetcher and the world after a call, whatever it gives.
  abbrev pub step : Call → HttpxFetcher C × W → HttpxFetcher C × W
  step (fetch_url url) (f, w) = (fetch os http f url w).1
  step close_it (f, w) = (close os http f w).1

  abbrev pub run : List Call → HttpxFetcher C × W → HttpxFetcher C × W
  run [] s = s
  run (c ∷ cs) s = run cs (step c s)

  -- A fetcher with a client that the caller has given.
  pub record IsInjected (c : C) (f : HttpxFetcher C) : Type 0 where
    pub client : f.client ≡ some c
    pub owned : f.owns_client ≡ false

  after_guard-injected :
      (c : C) (f : HttpxFetcher C) (url : String) (guard : Reply Bool × W)
      → IsInjected c f
      → (after_guard os http f url guard).1.0 ≡ f
  unfolding after_guard ensure_client
  after_guard-injected c f url (raised e, w) h = refl
  after_guard-injected c f url (ok false, w) h = refl
  after_guard-injected c f url (ok true, w) h = ground (arith, h.client)

  step-injected :
      (c : C) (call : Call) (f : HttpxFetcher C) (w : W) → IsInjected c f → (step call (f, w)).0 ≡ f
  unfolding fetch close
  step-injected c (fetch_url url) f w h = after_guard-injected c f url (allowed os http f url w) h
  step-injected c close_it f w h = ground (arith, h.client, h.owned)

  close-injected :
      (c : C) (f : HttpxFetcher C) (w : W) → IsInjected c f → close os http f w ≡ (ok tt, (f, w))
  unfolding close
  close-injected c f w h = ground (arith, h.client, h.owned)

  -- A fetcher with a client that the caller has given stays as it is over any calls, and its calls
  -- of `close` make no difference to the world or to what comes after them.
  pub run-injected :
      (c : C) (calls : List Call) (f : HttpxFetcher C) (w : W)
      → IsInjected c f
      → ((run calls (f, w)).0 ≡ f) × (run calls (f, w) ≡ run (fetches_of calls) (f, w))
  run-injected c [] f w h = (refl, refl)
  run-injected c (fetch_url url ∷ calls) f w h =
      let (g, v) = step (fetch_url url) (f, w) in
      let same : g ≡ f = step-injected c (fetch_url url) f w h in
      let (kept, rest) = run-injected c calls g v (subst (IsInjected c) (sym same) h) in
      (kept ∙ same, rest)
  run-injected c (close_it ∷ calls) f w h =
      let (kept, rest) = run-injected c calls f w h in
      let same : step close_it (f, w) ≡ (f, w) = ap (λ x. x.1) (close-injected c f w h) in
      (ap (λ s. (run calls s).0) same ∙ kept, ap (run calls) same ∙ rest)
