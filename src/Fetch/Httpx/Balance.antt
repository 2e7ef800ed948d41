-- ===== src/Fetch/Httpx/Balance.antt =====
-- The httpx adapter closes the clients that it opens.
use wyndpy.Base.{
  ℕ, suc, ◌+◌, String, List, [], ◌∷◌, Bool, true, false, none, some, ◌==◌, string_eq, ◌≡◌, refl,
  sym, ap, ◌∙◌, inl, inr, Option-cases, arith, if◌then◌else◌,
}
use wyndpy.Base.Reply.{Reply, ok, raised, Reply-cases}
use wyndpy.Base.Value.{Float}
use wyndpy.Fetch.Network.{Platform, Http, Response}
use wyndpy.Fetch.Guard.{resolve_host}
use wyndpy.Fetch.Guard.Safety.{url_allowed-Keeps}
use wyndpy.Fetch.Httpx.{
  HttpxFetcher, allowed, on_response, after_get, ensure_client, after_guard, fetch, close,
}
use wyndpy.Fetch.Httpx.Client.{Call, fetch_url, close_it, step, run}
use wyndpy.Fetch.Httpx.Effects.{after_redirect-world}

abbrev pub as_count : Bool → ℕ
as_count true = 1
as_count false = 0

module _ {W C : Type 0} (os : Platform W) (http : Http W C) where
  -- How many clients are open and which, as `httpx` tells it: `aclose` leaves a client closed, also
  -- when it raises, and does nothing to one that is closed; a new client is open; a lookup or a GET
  -- neither opens nor closes any.
  pub record Counts (count : W → ℕ) (is_open : C → W → Bool) : Type 0 where
    pub lookup : (host : String) (w : W) → count (resolve_host os host w).1 ≡ count w
    pub lookup_open :
        (c : C) (host : String) (w : W) → is_open c (resolve_host os host w).1 ≡ is_open c w
    pub create :
        (timeout_s : Float) (headers : List (String × String)) (redirects : Bool) (w : W)
        → count (http.new_client timeout_s headers redirects w).1 ≡ suc (count w)
    pub create_open :
        (timeout_s : Float) (headers : List (String × String)) (redirects : Bool) (w : W)
        → (let (c, w1) = http.new_client timeout_s headers redirects w in is_open c w1) ≡ true
    pub get : (c : C) (url : String) (w : W) → count (http.get c url [] w).1 ≡ count w
    pub get_open : (c : C) (url : String) (w : W) → is_open c (http.get c url [] w).1 ≡ is_open c w
    pub close : (c : C) (w : W) → count (http.aclose c w).1 + as_count (is_open c w) ≡ count w
    pub close_open : (c : C) (w : W) → is_open c (http.aclose c w).1 ≡ false

  -- The open clients that a fetcher holds.
  abbrev pub held : (C → W → Bool) → HttpxFetcher C → W → ℕ
  held is_open f w = elim f.client [ none ↦ 0 | some c ↦ as_count (is_open c w) ]

  -- The fetcher owns its client, and beside what it holds `others` clients are open.
  pub record IsBalanced (count : W → ℕ) (is_open : C → W → Bool) (others : ℕ)
      (s : HttpxFetcher C × W) : Type 0 where
    pub owned : s.0.owns_client ≡ true
    pub total : count s.1 ≡ held is_open s.0 s.1 + others

  -- After a call of `close` only the others are open, whether it raises or not, and if it returns,
  -- the fetcher holds no client.
  pub record IsClosed (count : W → ℕ) (others : ℕ) (x : Reply (Unit {0}) × (HttpxFetcher C × W))
      : Type 0 where
    pub owned : x.1.0.owns_client ≡ true
    pub total : count x.1.1 ≡ others
    pub released : x.0 ≡ ok tt → x.1.0.client ≡ none

  close-IsClosed :
      (count : W → ℕ) (is_open : C → W → Bool) (others : ℕ) (f : HttpxFetcher C) (w : W)
      → Counts count is_open
      → IsBalanced count is_open others (f, w)
      → IsClosed count others (close os http f w)
  unfolding close
  close-IsClosed count is_open others f w counts h = elim (Option-cases f.client) [
    | inl free ↦ record {
      owned = ground (arith, h.owned, free);
      total = ground (arith, h.total, free);
      released = ground (arith, free);
    }
    | inr (c, held_it) ↦ elim (Reply-cases (http.aclose c w).0) [
      | inl (u, gone) ↦ record {
        owned = ground (arith, h.owned, held_it, gone);
        total = ground (arith, h.owned, h.total, held_it, gone, counts.close c w);
        released = ground (arith, h.owned, held_it, gone);
      }
      | inr (e, failed) ↦ record {
        owned = ground (arith, h.owned, held_it, failed);
        total = ground (arith, h.owned, h.total, held_it, failed, counts.close c w);
        released = ground (arith, h.owned, held_it, failed);
      }
    ]
  ]

  -- What a fetcher holds after a call of `close` is closed.
  close-held :
      (count : W → ℕ) (is_open : C → W → Bool) (f : HttpxFetcher C) (w : W)
      → Counts count is_open
      → f.owns_client ≡ true
      → held is_open (close os http f w).1.0 (close os http f w).1.1 ≡ 0
  unfolding close
  close-held count is_open f w counts owned = elim (Option-cases f.client) [
    | inl free ↦ ground (arith, free)
    | inr (c, held_it) ↦ elim (Reply-cases (http.aclose c w).0) [
      | inl (u, gone) ↦ ground (arith, owned, held_it, gone)
      | inr (e, failed) ↦ ground (arith, owned, held_it, failed, counts.close_open c w)
    ]
  ]

  close-IsBalanced :
      (count : W → ℕ) (is_open : C → W → Bool) (others : ℕ) (f : HttpxFetcher C) (w : W)
      → Counts count is_open
      → IsBalanced count is_open others (f, w)
      → IsBalanced count is_open others (close os http f w).1
  close-IsBalanced count is_open others f w counts h =
      let closed = close-IsClosed count is_open others f w counts h in
      record {
        owned = closed.owned;
        total = omega (arith, closed.total, close-held count is_open f w counts h.owned);
      }

  allowed-same :
      (count : W → ℕ) (is_open : C → W → Bool) (f : HttpxFetcher C) (url : String) (w : W)
      → Counts count is_open
      → (count (allowed os http f url w).1 ≡ count w)
        × ((c : C) → is_open c (allowed os http f url w).1 ≡ is_open c w)
  allowed-same count is_open f url w counts =
      url_allowed-Keeps os (λ v. (count v ≡ count w) × ((c : C) → is_open c v ≡ is_open c w))
        (λ host v (same, opens).
          (counts.lookup host v ∙ same, λ c. counts.lookup_open c host v ∙ opens c))
        (λ host. host) f.allowlist_domains url w (refl, λ c. refl)

  after_get-same :
      (count : W → ℕ) (is_open : C → W → Bool) (f : HttpxFetcher C) (url : String)
      (reply : Reply Response × W)
      → Counts count is_open
      → (count (after_get os http f url reply).1 ≡ count reply.1)
        × ((c : C) → is_open c (after_get os http f url reply).1 ≡ is_open c reply.1)
  unfolding after_get on_response
  after_get-same count is_open f url (raised e, w) counts = (refl, λ c. refl)
  after_get-same count is_open f url (ok resp, w) counts =
      let guard : Reply Bool × W =
        if resp.url == url then (ok true, w) else allowed os http f resp.url w in
      let same = after_redirect-world os http f url resp guard in
      let (counted, opens) = allowed-same count is_open f resp.url w counts in
      (ap count same ∙ ground (arith, counted), λ c. ap (is_open c) same ∙ ground (arith, opens c))

  ensure_client-IsBalanced :
      (count : W → ℕ) (is_open : C → W → Bool) (others : ℕ) (f : HttpxFetcher C) (w : W)
      → Counts count is_open
      → IsBalanced count is_open others (f, w)
      → IsBalanced count is_open others (ensure_client os http f w).1
  unfolding ensure_client
  ensure_client-IsBalanced count is_open others f w counts h = elim (Option-cases f.client) [
    | inl free ↦ record {
      owned = ground (arith, h.owned, free);
      total = ground (
        arith,
        h.total,
        free,
        counts.create f.timeout_s (("User-Agent", f.user_agent) ∷ []) true w,
        counts.create_open f.timeout_s (("User-Agent", f.user_agent) ∷ []) true w,
      );
    }
    | inr (c, held_it) ↦ record {
      owned = ground (arith, h.owned, held_it);
      total = ground (arith, h.total, held_it);
    }
  ]

  ensure_client-holds :
      (f : HttpxFetcher C) (w : W)
      → (ensure_client os http f w).1.0.client ≡ some (ensure_client os http f w).0
  unfolding ensure_client
  ensure_client-holds f w = elim (Option-cases f.client) [
    | inl free ↦ ground (arith, free)
    | inr (c, held_it) ↦ ground (arith, held_it)
  ]

  held-same :
      (is_open : C → W → Bool) (f : HttpxFetcher C) (c : C) (w v : W)
      → f.client ≡ some c
      → is_open c v ≡ is_open c w
      → held is_open f v ≡ held is_open f w
  held-same is_open f c w v held_it opens = rw held_it (ap as_count opens)

  same-IsBalanced :
      (count : W → ℕ) (is_open : C → W → Bool) (others : ℕ) (f : HttpxFetcher C) (w v : W)
      → count v ≡ count w
      → ((c : C) → is_open c v ≡ is_open c w)
      → IsBalanced count is_open others (f, w)
      → IsBalanced count is_open others (f, v)
  same-IsBalanced count is_open others f w v same opens h = elim (Option-cases f.client) [
    | inl free ↦ record { owned = h.owned; total = ground (arith, h.total, same, free) }
    | inr (c, held_it) ↦ record {
      owned = h.owned;
      total = omega (arith, h.total, same, held-same is_open f c w v held_it (opens c));
    }
  ]

  after_guard-IsBalanced :
      (count : W → ℕ) (is_open : C → W → Bool) (others : ℕ) (f : HttpxFetcher C) (url : String)
      (guard : Reply Bool × W)
      → Counts count is_open
      → IsBalanced count is_open others (f, guard.1)
      → IsBalanced count is_open others (after_guard os http f url guard).1
  unfolding after_guard
  after_guard-IsBalanced count is_open others f url (raised e, w) counts h = h
  after_guard-IsBalanced count is_open others f url (ok false, w) counts h = h
  after_guard-IsBalanced count is_open others f url (ok true, w) counts h =
      let (c, (f1, w1)) = ensure_client os http f w in
      let h1 = ensure_client-IsBalanced count is_open others f w counts h in
      let got = http.get c url [] w1 in
      let (same, opens) = after_get-same count is_open f1 url got counts in
      let v = (after_get os http f1 url got).1 in
      record {
        owned = h1.owned;
        total =
            same
            ∙ counts.get c url w1
            ∙ h1.total
            ∙ ap (λ n. n + others)
                (sym (
                  held-same is_open f1 c w1 v (ensure_client-holds f w)
                    (opens c ∙ counts.get_open c url w1)));
      }

  step-IsBalanced :
      (count : W → ℕ) (is_open : C → W → Bool) (others : ℕ) (call : Call) (s : HttpxFetcher C × W)
      → Counts count is_open
      → IsBalanced count is_open others s
      → IsBalanced count is_open others (step os http call s)
  unfolding fetch
  step-IsBalanced count is_open others (fetch_url url) (f, w) counts h =
      let (same, opens) = allowed-same count is_open f url w counts in
      after_guard-IsBalanced count is_open others f url (allowed os http f url w) counts
        (same-IsBalanced count is_open others f w (allowed os http f url w).1 same opens h)
  step-IsBalanced count is_open others close_it (f, w) counts h =
      close-IsBalanced count is_open others f w counts h

  -- Over any calls, a fetcher that owns its client has no client open but the one that it holds, as
  -- long as clients are opened and closed as `httpx` does it; a call of `close` after them, whether
  -- it raises or not, leaves none open, and if it returns, the fetcher holds none.
  pub run-IsBalanced :
      (count : W → ℕ) (is_open : C → W → Bool) (others : ℕ) (calls : List Call)
      (s : HttpxFetcher C × W)
      → Counts count is_open
      → IsBalanced count is_open others s
      → (let (f, w) = run os http calls s in
          IsBalanced count is_open others (f, w) × IsClosed count others (close os http f w))
  run-IsBalanced count is_open others [] (f, w) counts h =
      (h, close-IsClosed count is_open others f w counts h)
  run-IsBalanced count is_open others (call ∷ calls) s counts h =
      run-IsBalanced count is_open others calls (step os http call s) counts
        (step-IsBalanced count is_open others call s counts h)
