-- ===== src/Fetch/Httpx/Effects.antt =====
-- What a fetch of the httpx adapter may do to the world outside.
use wyndpy.Base.{
  String, List, [], ◌∷◌, Bool, true, false, ◌==◌, string_eq, ◌≡◌, refl, inl, inr, Bool-cases,
  Option-cases, arith, if◌then◌else◌,
}
use wyndpy.Base.Reply.{Reply, ok, raised}
use wyndpy.Base.Value.{Float}
use wyndpy.Fetch.Network.{Platform, Http, Response}
use wyndpy.Fetch.Guard.Safety.{LookupKeeps, url_allowed-IsAllowed, url_allowed-Keeps}
use wyndpy.Fetch.Httpx.{
  HttpxFetcher, after_redirect, allowed, on_response, after_get, ensure_client, after_guard, fetch,
}
use wyndpy.Fetch.Httpx.Safety.{IsOpen}

module _ {W C : Type 0} (os : Platform W) (http : Http W C) where
  pub after_redirect-world :
      (f : HttpxFetcher C) (url : String) (resp : Response) (guard : Reply Bool × W)
      → (after_redirect os http f url resp guard).1 ≡ guard.1
  unfolding after_redirect
  after_redirect-world f url resp (raised e, w) = refl
  after_redirect-world f url resp (ok false, w) = refl
  after_redirect-world f url resp (ok true, w) = refl

module _ {W C : Type 0} (os : Platform W) (http : Http W C) (Q : W → Type 0) where
  -- Lookups, new clients, and GETs of URLs that the guard allows keep `Q`.
  pub record Allows (f : HttpxFetcher C) : Type 0 where
    pub lookup : LookupKeeps os Q
    pub create :
        (timeout_s : Float) (headers : List (String × String)) (redirects : Bool) (w : W)
        → Q w
        → Q (http.new_client timeout_s headers redirects w).1
    pub get :
        (c : C) (url : String) (v w : W) → IsOpen os http f url v → Q w → Q (http.get c url [] w).1

  allowed-Keeps :
      (f : HttpxFetcher C) (url : String) (w : W) → Allows f → Q w → Q (allowed os http f url w).1
  allowed-Keeps f url w allows q =
      url_allowed-Keeps os Q allows.lookup (λ host. host) f.allowlist_domains url w q

  after_get-Keeps :
      (f g : HttpxFetcher C) (url : String) (reply : Reply Response × W)
      → Allows f
      → g.allowlist_domains ≡ f.allowlist_domains
      → Q reply.1
      → Q (after_get os http g url reply).1
  unfolding after_get on_response
  after_get-Keeps f g url (raised e, w) allows same q = q
  after_get-Keeps f g url (ok resp, w) allows same q =
      rw
        (after_redirect-world os http g url resp
          (if resp.url == url then (ok true, w) else allowed os http g resp.url w))
        (elim (Bool-cases (resp.url == url)) [
          | inl stayed ↦ ground (arith, q, stayed)
          | inr moved ↦ ground (
            arith,
            moved,
            url_allowed-Keeps os Q allows.lookup (λ host. host) g.allowlist_domains resp.url w q,
          )
        ])

  ensure_client-Keeps :
      (f : HttpxFetcher C) (w : W)
      → Allows f
      → Q w
      → let after : HttpxFetcher C × W = (ensure_client os http f w).1 in
        (after.0.allowlist_domains ≡ f.allowlist_domains) × Q after.1
  unfolding ensure_client
  ensure_client-Keeps f w allows q = elim (Option-cases f.client) [
    | inl fresh ↦
        ground
          (arith, fresh, allows.create f.timeout_s (("User-Agent", f.user_agent) ∷ []) true w q)
    | inr (c, kept) ↦ ground (arith, kept, q)
  ]

  after_guard-Keeps :
      (f : HttpxFetcher C) (url : String) (v : W) (guard : Reply Bool × W)
      → Allows f
      → (guard.0 ≡ ok true → IsOpen os http f url v)
      → Q guard.1
      → Q (after_guard os http f url guard).1.1
  unfolding after_guard
  after_guard-Keeps f url v (raised e, w) allows is_open q = q
  after_guard-Keeps f url v (ok false, w) allows is_open q = q
  after_guard-Keeps f url v (ok true, w) allows is_open q =
      let (c, (g, w1)) = ensure_client os http f w in
      let (same, q1) = ensure_client-Keeps f w allows q in
      after_get-Keeps f g url (http.get c url [] w1) allows same
        (allows.get c url v w1 (is_open refl) q1)

  -- Whatever property of the world name lookups, new clients and GETs of URLs that the guard allows
  -- keep, `fetch` keeps: it makes no other call.
  pub fetch-Keeps :
      (f : HttpxFetcher C) (url : String) (w : W) → Allows f → Q w → Q (fetch os http f url w).1.1
  unfolding fetch
  fetch-Keeps f url w allows q =
      after_guard-Keeps f url w (allowed os http f url w) allows
        (url_allowed-IsAllowed os (λ host. host) f.allowlist_domains url w)
        (allowed-Keeps f url w allows q)
