-- ===== src/Fetch/Httpx/Safety.antt =====
-- What a fetch of the httpx adapter may return, and what it may do to the world.
use wyndpy.Base.{
  ℕ, ◌≤◌, String, List, [], Bool, true, false, some, length, take, ◌==◌, ==_iff, ℕ_eq, string_eq,
  ◌≡◌, ◌⊎◌, refl, subst, ◌∙◌, inl, inr, Bool-cases, arith, if◌then◌else◌, length-take-le,
}
use wyndpy.Base.Text.{text_length}
use wyndpy.Base.Reply.{Reply, ok, raised}
use wyndpy.Core.Results.{Bytes, RetrievalResult, result}
use wyndpy.Fetch.Network.{hash_body, Platform, Http, Response}
use wyndpy.Fetch.Guard.Safety.{IsAllowed, url_allowed-IsAllowed}
use wyndpy.Fetch.Httpx.{
  HttpxFetcher, is_binary, content_type_of, received, empty_shell_text_threshold, read_response,
  after_redirect, allowed, on_response, after_get, get_failed, ensure_client, after_guard, fetch,
}
use wyndpy.Fetch.Httpx.Shell.{visible_text}

module _ {W C : Type 0} (os : Platform W) (http : Http W C) where
  abbrev pub IsOpen : HttpxFetcher C → String → W → Type 0
  IsOpen f url w = IsAllowed os (λ host. host) f.allowlist_domains url w

  -- The body of a response, as a fetcher keeps it: at most `max_bytes` bytes with their hash, and
  -- either a binary format without text or a text that shows enough.
  pub record IsBody (max_bytes : ℕ) (res : RetrievalResult) : Type 0 where
    pub raw : Bytes
    pub kept : res.raw_bytes ≡ some raw
    pub bounded : length raw ≤ max_bytes
    pub hashed : res.content_hash ≡ hash_body os raw
    pub readable :
        ((is_binary res.content_type ≡ true) × (res.content ≡ ""))
        ⊎ ((is_binary res.content_type ≡ false)
            × (empty_shell_text_threshold ≤ text_length (visible_text res.content)))

  pub record IsGuarded (f : HttpxFetcher C) (url : String) (w : W) (res : RetrievalResult)
      : Type 0 where
    pub requested : IsOpen f url w
    pub arrived : (res.source_url ≡ url) ⊎ ((v : W) × IsOpen f res.source_url v)
    pub body : IsBody f.max_bytes res

  received-IsBody :
      (f : HttpxFetcher C) (resp : Response) (now : ℕ) (content : String)
      → ((is_binary (content_type_of resp) ≡ true) × (content ≡ ""))
        ⊎ ((is_binary (content_type_of resp) ≡ false)
            × (empty_shell_text_threshold ≤ text_length (visible_text content)))
      → IsBody f.max_bytes (received os http f resp now content)
  received-IsBody f resp now content readable = record {
    raw = take f.max_bytes resp.content;
    kept = refl;
    bounded = length-take-le f.max_bytes resp.content;
    hashed = refl;
    readable = readable;
  }

  read_response-result :
      (f : HttpxFetcher C) (url : String) (resp : Response) (now : ℕ) (res : RetrievalResult)
      → read_response os http f url resp now ≡ result res
      → ((is_binary (content_type_of resp) ≡ true) × (res ≡ received os http f resp now ""))
        ⊎ ((is_binary (content_type_of resp) ≡ false)
            × (empty_shell_text_threshold ≤ text_length (visible_text resp.text))
            × (res ≡ received os http f resp now resp.text))
  unfolding read_response
  read_response-result f url resp now res h = elim (Bool-cases (is_binary (content_type_of resp))) [
    | inl binary ↦ ground (arith, h, binary)
    | inr textual ↦ ground (arith, h, textual)
  ]

  read_response-IsBody :
      (f : HttpxFetcher C) (url : String) (resp : Response) (now : ℕ) (res : RetrievalResult)
      → read_response os http f url resp now ≡ result res
      → (res.source_url ≡ resp.url) × IsBody f.max_bytes res
  read_response-IsBody f url resp now res h = elim (read_response-result f url resp now res h) [
    | inl (binary, e) ↦ rw e (refl, received-IsBody f resp now "" (inl (binary, refl)))
    | inr (textual, shown, e) ↦
        rw e (refl, received-IsBody f resp now resp.text (inr (textual, shown)))
  ]

  -- Where a result came from, and its body, for an allowlist and a bound on bytes.
  record Arrived (allow : List String) (max_bytes : ℕ) (url : String) (res : RetrievalResult)
      : Type 0 where
    origin : (res.source_url ≡ url) ⊎ ((v : W) × IsAllowed os (λ host. host) allow res.source_url v)
    body : IsBody max_bytes res

  after_redirect-read :
      (f : HttpxFetcher C) (url : String) (resp : Response) (guard : Reply Bool × W)
      (res : RetrievalResult)
      → (after_redirect os http f url resp guard).0 ≡ ok (result res)
      → (guard.0 ≡ ok true) × (res.source_url ≡ resp.url) × IsBody f.max_bytes res
  unfolding after_redirect
  after_redirect-read f url resp (raised e, w) res h = cc
  after_redirect-read f url resp (ok false, w) res h = cc
  after_redirect-read f url resp (ok true, w) res h =
      let (source, body) = read_response-IsBody f url resp (os.now w) res (ground (arith, h)) in
      (refl, source, body)

  on_response-Arrived :
      (f : HttpxFetcher C) (url : String) (resp : Response) (w : W) (res : RetrievalResult)
      → (on_response os http f url resp w).0 ≡ ok (result res)
      → Arrived f.allowlist_domains f.max_bytes url res
  unfolding on_response
  on_response-Arrived f url resp w res h =
      let (guarded, source, body) =
        after_redirect-read f url resp
          (if resp.url == url then (ok true, w) else allowed os http f resp.url w) res h in
      elim (Bool-cases (resp.url == url)) [
        | inl same ↦ record { origin = inl (source ∙ (==_iff resp.url url).0 same); body = body }
        | inr other ↦
            let open_there : (allowed os http f resp.url w).0 ≡ ok true =
              ground (arith, guarded, other) in
            let there =
              url_allowed-IsAllowed os (λ host. host) f.allowlist_domains resp.url w open_there in
            record { origin = inr (w, rw source there); body = body }
      ]

  after_get-Arrived :
      (f : HttpxFetcher C) (url : String) (reply : Reply Response × W) (res : RetrievalResult)
      → (after_get os http f url reply).0 ≡ ok (result res)
      → Arrived f.allowlist_domains f.max_bytes url res
  unfolding after_get get_failed
  after_get-Arrived f url (ok resp, w) res h = on_response-Arrived f url resp w res h
  after_get-Arrived f url (raised e, w) res h = ground (arith, h)

  -- Making the client leaves the settings as they were.
  ensure_client-settings :
      (f : HttpxFetcher C) (w : W)
      → let f1 : HttpxFetcher C = (ensure_client os http f w).1.0 in
        (f1.allowlist_domains ≡ f.allowlist_domains) × (f1.max_bytes ≡ f.max_bytes)
  unfolding ensure_client
  ensure_client-settings f w = ground arith

  settings-Arrived :
      {given kept : List String} {m n : ℕ} {url : String} {res : RetrievalResult}
      → given ≡ kept
      → m ≡ n
      → Arrived given m url res
      → Arrived kept n url res
  settings-Arrived {given = given} {n = n} {url = url} {res = res} allow_kept max_kept a =
      subst (λ k. Arrived k n url res) allow_kept (subst (λ k. Arrived given k url res) max_kept a)

  after_guard-result :
      (f : HttpxFetcher C) (url : String) (guard : Reply Bool × W) (res : RetrievalResult)
      → (after_guard os http f url guard).0 ≡ ok (result res)
      → (guard.0 ≡ ok true) × Arrived f.allowlist_domains f.max_bytes url res
  unfolding after_guard
  after_guard-result f url (raised e, w) res h = cc
  after_guard-result f url (ok false, w) res h = cc
  after_guard-result f url (ok true, w) res h =
      let (allow_kept, max_kept) = ensure_client-settings f w in
      let (c, (f1, w1)) = ensure_client os http f w in
      (
        refl,
        settings-Arrived allow_kept max_kept
            (after_get-Arrived f1 url (http.get c url [] w1) res h),
      )

  -- A result of `fetch` comes from a URL that the guard allows, after redirects also, and keeps a
  -- body of at most `max_bytes` bytes with its hash: of a binary format, without text, or with a
  -- text that shows enough.
  pub fetch-IsGuarded :
      (f : HttpxFetcher C) (url : String) (w : W) (res : RetrievalResult)
      → (fetch os http f url w).0 ≡ ok (result res)
      → IsGuarded f url w res
  unfolding fetch
  fetch-IsGuarded f url w res h =
      let (guarded, arrived) = after_guard-result f url (allowed os http f url w) res h in
      record {
        requested = url_allowed-IsAllowed os (λ host. host) f.allowlist_domains url w guarded;
        arrived = arrived.origin;
        body = arrived.body;
      }
