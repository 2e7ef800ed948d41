-- ===== src/Fetch/Httpx.antt =====
-- wyndpy/fetch/httpx_adapter.py: the fetcher that makes a plain GET.
pub mod Shell
pub mod Safety
pub mod Effects
pub mod Total
pub mod Client
pub mod Balance
pub mod Routed
use wyndpy.Base.{
  ℕ, String, ◌<>◌, List, [], ◌∷◌, Bool, true, false, not, ◌&&◌, ◌||◌, Option, none, some, ◌==◌, ltb,
  ℕ_eq, string_eq, take, if◌then◌else◌,
}
use wyndpy.Base.Text.{includes, text_length}
use wyndpy.Base.Reply.{
  Exception, http_timeout, http_error, http_status, message_of, Reply, ok, raised,
}
use wyndpy.Base.Value.{Float}
use text.Mathlib.Text.{starts_with}
use wyndpy.Core.Results.{
  Bytes, RetrievalResult, Retrieval, result, error, ErrorType, forbidden_url, timeout, unknown,
  not_found, rate_limited, empty_shell,
}
use wyndpy.Fetch.Network.{hash_body, Platform, Http, Response}
use wyndpy.Fetch.Guard.{url_allowed}
use wyndpy.Fetch.Httpx.Shell.{visible_text}

-- `client` is `None` until the first fetch, unless the caller gives one.
pub record HttpxFetcher (C : Type 0) : Type 0 where
  pub allowlist_domains : List String
  pub timeout_s : Float
  pub max_bytes : ℕ
  pub user_agent : String
  pub client : Option C
  pub owns_client : Bool

-- `DEFAULT_TIMEOUT_S`, the bits of 15.0.
abbrev pub default_timeout_s : Float
default_timeout_s = record { bits = 4624633867356078080 }

-- `DEFAULT_MAX_BYTES`, 10 MB.
abbrev pub default_max_bytes : ℕ
default_max_bytes = 10485760

abbrev pub empty_shell_text_threshold : ℕ
empty_shell_text_threshold = 200

-- `allowlist_domains or []`
abbrev pub or_empty : Option (List String) → List String
or_empty none = []
or_empty (some domains) = domains

unfoldable pub new_httpx :
    {C : Type 0} → Option (List String) → Float → ℕ → String → Option C → HttpxFetcher C
new_httpx allow timeout_s max_bytes user_agent client = record {
  allowlist_domains = or_empty allow;
  timeout_s = timeout_s;
  max_bytes = max_bytes;
  user_agent = user_agent;
  client = client;
  owns_client = elim client [ none ↦ true | some _ ↦ false ];
}

-- `RetrievalError(error_type, message, provider_used=self.name)`
abbrev pub refused : ErrorType → String → Retrieval
refused error_type message =
    error (record { error_type = error_type; message = message; provider_used = "httpx" })

-- What the `except` clauses around `client.get` do.
unfoldable pub get_failed : String → Exception → Reply Retrieval
get_failed url (http_timeout _) = ok (refused timeout ("Timed out fetching " <> url))
get_failed url (http_error message) = ok (refused unknown message)
get_failed url (http_status _ message) = ok (refused unknown message)
get_failed url e = raised e

-- `"pdf" in content_type or content_type.startswith("application/")`
abbrev pub is_binary : String → Bool
is_binary content_type = includes content_type "pdf" || starts_with content_type "application/"

-- `resp.headers.get("content-type", "text/html")`
abbrev pub content_type_of : Response → String
content_type_of resp = elim resp.content_type [ none ↦ "text/html" | some t ↦ t ]

module _ {W C : Type 0} (os : Platform W) (http : Http W C) where
  -- The result with the given content.
  abbrev pub received : HttpxFetcher C → Response → ℕ → String → RetrievalResult
  received f resp now content =
      let raw = take f.max_bytes resp.content in
      record {
        content = content;
        content_type = content_type_of resp;
        source_url = resp.url;
        content_hash = hash_body os raw;
        provider_used = "httpx";
        raw_bytes = some raw;
        retrieved_at = now;
      }

  -- What `fetch` makes of a response that did not leave the allowlist.
  unfoldable pub read_response : HttpxFetcher C → String → Response → ℕ → Retrieval
  read_response f url resp now =
      if resp.status_code == 404
      then refused not_found ("404 for " <> url)
      else if resp.status_code == 429
      then refused rate_limited ("429 for " <> url)
      else if is_binary (content_type_of resp)
      then result (received f resp now "")
      else if ltb (text_length (visible_text resp.text)) empty_shell_text_threshold
      then refused empty_shell "Visible text below threshold — likely JS-rendered"
      else result (received f resp now resp.text)

  -- The guard on the URL after redirects has answered.
  unfoldable pub after_redirect :
      HttpxFetcher C → String → Response → Reply Bool × W → Reply Retrieval × W
  after_redirect f url resp (raised e, w) = (raised e, w)
  after_redirect f url resp (ok false, w) =
      (ok (refused forbidden_url ("Redirect left allowlist: " <> resp.url)), w)
  after_redirect f url resp (ok true, w) = (ok (read_response f url resp (os.now w)), w)

  -- `self._url_allowed`
  abbrev pub allowed : HttpxFetcher C → String → W → Reply Bool × W
  allowed f url w = url_allowed os (λ host. host) f.allowlist_domains url w

  unfoldable pub on_response : HttpxFetcher C → String → Response → W → Reply Retrieval × W
  on_response f url resp w =
      after_redirect f url resp (if resp.url == url then (ok true, w) else allowed f resp.url w)

  unfoldable pub after_get : HttpxFetcher C → String → Reply Response × W → Reply Retrieval × W
  after_get f url (ok resp, w) = on_response f url resp w
  after_get f url (raised e, w) = (get_failed url e, w)

  -- The client, and the fetcher that keeps it.
  unfoldable pub ensure_client : HttpxFetcher C → W → C × (HttpxFetcher C × W)
  ensure_client f w = elim f.client [
    | some c ↦ (c, (f, w))
    | none ↦
        let (c, w1) = http.new_client f.timeout_s (("User-Agent", f.user_agent) ∷ []) true w in
        (c, (record f { client = some c }, w1))
  ]

  unfoldable pub after_guard :
      HttpxFetcher C → String → Reply Bool × W → Reply Retrieval × (HttpxFetcher C × W)
  after_guard f url (raised e, w) = (raised e, (f, w))
  after_guard f url (ok false, w) =
      (ok (refused forbidden_url ("URL rejected by allowlist/SSRF guard: " <> url)), (f, w))
  after_guard f url (ok true, w) =
      let (c, (f1, w1)) = ensure_client f w in
      let (reply, w2) = after_get f1 url (http.get c url [] w1) in (reply, (f1, w2))

  unfoldable pub fetch : HttpxFetcher C → String → W → Reply Retrieval × (HttpxFetcher C × W)
  fetch f url w = after_guard f url (allowed f url w)

  -- An exception of `aclose` leaves the client in place.
  unfoldable pub close : HttpxFetcher C → W → Reply (Unit {0}) × (HttpxFetcher C × W)
  close f w = elim f.client [
    | none ↦ (ok tt, (f, w))
    | some c ↦
        let (reply, w1) = http.aclose c w in
        if not f.owns_client then (ok tt, (f, w)) else elim reply [
          | ok _ ↦ (ok tt, (record f { client = none }, w1))
          | raised e ↦ (raised e, (f, w1))
        ]
  ]

  -- `async with` on a fetcher: `__aenter__` gives the fetcher, and `__aexit__` closes it.
  abbrev pub aenter : HttpxFetcher C → HttpxFetcher C
  aenter f = f

  abbrev pub aexit : HttpxFetcher C → W → Reply (Unit {0}) × (HttpxFetcher C × W)
  aexit = close
