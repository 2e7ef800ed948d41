-- ===== src/Fetch/Firecrawl.antt =====
-- wyndpy/fetch/firecrawl_adapter.py: the fetcher that asks the Firecrawl API for a rendered page.
pub mod Scraped
pub mod Total
pub mod Effects
mod Tests
use wyndpy.Base.{
  ℕ, String, ◌<>◌, List, [], ◌∷◌, Bool, true, false, ◌&&◌, Option, none, some, length, ◌==◌, ltb,
  ℕ_eq, string_eq, if◌then◌else◌,
}
use wyndpy.Base.Text.{strip}
use wyndpy.Base.Reply.{
  Exception, value_error, type_error, key_error, http_timeout, http_error, http_status, Reply, ok,
  raised, ◌>>=◌,
}
use wyndpy.Base.Value.{
  Float, Fields, no_fields, entry, Value, ℤ, pos, int, text, array, object, texts, get_field,
  or_value, print,
}
use wyndpy.Core.Results.{
  Bytes, RetrievalResult, Retrieval, result, error, ErrorType, forbidden_url, timeout, unknown,
  rate_limited, empty_shell,
}
use wyndpy.Fetch.Network.{hash_body, Platform, Http, Response, using_client}
use wyndpy.Fetch.Guard.{url_allowed}

-- `scrape` is a function that a caller may give in place of the API. It gives a dictionary.
pub record FirecrawlFetcher (W : Type 0) : Type 0 where
  pub api_key : String
  pub allowlist_domains : List String
  pub timeout_s : Float
  pub max_bytes : ℕ
  pub scrape : Option (String → W → Reply Fields × W)

abbrev pub firecrawl_scrape_url : String
firecrawl_scrape_url = "https://api.firecrawl.dev/v1/scrape"

-- `RetrievalError(error_type, message, provider_used=self.name)`
abbrev pub refused : ErrorType → String → Retrieval
refused error_type message =
    error (record { error_type = error_type; message = message; provider_used = "firecrawl" })

-- What the `except` clauses of `fetch` do.
unfoldable pub scrape_failed : String → Exception → Reply Retrieval
scrape_failed url (http_timeout _) = ok (refused timeout ("Timed out scraping " <> url))
scrape_failed url (http_status status message) =
    if status == 429
    then ok (refused rate_limited ("429 from Firecrawl for " <> url))
    else ok (refused unknown message)
scrape_failed url (http_error message) = ok (refused unknown message)
scrape_failed url (value_error message) = ok (refused unknown message)
scrape_failed url (key_error message) = ok (refused unknown message)
scrape_failed url (type_error message) = ok (refused unknown message)
scrape_failed url e = raised e

-- The dictionary under `data` in a response's body.
unfoldable pub data_of : Value → Reply Fields
data_of (object fields) = elim (get_field "data" fields) [
  | object found ↦ ok found
  | _ ↦ raised (value_error "Firecrawl scrape response missing data")
]
data_of _ = raised (value_error "Firecrawl scrape response missing data")

-- The body of the request.
abbrev pub request_for : String → Fields
request_for url =
    entry "url" (text url) (entry "formats" (array (texts ("markdown" ∷ "html" ∷ []))) no_fields)

module _ {W C : Type 0} (os : Platform W) (http : Http W C) where
  unfoldable pub scrape_live : FirecrawlFetcher W → String → W → Reply Fields × W
  scrape_live f url w =
      let headers =
        ("Authorization", "Bearer " <> f.api_key) ∷ ("Content-Type", "application/json") ∷ [] in
      let (body, w1) =
        using_client http f.timeout_s
          (λ c v.
            let (reply, v1) =
              http.post c firecrawl_scrape_url headers (object (request_for url)) v in
            ((do resp ← reply; _ ← resp.raise_for_status; resp.json), v1))
          w in
      ((do b ← body; data_of b), w1)

  -- `self._scrape(url) if self._scrape else self._scrape_live(url)`
  unfoldable pub payload_for : FirecrawlFetcher W → String → W → Reply Fields × W
  payload_for f url w = elim f.scrape [ some scrape ↦ scrape url w | none ↦ scrape_live f url w ]

  -- `str(payload.get(key) or "")`
  abbrev pub text_under : String → Fields → String
  text_under key payload = print os.repr (or_value (get_field key payload) (text ""))

  -- `markdown or html`
  abbrev pub content_of : Fields → String
  content_of payload =
      let markdown = text_under "markdown" payload in
      if markdown == "" then text_under "html" payload else markdown

  abbrev pub type_of : Fields → String
  type_of payload = if text_under "markdown" payload == "" then "text/html" else "text/markdown"

  abbrev pub scraped : String → Fields → ℕ → Bytes → RetrievalResult
  scraped url payload now raw = record {
    content = content_of payload;
    content_type = type_of payload;
    source_url = url;
    content_hash = hash_body os raw;
    provider_used = "firecrawl";
    raw_bytes = some raw;
    retrieved_at = now;
  }

  -- What follows the encoding of the content.
  unfoldable pub read_bytes : FirecrawlFetcher W → String → Fields → ℕ → Bytes → Retrieval
  read_bytes f url payload now raw =
      if ltb f.max_bytes (length raw)
      then refused unknown
          ("Firecrawl body exceeded " <> os.repr (int (pos f.max_bytes)) <> " bytes")
      else if strip (content_of payload) == ""
      then refused empty_shell "Firecrawl returned no visible content"
      else result (scraped url payload now raw)

  -- What follows the `try`.
  unfoldable pub read_payload : FirecrawlFetcher W → String → ℕ → Reply Fields → Reply Retrieval
  read_payload f url now (raised e) = scrape_failed url e
  read_payload f url now (ok payload) = do
    raw ← os.encode (content_of payload)
    ok (read_bytes f url payload now raw)

  -- `not self.api_key and self._scrape is None`
  abbrev pub has_no_scrape : FirecrawlFetcher W → Bool
  has_no_scrape f = f.api_key == "" && elim f.scrape [ none ↦ true | some _ ↦ false ]

  -- `self._url_allowed`
  abbrev pub allowed : FirecrawlFetcher W → String → W → Reply Bool × W
  allowed f url w = url_allowed os os.lower f.allowlist_domains url w

  unfoldable pub after_guard : FirecrawlFetcher W → String → Reply Bool × W → Reply Retrieval × W
  after_guard f url (raised e, w) = (raised e, w)
  after_guard f url (ok false, w) =
      (ok (refused forbidden_url ("URL rejected by allowlist/SSRF guard: " <> url)), w)
  after_guard f url (ok true, w) =
      let (payload, w1) = payload_for f url w in
      if has_no_scrape f
      then (ok (refused unknown "Firecrawl API key is not set"), w)
      else (read_payload f url (os.now w1) payload, w1)

  unfoldable pub fetch : FirecrawlFetcher W → String → W → Reply Retrieval × W
  fetch f url w = after_guard f url (allowed f url w)
