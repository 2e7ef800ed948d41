-- ===== src/Fetch/Firecrawl/Tests.antt =====
-- The Firecrawl adapter with a scrape that is given and over the API, and the theorems at that
-- input. The world counts the posts.
use native.Mathlib.Decide.{dec_lt}
use wyndpy.Base.{
  ℕ, suc, ◌<>◌, String, [], ◌∷◌, false, none, some, ◌==◌, string_eq, ℕ_eq, ◌≡◌, refl, if◌then◌else◌,
}
use wyndpy.Base.Text.{ends_with, strip, lstrip, rstrip}
use wyndpy.Base.Reply.{Reply, ok, raised, value_error, http_status}
use wyndpy.Base.Url.{host_matches, host_allowed}
use wyndpy.Base.Value.{Fields, no_fields, entry, text, object, truthy, get_field, texts}
use wyndpy.Core.Results.{RetrievalResult, Retrieval, result, empty_shell, unknown, rate_limited}
use wyndpy.Fetch.Network.{IpAddress, Platform, Http, Response, using_client}
use wyndpy.Fetch.Guard.{
  resolve_host, looked_up, is_private_host, in_allowlist, parts_allowed, url_allowed,
}
use wyndpy.Fetch.Firecrawl.{
  FirecrawlFetcher, refused, scrape_failed, data_of, scrape_live, payload_for, read_bytes,
  read_payload, after_guard, fetch,
}
use wyndpy.Fetch.Firecrawl.Scraped.{IsScraped, fetch-IsScraped}

abbrev page_url : String
page_url = "https://a.example/p"

abbrev outside : IpAddress
outside = record { is_private = false; is_loopback = false; is_link_local = false }

-- One byte for each text.
abbrev platform : Platform ℕ
platform = record {
  urlparse = λ url. ok (record { scheme = "https"; hostname = some "a.example" });
  ip_address = λ s. if s == "93.184.216.34" then ok outside else raised (value_error "no address");
  gethostbyname = λ limit host w. (ok "93.184.216.34", w);
  sha256 = λ body. "digest";
  encode = λ s. ok (1 ∷ []);
  lower = λ s. s;
  repr = λ v. "8";
  float = λ v. raised (value_error "no number");
  now = λ w. 7;
  sleep = λ t w. (ok tt, w);
}

abbrev answer : Response
answer = record {
  url = "";
  status_code = 200;
  content_type = none;
  content = [];
  text = "";
  raise_for_status = ok tt;
  json = ok (object (entry "data" (object (entry "html" (text "<p>x</p>") no_fields)) no_fields));
}

abbrev api : Http ℕ ℕ
api = record {
  new_client = λ limit headers redirects w. (0, w);
  get = λ c url headers w. (raised (value_error "get"), w);
  post = λ c url headers body w. (ok answer, suc w);
  upload = λ c url headers name body mime w. (raised (value_error "upload"), w);
  aclose = λ c w. (ok tt, w);
}

abbrev over_api : FirecrawlFetcher ℕ
over_api = record {
  api_key = "key";
  allowlist_domains = "example" ∷ [];
  timeout_s = record { bits = 0 };
  max_bytes = 8;
  scrape = none;
}

-- A fetcher with the given outcome of its scrape.
abbrev given : Reply Fields → FirecrawlFetcher ℕ
given payload = record over_api { api_key = ""; scrape = some (λ url w. (payload, w)) }

-- Opens all that a fetch computes with.
fetched : FirecrawlFetcher ℕ → Reply Retrieval × ℕ
unfolding fetch after_guard read_payload read_bytes payload_for scrape_live data_of scrape_failed
    using_client url_allowed parts_allowed in_allowlist is_private_host looked_up resolve_host
    host_allowed host_matches ends_with get_field truthy texts strip lstrip rstrip string_eq ℕ_eq
    dec_lt
fetched f = fetch platform api f page_url 0

abbrev page : RetrievalResult
page = record {
  content = "<p>x</p>";
  content_type = "text/html";
  source_url = page_url;
  content_hash = "digest";
  provider_used = "firecrawl";
  raw_bytes = some (1 ∷ []);
  retrieved_at = 7;
}

scraped_html : fetched over_api ≡ (ok (result page), 1)
unfolding fetched
scraped_html = refl

blank :
    (fetched (given (ok no_fields))).0
    ≡ ok (refused empty_shell "Firecrawl returned no visible content")
unfolding fetched
blank = refl

too_large :
    (fetched (record over_api { max_bytes = 0 })).0
    ≡ ok (refused unknown ("Firecrawl body exceeded " <> "8" <> " bytes"))
unfolding fetched
too_large = refl

limited :
    (fetched (given (raised (http_status 429 "slow")))).0
    ≡ ok (refused rate_limited ("429 from Firecrawl for " <> page_url))
unfolding fetched
limited = refl

fetch-IsScraped_example : IsScraped platform api over_api page_url 0 page
unfolding fetched
fetch-IsScraped_example = fetch-IsScraped platform api over_api page_url 0 page refl

-- A text that cannot be encoded.
abbrev surrogates : Platform ℕ
surrogates = record platform { encode = λ s. raised (value_error "surrogates not allowed") }
