-- ===== src/Search/Exa/Tests.antt =====
-- The Exa searcher with a search function that is given, and the theorem at that input.
use wyndpy.Base.{ℕ, String, List, [], ◌∷◌, some, ◌==◌, string_eq, All, ◌≡◌, refl, if◌then◌else◌}
use wyndpy.Base.Text.{ends_with, take_chars}
use wyndpy.Base.Reply.{Reply, ok, raised, value_error, http_timeout, search_failed}
use wyndpy.Base.Url.{Url, host_matches, host_allowed}
use wyndpy.Base.Value.{Fields, no_fields, entry, text, truthy, get_field}
use wyndpy.Core.Results.{Candidate}
use wyndpy.Fetch.Network.{Platform, Http}
use wyndpy.Search.Exa.{
  ExaSearcher, refuse_search, host_listed, host_of_url_allowed, relevance, candidate_of, is_kept,
  keep_row, candidates_of, rows_for, search,
}
use wyndpy.Search.Exa.Listed.{IsListed, search-IsListed}

abbrev parts_of : String → Url
parts_of url = record {
  scheme = if url == "http://a.example/" then "http" else "https";
  hostname = some (if url == "https://evil.test/" then "evil.test" else "a.example");
}

abbrev platform : Platform ℕ
platform = record {
  urlparse = λ url. ok (parts_of url);
  ip_address = λ s. raised (value_error "no address");
  gethostbyname = λ limit host w. (ok "", w);
  sha256 = λ body. "";
  encode = λ s. ok [];
  lower = λ s. s;
  repr = λ v. "";
  float = λ v. raised (value_error "no number");
  now = λ w. w;
  sleep = λ t w. (ok tt, w);
}

-- No client can reach anything.
abbrev offline : Http ℕ ℕ
offline = record {
  new_client = λ limit headers redirects w. (0, w);
  get = λ c url headers w. (raised (http_timeout "get"), w);
  post = λ c url headers body w. (raised (http_timeout "post"), w);
  upload = λ c url headers name body mime w. (raised (http_timeout "upload"), w);
  aclose = λ c w. (ok tt, w);
}

abbrev row : String → Fields
row url = entry "url" (text url) (entry "title" (text "A page") no_fields)

abbrev exa : Reply (List Fields) → ExaSearcher ℕ
exa rows = record {
  api_key = "";
  domain_allowlist = "example" ∷ [];
  timeout_s = record { bits = 0 };
  search_fn = some (λ query n w. (rows, w));
}

abbrev page : Candidate
page = record {
  url = "https://a.example/";
  relevance_score = record { bits = 0 };
  snippet = "A page";
}

-- Opens all that a search computes with.
found : Reply (List Fields) → Reply (List Candidate)
unfolding search rows_for refuse_search candidates_of keep_row is_kept host_of_url_allowed
    host_listed candidate_of relevance get_field truthy take_chars host_allowed host_matches
    ends_with string_eq
found rows = (search platform offline (exa rows) "query" 3 0).0

abbrev rows : Reply (List Fields)
rows =
    ok (
      row "http://a.example/"
      ∷ row "https://a.example/"
      ∷ no_fields
      ∷ row "https://evil.test/"
      ∷ [])

filtered : found rows ≡ ok (page ∷ [])
unfolding found
filtered = refl

failed : found (raised (http_timeout "slow")) ≡ raised (search_failed "slow")
unfolding found
failed = refl

search-IsListed_example : All (IsListed platform ("example" ∷ [])) (page ∷ [])
unfolding found
search-IsListed_example = search-IsListed platform offline (exa rows) "query" 3 0 (page ∷ []) refl
