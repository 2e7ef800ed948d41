-- ===== src/Search/Exa.antt =====
-- wyndpy/search/exa_adapter.py: candidates from the Exa search API.
pub mod Listed
mod Tests
use wyndpy.Base.{
  ℕ, String, List, [], ◌∷◌, Bool, true, false, not, ◌&&◌, Option, none, some, ◌==◌, string_eq,
  if◌then◌else◌,
}
use wyndpy.Base.Text.{take_chars}
use wyndpy.Base.Reply.{
  Exception, value_error, type_error, http_timeout, http_error, http_status, search_failed,
  message_of, Reply, ok, raised, ◌>>=◌,
}
use wyndpy.Base.Url.{Url, host_allowed}
use wyndpy.Base.Value.{
  ℤ, pos, Float, Fields, no_fields, entry, Items, Value, null, int, text, array, object, texts,
  get_field, or_value, print, objects_of,
}
use wyndpy.Core.Results.{Candidate}
use wyndpy.Fetch.Network.{Platform, Http, Response, using_client}

-- `search_fn` is a function that a caller may give in place of the API.
pub record ExaSearcher (W : Type 0) : Type 0 where
  pub api_key : String
  pub domain_allowlist : List String
  pub timeout_s : Float
  pub search_fn : Option (String → ℕ → W → Reply (List Fields) × W)

abbrev pub exa_search_url : String
exa_search_url = "https://api.exa.ai/search"

-- `except (httpx.HTTPError, ValueError, TypeError) as exc: raise SearchFailedError(...)`
unfoldable pub refuse_search : {A : Type 0} → Reply A → Reply A
refuse_search (raised (value_error s)) = raised (search_failed s)
refuse_search (raised (type_error s)) = raised (search_failed s)
refuse_search (raised (http_timeout s)) = raised (search_failed s)
refuse_search (raised (http_error s)) = raised (search_failed s)
refuse_search (raised (http_status n s)) = raised (search_failed s)
refuse_search reply = reply

-- The rows of a reply's body.
unfoldable pub rows_of : Value → Reply (List Fields)
rows_of (object fields) = elim (get_field "results" fields) [
  | array items ↦ ok (objects_of items)
  | _ ↦ raised (value_error "Exa search response missing results")
]
rows_of _ = raised (value_error "Exa search response missing results")

-- `payload`
abbrev pub payload_for : List String → String → ℕ → Fields
payload_for [] query n = entry "query" (text query) (entry "numResults" (int (pos n)) no_fields)
payload_for (d ∷ ds) query n =
    entry "query" (text query)
      (entry "numResults" (int (pos n)) (entry "includeDomains" (array (texts (d ∷ ds))) no_fields))

module _ {W C : Type 0} (os : Platform W) (http : Http W C) where
  unfoldable pub search_live : ExaSearcher W → String → ℕ → W → Reply (List Fields) × W
  search_live exa query n w =
      let headers = ("x-api-key", exa.api_key) ∷ ("Content-Type", "application/json") ∷ [] in
      let payload = object (payload_for exa.domain_allowlist query n) in
      let (body, w1) =
        using_client http exa.timeout_s
          (λ c v.
            let (reply, v1) = http.post c exa_search_url headers payload v in
            ((do resp ← reply; _ ← resp.raise_for_status; resp.json), v1))
          w in
      ((do b ← body; rows_of b), w1)

  -- The tests of `_host_allowed` on the parts of a URL.
  unfoldable pub host_listed : List String → Url → Bool
  host_listed allow url = if not (url.scheme == "https") then false else elim url.hostname [
    | none ↦ false
    | some host ↦ if host == "" then false else host_allowed (os.lower host) allow
  ]

  unfoldable pub host_of_url_allowed : ExaSearcher W → String → Reply Bool
  host_of_url_allowed exa url = do
    parts ← os.urlparse url
    ok (host_listed exa.domain_allowlist parts)

  -- `float(score) if score is not None else 0.0`, and 0.0 for what is no number.
  unfoldable pub relevance : Value → Reply Float
  relevance null = ok (record { bits = 0 })
  relevance score = elim (os.float score) [
    | ok x ↦ ok x
    | raised (value_error _) ↦ ok (record { bits = 0 })
    | raised (type_error _) ↦ ok (record { bits = 0 })
    | raised e ↦ raised e
  ]

  unfoldable pub candidate_of : String → Fields → Reply Candidate
  candidate_of url row = do
    score ← relevance (get_field "score" row)
    ok (record {
      url = url;
      relevance_score = score;
      snippet = take_chars 240 (
          print os.repr
            (or_value (get_field "title" row) (or_value (get_field "text" row) (text ""))));
    })

  -- `str(row.get("url") or "")`
  abbrev pub url_of : Fields → String
  url_of row = print os.repr (or_value (get_field "url" row) (text ""))

  -- Whether a row is kept. A row without a URL is not parsed.
  unfoldable pub is_kept : ExaSearcher W → String → Reply Bool
  is_kept exa url = if url == "" then ok false else host_of_url_allowed exa url

  -- A row that is kept goes before what the later rows give.
  unfoldable pub keep_row : Fields → Bool → Reply (List Candidate) → Reply (List Candidate)
  keep_row row false rest = rest
  keep_row row true rest = do c ← candidate_of (url_of row) row; cs ← rest; ok (c ∷ cs)

  -- The loop over the rows.
  unfoldable pub candidates_of : ExaSearcher W → List Fields → Reply (List Candidate)
  candidates_of exa [] = ok []
  candidates_of exa (row ∷ rows) =
      let rest = candidates_of exa rows in
      do kept ← is_kept exa (url_of row); keep_row row kept rest

  -- The rows, by the function that is given or from the API.
  unfoldable pub rows_for : ExaSearcher W → String → ℕ → W → Reply (List Fields) × W
  rows_for exa query n w = elim exa.search_fn [
    | some search ↦ search query n w
    | none ↦ search_live exa query n w
  ]

  abbrev pub has_no_search : ExaSearcher W → Bool
  has_no_search exa = exa.api_key == "" && elim exa.search_fn [ none ↦ true | some _ ↦ false ]

  unfoldable pub search : ExaSearcher W → String → ℕ → W → Reply (List Candidate) × W
  search exa query n w =
      let (rows, w1) = rows_for exa query n w in
      if has_no_search exa
      then (ok [], w)
      else ((do found ← refuse_search rows; candidates_of exa found), w1)
