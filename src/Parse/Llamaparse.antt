-- ===== src/Parse/Llamaparse.antt =====
-- wyndpy/parse/llamaparse_adapter.py: documents as markdown, by the LlamaParse API.
pub mod Parsed
pub mod Polls
mod Tests
use wyndpy.Base.{
  ℕ, zero, suc, String, ◌<>◌, List, [], ◌∷◌, Bool, true, false, not, ◌&&◌, ◌||◌, Option, none, some,
  ◌==◌, string_eq, ℕ_eq, if◌then◌else◌,
}
use wyndpy.Base.Text.{includes}
use wyndpy.Base.Reply.{
  Exception, value_error, type_error, attribute_error, timeout_error, http_timeout, http_error,
  http_status, message_of, Reply, ok, raised, ◌>>=◌,
}
use wyndpy.Base.Value.{Float, Value, object, text, truthy, get_field, or_value, print}
use wyndpy.Core.Results.{
  Bytes, Retrieval, result, error, ErrorType, unsupported_format, unknown, timeout, rate_limited,
}
use wyndpy.Fetch.Network.{hash_body, Platform, Http, Response, using_client}

-- `parse_fn` is a function that a caller may give in place of the API.
pub record LlamaParseParser (W : Type 0) : Type 0 where
  pub api_key : String
  pub timeout_s : Float
  pub parse_fn : Option (Bytes → String → W → Reply String × W)

abbrev pub llama_upload_url : String
llama_upload_url = "https://api.cloud.llamaindex.ai/api/parsing/upload"

abbrev pub job_url : String → String
job_url job_id = "https://api.cloud.llamaindex.ai/api/parsing/job/" <> job_id

abbrev pub max_polls : ℕ
max_polls = 45

-- `POLL_INTERVAL_S`, in microseconds.
abbrev pub poll_interval : ℕ
poll_interval = 1000000

-- `v.get(key)`, for what `json` gives.
abbrev pub field_of : String → Value → Reply Value
field_of key (object fields) = ok (get_field key fields)
field_of key _ = raised (attribute_error "get")

-- `RetrievalError(error_type, message, provider_used=self.name)`
abbrev pub refused : ErrorType → String → Retrieval
refused error_type message =
    error (record { error_type = error_type; message = message; provider_used = "llamaparse" })

-- What the `except` clauses of `parse` do.
unfoldable pub parse_failed : Exception → Reply Retrieval
parse_failed (http_timeout _) = ok (refused timeout "Timed out waiting for LlamaParse")
parse_failed (timeout_error _) = ok (refused timeout "Timed out waiting for LlamaParse")
parse_failed (http_status status message) =
    if status == 429
    then ok (refused rate_limited "429 from LlamaParse")
    else ok (refused unknown message)
parse_failed (http_error message) = ok (refused unknown message)
parse_failed (value_error message) = ok (refused unknown message)
parse_failed (type_error message) = ok (refused unknown message)
parse_failed e = raised e

-- A response's JSON, unless its status is an error's.
abbrev pub checked_json : Reply Response → Reply Value
checked_json reply = do resp ← reply; _ ← resp.raise_for_status; resp.json

module _ {W C : Type 0} (os : Platform W) (http : Http W C) where
  -- `str(status.json().get("status") or "").lower()`
  unfoldable pub state_of : Value → Reply String
  state_of body = do
    v ← field_of "status" body
    ok (os.lower (print os.repr (or_value v (text ""))))

  -- `str(payload.get("markdown") or payload.get("text") or "")`
  unfoldable pub markdown_of : Value → Reply String
  markdown_of body = do
    m ← field_of "markdown" body
    t ← field_of "text" body
    ok (print os.repr (or_value m (or_value t (text ""))))

  -- What a poll does with the job's state: the markdown is fetched, the job has failed, or the
  -- rest of the polls follow after the interval.
  unfoldable pub on_state :
      C
      → List (String × String)
      → String
      → (W → Reply String × W)
      → Reply String
      → W
      → Reply String × W
  on_state c headers job_id rest (raised e) w = (raised e, w)
  on_state c headers job_id rest (ok state) w =
      let (page, w1) = http.get c (job_url job_id <> "/result/markdown") headers w in
      let (slept, w2) = os.sleep poll_interval w in
      if state == "success" || state == "completed"
      then ((do body ← checked_json page; markdown_of body), w1)
      else if state == "error" || state == "failed"
      then (raised (value_error ("LlamaParse job " <> job_id <> " failed")), w)
      else elim slept [ ok _ ↦ rest w2 | raised e ↦ (raised e, w2) ]

  -- The loop, on the polls that are left.
  unfoldable pub poll : C → List (String × String) → String → ℕ → W → Reply String × W
  poll c headers job_id zero w =
      (raised (timeout_error "LlamaParse job did not complete in time"), w)
  poll c headers job_id (suc left) w =
      let (status, w1) = http.get c (job_url job_id) headers w in
      on_state c headers job_id (poll c headers job_id left)
        (do body ← checked_json status; state_of body) w1

  -- What follows the upload: the job's id, and the polls.
  unfoldable pub after_upload : C → List (String × String) → Reply Value → W → Reply String × W
  after_upload c headers (raised e) w = (raised e, w)
  after_upload c headers (ok job_id) w =
      if truthy job_id
      then poll c headers (print os.repr job_id) max_polls w
      else (raised (value_error "LlamaParse upload response missing id"), w)

  unfoldable pub parse_live : LlamaParseParser W → Bytes → String → W → Reply String × W
  parse_live p doc mime_type w =
      let headers = ("Authorization", "Bearer " <> p.api_key) ∷ [] in
      let filename = if includes mime_type "pdf" then "document.pdf" else "document.bin" in
      let mime = if mime_type == "" then "application/pdf" else mime_type in
      using_client http p.timeout_s
        (λ c v.
          let (uploaded, v1) = http.upload c llama_upload_url headers filename doc mime v in
          after_upload c headers (do job ← checked_json uploaded; field_of "id" job) v1)
        w

  unfoldable pub markdown_for : LlamaParseParser W → Bytes → String → W → Reply String × W
  markdown_for p doc mime_type w = elim p.parse_fn [
    | some parse ↦ parse doc mime_type w
    | none ↦ parse_live p doc mime_type w
  ]

  abbrev pub has_no_parse : LlamaParseParser W → Bool
  has_no_parse p = p.api_key == "" && elim p.parse_fn [ none ↦ true | some _ ↦ false ]

  -- The result of a markdown, or what its exception becomes.
  unfoldable pub of_markdown : Bytes → ℕ → Reply String → Reply Retrieval
  of_markdown doc now (raised e) = parse_failed e
  of_markdown doc now (ok markdown) = ok (
      result (record {
        content = markdown;
        content_type = "text/markdown";
        source_url = "";
        content_hash = hash_body os doc;
        provider_used = "llamaparse";
        raw_bytes = some doc;
        retrieved_at = now;
      }))

  unfoldable pub parse : LlamaParseParser W → Bytes → String → W → Reply Retrieval × W
  parse p [] mime_type w = (ok (refused unsupported_format "LlamaParse received an empty body"), w)
  parse p (b ∷ doc) mime_type w =
      let (markdown, w1) = markdown_for p (b ∷ doc) mime_type w in
      if has_no_parse p
      then (ok (refused unknown "LlamaParse API key is not set"), w)
      else (of_markdown (b ∷ doc) (os.now w1) markdown, w1)
