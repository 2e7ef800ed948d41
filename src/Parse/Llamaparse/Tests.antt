-- ===== src/Parse/Llamaparse/Tests.antt =====
-- The LlamaParse parser against an API that answers in order, and the theorems at that input. The
-- world is the number of GETs so far.
use wyndpy.Base.{ℕ, zero, suc, ◌+◌, ◌≤◌, [], ◌∷◌, none, some, string_eq, ℕ_eq, ◌≡◌, refl, arith}
use wyndpy.Base.Text.{includes}
use wyndpy.Base.Reply.{Reply, ok, raised, value_error}
use wyndpy.Base.Value.{Value, text, object, entry, no_fields, truthy, get_field}
use wyndpy.Core.Results.{RetrievalResult, Retrieval, result, timeout}
use wyndpy.Fetch.Network.{Platform, Http, Response, using_client}
use wyndpy.Parse.Llamaparse.{
  LlamaParseParser, refused, parse_failed, state_of, markdown_of, on_state, poll, after_upload,
  parse_live, markdown_for, of_markdown, parse,
}
use wyndpy.Parse.Llamaparse.Parsed.{IsParsed, parse-IsParsed}
use wyndpy.Parse.Llamaparse.Polls.{CountsGets, parse_live-le}

abbrev platform : Platform ℕ
platform = record {
  urlparse = λ url. raised (value_error "no URL");
  ip_address = λ s. raised (value_error "no address");
  gethostbyname = λ limit host w. (ok "", w);
  sha256 = λ body. "digest";
  encode = λ s. ok [];
  lower = λ s. s;
  repr = λ v. "";
  float = λ v. raised (value_error "no number");
  now = λ w. 7;
  sleep = λ t w. (ok tt, w);
}

abbrev answer : Value → Response
answer body = record {
  url = "";
  status_code = 200;
  content_type = none;
  content = [];
  text = "";
  raise_for_status = ok tt;
  json = ok body;
}

-- The job is done at the third poll.
abbrev body_at : ℕ → Value
body_at zero = object (entry "status" (text "pending") no_fields)
body_at (suc zero) = object (entry "status" (text "pending") no_fields)
body_at (suc (suc zero)) = object (entry "status" (text "success") no_fields)
body_at _ = object (entry "markdown" (text "# Title") no_fields)

abbrev api : Http ℕ ℕ
api = record {
  new_client = λ limit headers redirects w. (0, w);
  get = λ c url headers w. (ok (answer (body_at w)), suc w);
  post = λ c url headers body w. (raised (value_error "post"), w);
  upload =
      λ c url headers name body mime w. (ok (answer (object (entry "id" (text "j") no_fields))), w);
  aclose = λ c w. (ok tt, w);
}

abbrev parser : LlamaParseParser ℕ
parser = record { api_key = "key"; timeout_s = record { bits = 0 }; parse_fn = none }

abbrev page : RetrievalResult
page = record {
  content = "# Title";
  content_type = "text/markdown";
  source_url = "";
  content_hash = "digest";
  provider_used = "llamaparse";
  raw_bytes = some (37 ∷ []);
  retrieved_at = 7;
}

-- Opens all that a parse computes with.
parsed_from : ℕ → Reply Retrieval × ℕ
unfolding parse of_markdown markdown_for parse_live using_client after_upload poll on_state state_of
    markdown_of parse_failed get_field truthy includes string_eq ℕ_eq
parsed_from w = parse platform api parser (37 ∷ []) "application/pdf" w

third_poll : parsed_from 0 ≡ (ok (result page), 4)
unfolding parsed_from
third_poll = refl

-- Past the answers that are there, the job is never done.
too_late : parsed_from 5 ≡ (ok (refused timeout "Timed out waiting for LlamaParse"), 50)
unfolding parsed_from
too_late = refl

parse-IsParsed_example : IsParsed platform (37 ∷ []) page
unfolding parsed_from
parse-IsParsed_example = parse-IsParsed platform api parser (37 ∷ []) "application/pdf" 0 page refl

counts : CountsGets platform api (λ w. w)
counts = record {
  get = λ c url headers w. omega arith;
  sleep = λ n w. refl;
  create = λ limit headers redirects w. refl;
  upload = λ c url headers name doc mime w. refl;
  aclose = λ c w. refl;
}

parse_live-le_example : (parse_live platform api parser (37 ∷ []) "application/pdf" 5).1 ≤ 46 + 5
unfolding parsed_from
parse_live-le_example =
    parse_live-le platform api (λ w. w) parser (37 ∷ []) "application/pdf" 5 counts
