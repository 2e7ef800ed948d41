-- ===== src/Core/Results.antt =====
-- wyndpy/core/results.py: the types that every adapter normalises into.
use wyndpy.Base.{ℕ, String, List, Option, Bool, contains, string_eq, map}
use wyndpy.Base.Value.{Float}

pub data ErrorType : Type 0 where
  empty_shell unsupported_format not_found timeout rate_limited forbidden_url unknown : ErrorType

-- `error_type.value`
abbrev pub value : ErrorType → String
value empty_shell = "empty_shell"
value unsupported_format = "unsupported_format"
value not_found = "not_found"
value timeout = "timeout"
value rate_limited = "rate_limited"
value forbidden_url = "forbidden_url"
value unknown = "unknown"

-- Membership in a set of error types. A `StrEnum` is compared by its text.
unfoldable pub error_in : ErrorType → List ErrorType → Bool
unfolding string_eq
error_in e set = contains (map value set) (value e)

abbrev pub Bytes : Type 0
Bytes = List ℕ

-- `retrieved_at` is a point in time, in microseconds since the epoch.
pub record RetrievalResult : Type 0 where
  pub content : String
  pub content_type : String
  pub source_url : String
  pub content_hash : String
  pub provider_used : String
  pub raw_bytes : Option Bytes
  pub retrieved_at : ℕ

pub record RetrievalError : Type 0 where
  pub error_type : ErrorType
  pub message : String
  pub provider_used : String

-- `RetrievalResult | RetrievalError`
pub data Retrieval : Type 0 where
  result : RetrievalResult → Retrieval
  error : RetrievalError → Retrieval

pub record Candidate : Type 0 where
  pub url : String
  pub relevance_score : Float
  pub snippet : String
