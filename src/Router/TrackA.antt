-- ===== src/Router/TrackA.antt =====
-- wyndpy/core/router.py, Track A: fetch a known source, escalating on failure.
pub mod World
pub mod Kept
pub mod Built
pub mod Frame
pub mod Safety
pub mod Costs
pub mod Bounds
pub mod Waits
pub mod Rounds
pub mod Retries
pub mod Ends
pub mod Outcomes
pub mod Endings
pub mod Termination
use wyndpy.Base.{
  ℕ, zero, suc, ◌+◌, ◌*◌, ◌^◌, String, ◌<>◌, Bool, true, false, not, List, [], ◌∷◌, Option, none,
  some, length, get_elem?, contains, ◌==◌, ℕ_eq, string_eq, if◌then◌else◌,
}
use wyndpy.Base.Reply.{value_error}
use wyndpy.Core.Results.{
  RetrievalResult, RetrievalError, Retrieval, result, error, ErrorType, unknown, unsupported_format,
  error_in,
}
use wyndpy.Core.Item.{ResolvableItem, resolved, fetch_exhausted}
use wyndpy.Core.Protocols.{Fetcher, Parser}
use wyndpy.Router.Setup.{
  Router, escalatable_errors, retryable_errors, next_fetcher_config_driven, parser_for_content_type,
}
use wyndpy.Router.Action.{
  Action, pure, raise, exhaust, gets, ◌>>=◌, ◌>>◌, modify_item, fetch, sleep, parse, upsert,
  lock_for, with_lock,
}

-- `isinstance(outcome, RetrievalError) and outcome.error_type in RETRYABLE_ERRORS`
abbrev pub is_retryable : Retrieval → Bool
is_retryable (result _) = false
is_retryable (error e) = error_in e.error_type retryable_errors

abbrev pub no_fetchers : RetrievalError
no_fetchers = record {
  error_type = unknown;
  message = "No fetchers configured";
  provider_used = "none";
}

abbrev pub missing_bytes : String → RetrievalError
missing_bytes parser_name = record {
  error_type = unsupported_format;
  message = "Fetcher result had no raw_bytes to hand to Parser";
  provider_used = parser_name;
}

-- `outcome.content_hash == item.last_content_hash`
abbrev pub is_unchanged : RetrievalResult → ResolvableItem → Bool
is_unchanged res item = elim item.last_content_hash [
  | none ↦ false
  | some hash ↦ res.content_hash == hash
]

-- `last_error or RetrievalError(...)`
abbrev pub or_no_fetchers : Option RetrievalError → RetrievalError
or_no_fetchers none = no_fetchers
or_no_fetchers (some e) = e

module _ {W : Type 0} (r : Router W) where
  -- The loop of `_fetch_with_retry`, on the retries that are left.
  unfoldable pub retry : Fetcher W → String → ℕ → ℕ → Retrieval → Action W Retrieval
  retry f url zero attempt outcome = pure outcome
  retry f url (suc left) attempt outcome = if not (is_retryable outcome) then pure outcome else do
    sleep r (r.config.retry_backoff_base * 2 ^ attempt)
    next ← fetch f url
    retry f url left (attempt + 1) next

  unfoldable pub fetch_with_retry : Fetcher W → String → Action W Retrieval
  fetch_with_retry f url = do outcome ← fetch f url; retry f url r.config.retry_attempts 0 outcome

  unfoldable pub run_parser : Parser W → RetrievalResult → Action W Retrieval
  run_parser p res = elim res.raw_bytes [
    | none ↦ pure (error (missing_bytes p.name))
    | some body ↦ parse p body res.content_type
  ]

  -- The branch of the loop for a `RetrievalResult`.
  unfoldable pub on_result : Fetcher W → RetrievalResult → Action W Retrieval
  on_result f res = do
    item ← gets (λ s. s.item)
    if is_unchanged res item
        then (do modify_item (λ i. record i { status = resolved }); upsert r; pure (result res))
        else elim (parser_for_content_type r f.name res.content_type) [
          | some p ↦ run_parser p res
          | none ↦ do
            modify_item
                (λ i. record i { last_content_hash = some res.content_hash; status = resolved })
            upsert r
            pure (result res)
        ]

  -- What follows the loop.
  unfoldable pub exhausted : Option RetrievalError → Action W Retrieval
  exhausted last_error = do
    modify_item (λ i. record i { status = fetch_exhausted })
    upsert r
    pure (error (or_no_fetchers last_error))

  -- `not self.escalation_rules`
  abbrev pub legacy_mode : Bool
  legacy_mode = elim r.escalation_rules [ [] ↦ true | _ ∷ _ ↦ false ]

  -- The value of `current` after an error of `f`, where `legacy_idx` counts this error already.
  unfoldable pub escalate : Fetcher W → ErrorType → ℕ → Option (Fetcher W)
  escalate f error_type legacy_idx =
      if legacy_mode
      then if error_in error_type escalatable_errors then get_elem? r.fetchers legacy_idx else none
      else next_fetcher_config_driven r f.name error_type

  -- The `while` loop. `legacy_idx` is counted in both modes and read in one. The fuel bounds the
  -- rounds; a round is made only while `current` has not been visited.
  unfoldable pub walk :
      ℕ → String → Option (Fetcher W) → ℕ → Option RetrievalError → List ℕ → Action W Retrieval
  walk fuel url none legacy_idx last_error visited = exhausted last_error
  walk zero url (some f) legacy_idx last_error visited =
      if contains visited f.object_id then exhausted last_error else exhaust
  walk (suc fuel) url (some f) legacy_idx last_error visited =
      if contains visited f.object_id then exhausted last_error else do
        outcome ← fetch_with_retry f url
        elim outcome [
          | result res ↦ on_result f res
          | error e ↦
              walk fuel url (escalate f e.error_type (legacy_idx + 1)) (legacy_idx + 1) (some e)
                (f.object_id ∷ visited)
        ]

  -- The guards before the loop, and the loop from the first fetcher.
  unfoldable pub fetch_first : String → List String → Action W Retrieval
  fetch_first id [] = raise (value_error (id <> " has no known source for Track A"))
  fetch_first id (url ∷ _) = elim r.fetchers [
    | [] ↦ pure (error no_fetchers)
    | f ∷ _ ↦ walk (length r.fetchers) url (some f) 0 none []
  ]

  -- The body of `resolve_known_source`, under the lock.
  unfoldable pub known_source : Action W Retrieval
  known_source = do item ← gets (λ s. s.item); fetch_first item.id item.current_sources

  unfoldable pub resolve_known_source : Action W Retrieval
  resolve_known_source = do
    item ← gets (λ s. s.item)
    lock ← lock_for item.id
    with_lock lock known_source
