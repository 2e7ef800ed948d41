-- ===== src/Router/TrackA/Retries/Tests.antt =====
-- `_fetch_with_retry` on a fetcher that times out once.
use wyndpy.Base.{ℕ, zero, suc, [], ◌∷◌, ◌≤◌, ◌≡◌, ◌↔◌, refl, ℕ_eq}
use wyndpy.Base.Reply.{ok}
use wyndpy.Core.Results.{RetrievalError, result, error, timeout}
use wyndpy.Core.Protocols.{Fetcher}
use wyndpy.Router.Action.{State, fetched, slept, returned, fetch, sleep, call, ◌>>=◌}
use wyndpy.Router.TrackA.{retry, fetch_with_retry}
use wyndpy.Core.Results.{error_in}
use wyndpy.Router.TrackA.Retries.{Attempts, IsLast, fetch_with_retry-Attempts}
use wyndpy.Router.Desk.{Desk, desk, page, automatic, router, known}

abbrev late : RetrievalError
late = record { error_type = timeout; message = "late"; provider_used = "flaky" }

-- It answers once the count of the parser's calls, which it keeps for itself, is not zero.
abbrev flaky : Fetcher Desk
flaky = record {
  object_id = 3;
  name = "flaky";
  fetch = λ url d. elim d.parser.calls [
    | zero ↦ (ok (error late), record d { parser = record d.parser { calls = 1 } })
    | suc _ ↦ (ok (result page), d)
  ];
}

-- Two fetches, and the wait between them.
abbrev answered : State Desk
answered = record known {
  world = record desk { parser = record desk.parser { calls = 1 } };
  history = fetched 3 "https://a.example/p" ∷ slept 200000 ∷ fetched 3 "https://a.example/p" ∷ [];
}

retried :
    fetch_with_retry (router automatic []) flaky "https://a.example/p" known
    ≡ (returned (result page), answered)
unfolding router fetch_with_retry retry ◌>>=◌ call fetch sleep error_in
retried = refl

fetch_with_retry-Attempts_example :
    (fetch_with_retry (router automatic []) flaky "https://a.example/p" known
      ≡ (returned (result page), answered))
    ↔ ((n : ℕ) × (n ≤ 1)
        × Attempts (router automatic []) flaky "https://a.example/p" known n (result page) answered
        × IsLast (router automatic []) flaky "https://a.example/p" n (result page))
unfolding router
fetch_with_retry-Attempts_example =
    fetch_with_retry-Attempts (router automatic []) flaky "https://a.example/p" known (result page)
      answered
