-- ===== src/Testing.antt =====
-- wyndpy/testing/fake_adapters.py: adapters with canned answers, which note their calls.
use wyndpy.Base.{ℕ, ◌+◌, String, List, [], ◌∷◌, ◌++◌, Option, none, some, take, string_eq}
use wyndpy.Base.Dict.{Dict, lookup}
use wyndpy.Base.Reply.{Reply, ok, raised, key_error}
use wyndpy.Core.Results.{Bytes, Retrieval, Candidate}

pub record FakeFetcher : Type 0 where
  pub responses : Dict String Retrieval
  pub calls : List String

-- `self.responses[url]` raises `KeyError` on a URL that was not configured.
unfoldable pub fake_fetch : String → FakeFetcher → Reply Retrieval × FakeFetcher
fake_fetch url f = (
  elim (lookup url f.responses) [ none ↦ raised (key_error url) | some outcome ↦ ok outcome ],
  record f { calls = f.calls ++ url ∷ [] },
)

pub record FakeSearcher : Type 0 where
  pub responses : Dict String (List Candidate)
  pub calls : List String

abbrev pub or_nil {ℓ} : {A : Type ℓ} → Option (List A) → List A
or_nil none = []
or_nil (some xs) = xs

unfoldable pub fake_search : String → ℕ → FakeSearcher → Reply (List Candidate) × FakeSearcher
fake_search query n f =
    (ok (take n (or_nil (lookup query f.responses))), record f { calls = f.calls ++ query ∷ [] })

pub record FakeParser : Type 0 where
  pub response : Retrieval
  pub calls : ℕ

unfoldable pub fake_parse : Bytes → String → FakeParser → Reply Retrieval × FakeParser
fake_parse body mime_type f = (ok f.response, record f { calls = f.calls + 1 })
