-- ===== src/Search/Exa/Listed.antt =====
-- What the candidates of the Exa searcher have in common, and which exceptions leave it.
use wyndpy.Base.{
  ℕ, ◌≤◌, String, List, [], ◌∷◌, Bool, true, false, some, ◌==◌, string_eq, All, ◌≡◌, ◌≢◌, subst,
  inl, inr, Bool-cases, Option-cases, arith,
}
use wyndpy.Base.Text.{text_length, text_length-take_chars-le}
use wyndpy.Base.Reply.{Reply, ok, bind-ok, ok_injective}
use wyndpy.Base.Url.{Url, host_allowed}
use wyndpy.Base.Value.{Fields, get_field}
use wyndpy.Core.Results.{Candidate}
use wyndpy.Fetch.Network.{Platform, Http}
use wyndpy.Search.Exa.{keep_row}
use wyndpy.Search.Exa.{
  ExaSearcher, host_listed, host_of_url_allowed, relevance, candidate_of, url_of, is_kept,
  candidates_of, refuse_search, rows_for, has_no_search, search,
}

-- An https URL with a host of the allowlist, and a snippet of at most 240 characters.
pub record IsListed {W : Type 0} (os : Platform W) (allow : List String) (c : Candidate)
    : Type 0 where
  pub parts : Url
  pub host : String
  pub parsed : os.urlparse c.url ≡ ok parts
  pub secure : parts.scheme ≡ "https"
  pub hosted : parts.hostname ≡ some host
  pub nonempty : host ≢ ""
  pub listed : host_allowed (os.lower host) allow ≡ true
  pub short : text_length c.snippet ≤ 240

module _ {W C : Type 0} (os : Platform W) (http : Http W C) where
  host_listed-true :
      (allow : List String) (url : Url)
      → host_listed os http allow url ≡ true
      → (url.scheme ≡ "https")
        × ((host : String) × (url.hostname ≡ some host)
            × (host ≢ "")
            × (host_allowed (os.lower host) allow ≡ true))
  unfolding host_listed
  host_listed-true allow url h = elim (Bool-cases (url.scheme == "https")) [
    | inr insecure ↦ ground (arith, h, insecure)
    | inl secure ↦ elim (Option-cases url.hostname) [
      | inl unhosted ↦ ground (arith, h, secure, unhosted)
      | inr (host, hosted) ↦ ground (arith, h, secure, hosted)
    ]
  ]

  candidate_of-IsListed :
      (exa : ExaSearcher W) (url : String) (row : Fields) (c : Candidate)
      → is_kept os http exa url ≡ ok true
      → candidate_of os http url row ≡ ok c
      → IsListed os exa.domain_allowlist c
  unfolding is_kept host_of_url_allowed candidate_of
  candidate_of-IsListed exa url row c kept made =
      let tested : host_of_url_allowed os http exa url ≡ ok true = ground (arith, kept) in
      let (parts, parsed, passed) = bind-ok (os.urlparse url) _ true tested in
      let (secure, (host, hosted, nonempty, listed)) =
        host_listed-true exa.domain_allowlist parts (ok_injective passed) in
      let (score, scored, same) = bind-ok (relevance os http (get_field "score" row)) _ c made in
      subst (IsListed os exa.domain_allowlist) (ok_injective same) (record {
        parts = parts;
        host = host;
        parsed = parsed;
        secure = secure;
        hosted = hosted;
        nonempty = nonempty;
        listed = listed;
        short = text_length-take_chars-le 240 _;
      })

  keep_row-IsListed :
      (exa : ExaSearcher W) (row : Fields) (kept : Bool) (rest : Reply (List Candidate))
      (cs : List Candidate)
      → is_kept os http exa (url_of os http row) ≡ ok kept
      → ((ds : List Candidate) → rest ≡ ok ds → All (IsListed os exa.domain_allowlist) ds)
      → keep_row os http row kept rest ≡ ok cs
      → All (IsListed os exa.domain_allowlist) cs
  unfolding keep_row
  keep_row-IsListed exa row false rest cs tested others h = others cs h
  keep_row-IsListed exa row true rest cs tested others h =
      let (c, made, h1) = bind-ok (candidate_of os http (url_of os http row) row) _ cs h in
      let (ds, later, h2) = bind-ok rest _ cs h1 in
      subst (All (IsListed os exa.domain_allowlist)) (ok_injective h2)
        (candidate_of-IsListed exa (url_of os http row) row c tested made, others ds later)

  candidates_of-IsListed :
      (exa : ExaSearcher W) (rows : List Fields) (cs : List Candidate)
      → candidates_of os http exa rows ≡ ok cs
      → All (IsListed os exa.domain_allowlist) cs
  unfolding candidates_of
  candidates_of-IsListed exa [] cs h =
      subst (All (IsListed os exa.domain_allowlist)) (ok_injective h) tt
  candidates_of-IsListed exa (row ∷ rows) cs h =
      let (kept, tested, h1) = bind-ok (is_kept os http exa (url_of os http row)) _ cs h in
      keep_row-IsListed exa row kept (candidates_of os http exa rows) cs tested
        (candidates_of-IsListed exa rows) h1

  -- Every candidate that `search` returns has an https URL with a host of the searcher's allowlist,
  -- and a snippet of at most 240 characters.
  pub search-IsListed :
      (exa : ExaSearcher W) (query : String) (n : ℕ) (w : W) (cs : List Candidate)
      → (search os http exa query n w).0 ≡ ok cs
      → All (IsListed os exa.domain_allowlist) cs
  unfolding search
  search-IsListed exa query n w cs h = elim (Bool-cases (has_no_search os http exa)) [
    | inl unset ↦
        let none_found : ◌≡◌ {A = Reply (List Candidate)} (ok []) (ok cs) =
          ground (arith, h, unset) in
        subst (All (IsListed os exa.domain_allowlist)) (ok_injective none_found) tt
    | inr usable ↦
        let (found, called, h1) =
          bind-ok (refuse_search (rows_for os http exa query n w).0) (candidates_of os http exa) cs
            (ground (arith, h, usable)) in
        candidates_of-IsListed exa found cs h1
  ]
