-- ===== src/Fetch/Tests.antt =====
-- The fetchers on a small world, and the theorems about them at concrete data.
use native.Mathlib.Decide.{dec_le}
use wyndpy.Fetch.Httpx.Shell.Tagless.{IsTagless, visible_text-IsTagless}
use wyndpy.Base.{
  ℕ, zero, suc, String, ◌<>◌, List, [], ◌∷◌, Bool, true, false, ◌+◌, ap, some, string_eq, ℕ_eq, ◌≡◌,
  refl, arith,
}
use wyndpy.Base.Text.{ends_with, includes, strip, lstrip, rstrip, sub_from, text_length, drop_chars}
use wyndpy.Base.Reply.{invalid_url, Reply, ok, raised}
use wyndpy.Base.Url.{host_matches, host_allowed}
use wyndpy.Core.Results.{RetrievalResult, Retrieval, forbidden_url}
use wyndpy.Fetch.Network.{Http}
use wyndpy.Fetch.Guard.{
  resolve_host, looked_up, is_private_host, in_allowlist, parts_allowed, url_allowed,
}
use wyndpy.Fetch.Httpx.{
  HttpxFetcher, refused, get_failed, read_response, after_redirect, on_response, after_get,
  ensure_client, after_guard, fetch, close,
}
use wyndpy.Fetch.Httpx.Shell.{
  to_gt, to_end_of, tag_at, body_at, element_at, script_at, visible_text,
}
use wyndpy.Fetch.Httpx.Safety.{IsGuarded, fetch-IsGuarded}
use wyndpy.Fetch.Httpx.Client.{Call, fetch_url, close_it, run, fetches_of, run-injected}
use wyndpy.Fetch.Httpx.Balance.{as_count, Counts, IsBalanced, IsClosed, run-IsBalanced}
use wyndpy.Fetch.SmallWorld.{
  World, open_at, shut, opened, size, add, platform, http, start, fetcher,
}

-- Opens all that a fetch computes with.
get_url : String → World → Reply Retrieval × (HttpxFetcher ℕ × World)
unfolding fetch after_guard ensure_client after_get on_response after_redirect read_response
    get_failed url_allowed parts_allowed in_allowlist is_private_host looked_up resolve_host
    host_allowed host_matches ends_with includes string_eq ℕ_eq
get_url url w = fetch platform http fetcher url w

script_dropped : visible_text " <script a>if (a > b) {}</script><b>x</b> y " ≡ "x y"
unfolding visible_text strip lstrip rstrip sub_from script_at element_at body_at to_end_of tag_at
    to_gt text_length drop_chars string_eq ℕ_eq dec_le
script_dropped = refl

internal_refused :
    (get_url "https://10.0.0.1/" start).0
    ≡ ok (refused forbidden_url ("URL rejected by allowlist/SSRF guard: " <> "https://10.0.0.1/"))
unfolding get_url
internal_refused = refl

redirect_refused :
    (get_url "https://a.example/p" start).0
    ≡ ok (refused forbidden_url ("Redirect left allowlist: " <> "http://b.example/"))
unfolding get_url
redirect_refused = refl

abbrev kept : RetrievalResult
kept = record {
  content = "";
  content_type = "application/pdf";
  source_url = "https://a.example/f.pdf";
  content_hash = "digest";
  provider_used = "httpx";
  raw_bytes = some (37 ∷ 80 ∷ 68 ∷ []);
  retrieved_at = 7;
}

fetch-IsGuarded_example : IsGuarded platform http fetcher "https://a.example/f.pdf" start kept
unfolding get_url
fetch-IsGuarded_example =
    fetch-IsGuarded platform http fetcher "https://a.example/f.pdf" start kept refl

-- A URL that passes the guard and that httpx refuses, such as one with a port that is no number.
abbrev refusing : Http World ℕ
refusing = record http { get = λ c url headers w. (raised (invalid_url "Invalid port"), w) }

invalid_url_raised :
    (fetch platform refusing fetcher "https://a.example/p" start).0
    ≡ raised (invalid_url "Invalid port")
unfolding fetch after_guard ensure_client after_get get_failed url_allowed parts_allowed
    in_allowlist is_private_host looked_up resolve_host host_allowed host_matches ends_with
    string_eq ℕ_eq
invalid_url_raised = refl

abbrev calls : List Call
calls =
    fetch_url "https://a.example/f.pdf" ∷ close_it ∷ fetch_url "https://a.example/p" ∷ close_it ∷ []

abbrev shared : HttpxFetcher ℕ
shared = record fetcher { client = some 4; owns_client = false }

run-injected_example :
    ((run platform http calls (shared, start)).0 ≡ shared)
    × (run platform http calls (shared, start)
        ≡ run platform http (fetches_of calls) (shared, start))
run-injected_example =
    run-injected platform http 4 calls shared start (record { client = refl; owned = refl })

opened-add : (clients : List Bool) → opened (add clients) ≡ suc (opened clients)
opened-add [] = refl
opened-add (true ∷ clients) = ap suc (opened-add clients)
opened-add (false ∷ clients) = opened-add clients

open_at-add : (clients : List Bool) → open_at (size clients) (add clients) ≡ true
open_at-add [] = refl
open_at-add (b ∷ clients) = open_at-add clients

open_at-shut : (c : ℕ) (clients : List Bool) → open_at c (shut c clients) ≡ false
open_at-shut c [] = refl
open_at-shut zero (b ∷ clients) = refl
open_at-shut (suc c) (b ∷ clients) = open_at-shut c clients

opened-shut :
    (c : ℕ) (clients : List Bool)
    → opened (shut c clients) + as_count (open_at c clients) ≡ opened clients
opened-shut c [] = refl
opened-shut zero (true ∷ clients) = omega arith
opened-shut zero (false ∷ clients) = omega arith
opened-shut (suc c) (true ∷ clients) = omega (arith, opened-shut c clients)
opened-shut (suc c) (false ∷ clients) = opened-shut c clients

abbrev is_open : ℕ → World → Bool
is_open c w = open_at c w.clients

counts : Counts platform http (λ w. opened w.clients) is_open
unfolding resolve_host
counts = record {
  lookup = λ host w. refl;
  lookup_open = λ c host w. refl;
  create = λ limit headers redirects w. opened-add w.clients;
  create_open = λ limit headers redirects w. open_at-add w.clients;
  get = λ c url w. refl;
  get_open = λ c url w. refl;
  close = λ c w. opened-shut c w.clients;
  close_open = λ c w. open_at-shut c w.clients;
}

run-IsBalanced_example :
    (let (f, w) = run platform http calls (fetcher, start) in
      IsBalanced platform http (λ w. opened w.clients) is_open 0 (f, w)
      × IsClosed platform http (λ w. opened w.clients) 0 (close platform http f w))
run-IsBalanced_example =
    run-IsBalanced platform http (λ w. opened w.clients) is_open 0 calls (fetcher, start) counts
      (record { owned = refl; total = refl })

-- A tag inside a tag, and a script whose removal leaves one.
visible_text-IsTagless_example : IsTagless (visible_text "<p <b> a <scr<script>x</script>ipt> < b")
visible_text-IsTagless_example = visible_text-IsTagless "<p <b> a <scr<script>x</script>ipt> < b"
