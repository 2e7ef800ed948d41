-- ===== src/Fetch/Httpx/Total.antt =====
-- When a fetch of the httpx adapter gives an outcome, and does not raise.
use wyndpy.Base.{String, [], Bool, true, string_eq, ◌≡◌, ap, ◌⊎◌, arith}
use wyndpy.Base.Reply.{Exception, http_timeout, http_error, http_status, Reply, ok, raised}
use wyndpy.Core.Results.{Retrieval}
use wyndpy.Fetch.Network.{Platform, Http, Response}
use wyndpy.Fetch.Guard.{url_allowed}
use wyndpy.Fetch.Guard.Total.{Answers}
use wyndpy.Fetch.Httpx.{HttpxFetcher, allowed, ensure_client, after_guard, fetch}

-- A subclass of `httpx.HTTPError`.
abbrev pub IsHttpError : Exception → Type 0
IsHttpError (http_timeout _) = Unit
IsHttpError (http_error _) = Unit
IsHttpError (http_status _ _) = Unit
IsHttpError _ = ⊥

module _ {W C : Type 0} (os : Platform W) (http : Http W C) where
  -- The URL of a response can be parsed.
  pub record GetIsDocumented : Type 0 where
    pub final_url :
        (c : C) (url : String) (w : W) (resp : Response)
        → (http.get c url [] w).0 ≡ ok resp
        → Answers (os.urlparse resp.url)

  -- A reply, or an exception that the GET has raised and that is no subclass of `httpx.HTTPError`.
  abbrev IsLetThrough : Reply Response → Reply Retrieval → Type 0
  IsLetThrough got reply =
      Answers reply
      ⊎ ((e : Exception) × (got ≡ raised e) × (¬ (IsHttpError e)) × (reply ≡ raised e))

  -- What the GET of a URL gives, once the guard has let the URL through in the world `w`.
  abbrev pub got : HttpxFetcher C → String → W → Reply Response
  got f url w = let (c, (_, w1)) = ensure_client os http f w in (http.get c url [] w1).0

  -- `fetch` gives an outcome, or raises what its GET has raised and does not derive from
  -- `httpx.HTTPError`.
  abbrev pub AnswersOrRaises : HttpxFetcher C → String → Reply Bool × W → Reply Retrieval → Type 0
  AnswersOrRaises f url guard reply =
      Answers reply
      ⊎ ((e : Exception) × (guard.0 ≡ ok true)
          × (got f url guard.1 ≡ raised e)
          × (¬ (IsHttpError e))
          × (reply ≡ raised e))

  url_allowed-unparsed :
      (f : HttpxFetcher C) (url : String) (w : W) (e : Exception)
      → os.urlparse url ≡ raised e
      → allowed os http f url w ≡ (raised e, w)
  unfolding url_allowed
  url_allowed-unparsed f url w e h = ground (arith, h)

  -- Where `urlparse` raises, so does `fetch`, and it leaves the fetcher and the world as they were.
  pub fetch-unparsed :
      (f : HttpxFetcher C) (url : String) (w : W) (e : Exception)
      → os.urlparse url ≡ raised e
      → fetch os http f url w ≡ (raised e, (f, w))
  unfolding fetch after_guard
  fetch-unparsed f url w e h = ap (after_guard os http f url) (url_allowed-unparsed f url w e h)
