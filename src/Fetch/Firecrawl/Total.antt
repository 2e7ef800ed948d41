-- ===== src/Fetch/Firecrawl/Total.antt =====
-- When a fetch of the Firecrawl adapter gives an outcome, and does not raise.
use wyndpy.Base.{String, string_eq, ℕ_eq, ◌≡◌, ◌⊎◌, List, some}
use wyndpy.Base.Reply.{
  Exception, value_error, type_error, key_error, http_timeout, http_error, http_status, Reply, ok,
  raised,
}
use wyndpy.Base.Value.{Fields, Value}
use wyndpy.Fetch.Network.{Platform, Http, Response}
use wyndpy.Fetch.Guard.Total.{Answers}
use wyndpy.Fetch.Firecrawl.{FirecrawlFetcher, firecrawl_scrape_url, payload_for, content_of}

-- The exceptions that `fetch` catches.
abbrev pub IsCaught : Exception → Type 0
IsCaught (value_error _) = Unit
IsCaught (type_error _) = Unit
IsCaught (key_error _) = Unit
IsCaught (http_timeout _) = Unit
IsCaught (http_error _) = Unit
IsCaught (http_status _ _) = Unit
IsCaught _ = ⊥

-- A value, or an exception with the property.
abbrev AnswersOr : {A : Type 0} → (Exception → Type 0) → Reply A → Type 0
AnswersOr P x = Answers x ⊎ ((e : Exception) × P e × (x ≡ raised e))

module _ {W C : Type 0} (os : Platform W) (http : Http W C) where
  -- What the scrape that the caller gave has raised, or what the HTTP library has.
  pub data IsForeign (f : FirecrawlFetcher W) (url : String) (e : Exception) : Type 0 where
    of_scrape :
        (scrape : String → W → Reply Fields × W) (w : W)
        → f.scrape ≡ some scrape
        → (scrape url w).0 ≡ raised e
        → IsForeign f url e
    of_post :
        (c : C) (headers : List (String × String)) (body : Value) (w : W)
        → (http.post c firecrawl_scrape_url headers body w).0 ≡ raised e
        → IsForeign f url e
    of_status : (resp : Response) → resp.raise_for_status ≡ raised e → IsForeign f url e
    of_json : (resp : Response) → resp.json ≡ raised e → IsForeign f url e
    of_close : (c : C) (w : W) → (http.aclose c w).0 ≡ raised e → IsForeign f url e

  -- What a payload may raise.
  abbrev Raises : FirecrawlFetcher W → String → Exception → Type 0
  Raises f url e = IsCaught e ⊎ IsForeign f url e

  -- What leaves `fetch`: an exception of encoding the payload's text, or a foreign one that no
  -- `except` clause catches.
  pub data Escapes (f : FirecrawlFetcher W) (url : String) (w : W) (e : Exception) : Type 0 where
    of_encoding :
        (payload : Fields)
        → (payload_for os http f url w).0 ≡ ok payload
        → os.encode (content_of os http payload) ≡ raised e
        → Escapes f url w e
    uncaught : ¬ (IsCaught e) → IsForeign f url e → Escapes f url w e
