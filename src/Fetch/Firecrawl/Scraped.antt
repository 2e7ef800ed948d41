-- ===== src/Fetch/Firecrawl/Scraped.antt =====
-- What a result of the Firecrawl adapter holds, and when the API is asked at all.
use wyndpy.Base.{
  ℕ, ◌≤◌, String, Bool, true, false, some, length, ◌==◌, ℕ_eq, string_eq, ◌≡◌, ◌≢◌, ==_iff, refl,
  subst, inl, inr, Bool-cases, arith,
}
use wyndpy.Base.Text.{strip}
use wyndpy.Base.Reply.{Exception, Reply, ok, raised, bind-ok, ok_injective}
use wyndpy.Base.Value.{Fields}
use wyndpy.Core.Results.{Bytes, RetrievalResult, result}
use wyndpy.Fetch.Network.{hash_body, Platform, Http}
use wyndpy.Fetch.Guard.Safety.{IsAllowed, url_allowed-IsAllowed}
use wyndpy.Fetch.Firecrawl.{
  FirecrawlFetcher, scrape_failed, payload_for, content_of, scraped, read_bytes, read_payload,
  has_no_scrape, allowed, after_guard, fetch,
}

module _ {W C : Type 0} (os : Platform W) (http : Http W C) where
  -- The content is not blank, and its encoding is kept whole with its hash.
  pub record IsPage (max_bytes : ℕ) (url : String) (res : RetrievalResult) : Type 0 where
    pub raw : Bytes
    pub encoded : os.encode res.content ≡ ok raw
    pub kept : res.raw_bytes ≡ some raw
    pub bounded : length raw ≤ max_bytes
    pub hashed : res.content_hash ≡ hash_body os raw
    pub visible : strip res.content ≢ ""
    pub source : res.source_url ≡ url

  pub record IsScraped (f : FirecrawlFetcher W) (url : String) (w : W) (res : RetrievalResult)
      : Type 0 where
    pub requested : IsAllowed os os.lower f.allowlist_domains url w
    pub page : IsPage f.max_bytes url res

  scrape_failed-error :
      (url : String) (e : Exception) (res : RetrievalResult) → scrape_failed url e ≢ ok (result res)
  unfolding scrape_failed
  scrape_failed-error url e res h = ground (arith, h)

  read_bytes-result :
      (f : FirecrawlFetcher W) (url : String) (payload : Fields) (now : ℕ) (raw : Bytes)
      (res : RetrievalResult)
      → read_bytes os http f url payload now raw ≡ result res
      → (length raw ≤ f.max_bytes)
        × ((strip (content_of os http payload) == "") ≡ false)
        × (scraped os http url payload now raw ≡ res)
  unfolding read_bytes
  read_bytes-result f url payload now raw res h = ground (arith, h)

  read_bytes-IsPage :
      (f : FirecrawlFetcher W) (url : String) (payload : Fields) (now : ℕ) (raw : Bytes)
      (res : RetrievalResult)
      → os.encode (content_of os http payload) ≡ ok raw
      → read_bytes os http f url payload now raw ≡ result res
      → IsPage f.max_bytes url res
  read_bytes-IsPage f url payload now raw res e h =
      let (bounded, shown, same) = read_bytes-result f url payload now raw res h in
      subst (IsPage f.max_bytes url) same (record {
        raw = raw;
        encoded = e;
        kept = refl;
        bounded = bounded;
        hashed = refl;
        visible = λ blank.
            ground (arith, shown, (==_iff (strip (content_of os http payload)) "").1 blank);
        source = refl;
      })

  read_payload-IsPage :
      (f : FirecrawlFetcher W) (url : String) (now : ℕ) (payload : Reply Fields)
      (res : RetrievalResult)
      → read_payload os http f url now payload ≡ ok (result res)
      → IsPage f.max_bytes url res
  unfolding read_payload
  read_payload-IsPage f url now (raised e) res h = absurd (scrape_failed-error url e res h)
  read_payload-IsPage f url now (ok payload) res h =
      let (raw, encoded, read) =
        bind-ok (os.encode (content_of os http payload)) _ (result res) h in
      read_bytes-IsPage f url payload now raw res encoded (ok_injective read)

  after_guard-result :
      (f : FirecrawlFetcher W) (url : String) (guard : Reply Bool × W) (res : RetrievalResult)
      → (after_guard os http f url guard).0 ≡ ok (result res)
      → (guard.0 ≡ ok true) × IsPage f.max_bytes url res
  unfolding after_guard
  after_guard-result f url (raised e, w) res h = cc
  after_guard-result f url (ok false, w) res h = cc
  after_guard-result f url (ok true, w) res h = elim (Bool-cases (has_no_scrape os http f)) [
    | inl unset ↦ ground (arith, h, unset)
    | inr usable ↦
        let (payload, w1) = payload_for os http f url w in
        (refl, read_payload-IsPage f url (os.now w1) payload res (ground (arith, h, usable)))
  ]

  -- A result of the Firecrawl adapter is for a URL that the guard allows. Its content is not blank,
  -- its encoding has at most `max_bytes` bytes, and is kept whole with its hash.
  pub fetch-IsScraped :
      (f : FirecrawlFetcher W) (url : String) (w : W) (res : RetrievalResult)
      → (fetch os http f url w).0 ≡ ok (result res)
      → IsScraped f url w res
  unfolding fetch
  fetch-IsScraped f url w res h =
      let (guarded, page) = after_guard-result f url (allowed os http f url w) res h in
      record {
        requested = url_allowed-IsAllowed os os.lower f.allowlist_domains url w guarded;
        page = page;
      }
