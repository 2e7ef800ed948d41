-- ===== src/Fetch/Firecrawl/Effects.antt =====
-- What a fetch of the Firecrawl adapter may do to the world outside.
use wyndpy.Base.{String, Bool, true, false, ◌≡◌, refl, inl, inr, Bool-cases, string_eq}
use wyndpy.Base.Reply.{Reply, ok, raised}
use wyndpy.Fetch.Network.{Platform, Http}
use wyndpy.Fetch.Guard.Safety.{IsAllowed, LookupKeeps, url_allowed-IsAllowed, url_allowed-Keeps}
use wyndpy.Fetch.Firecrawl.{
  FirecrawlFetcher, payload_for, has_no_scrape, allowed, after_guard, fetch,
}

module _ {W C : Type 0} (os : Platform W) (http : Http W C) (Q : W → Type 0) where
  -- Lookups, and scrapes of URLs that the guard allows, keep `Q`.
  pub record Allows (f : FirecrawlFetcher W) : Type 0 where
    pub lookup : LookupKeeps os Q
    pub scrape :
        (url : String) (v w : W)
        → IsAllowed os os.lower f.allowlist_domains url v
        → Q w
        → Q (payload_for os http f url w).1

  after_guard-Keeps :
      (f : FirecrawlFetcher W) (url : String) (v : W) (guard : Reply Bool × W)
      → Allows f
      → (guard.0 ≡ ok true → IsAllowed os os.lower f.allowlist_domains url v)
      → Q guard.1
      → Q (after_guard os http f url guard).1
  unfolding after_guard
  after_guard-Keeps f url v (raised e, w) allows is_open q = q
  after_guard-Keeps f url v (ok false, w) allows is_open q = q
  after_guard-Keeps f url v (ok true, w) allows is_open q =
      elim (Bool-cases (has_no_scrape os http f)) [
        | inl without ↦ rw without q
        | inr with_scrape ↦ rw with_scrape (allows.scrape url v w (is_open refl) q)
      ]

  pub fetch-Keeps :
      (f : FirecrawlFetcher W) (url : String) (w : W) → Allows f → Q w → Q (fetch os http f url w).1
  unfolding fetch
  fetch-Keeps f url w allows q =
      after_guard-Keeps f url w (allowed os http f url w) allows
        (url_allowed-IsAllowed os os.lower f.allowlist_domains url w)
        (url_allowed-Keeps os Q allows.lookup os.lower f.allowlist_domains url w q)
