-- ===== src/Fetch/Guard/Safety.antt =====
-- What the guard on URLs lets through, and what a call of it may do to the world.
use wyndpy.Base.{
  String, List, Bool, true, false, some, ◌==◌, string_eq, ◌≡◌, ◌≢◌, inl, inr, Bool-cases,
  Option-cases, arith,
}
use wyndpy.Base.Reply.{Exception, Reply, ok, raised, Reply-cases}
use wyndpy.Base.Url.{Url, host_allowed}
use wyndpy.Fetch.Network.{IpAddress, Platform}
use wyndpy.Fetch.Guard.{
  is_internal, resolve_host, looked_up, is_private_host, in_allowlist, parts_allowed, url_allowed,
}

-- `host`, looked up in the world `w`, is no internal address, by its text or by its name.
pub record IsPublic {W : Type 0} (os : Platform W) (host : String) (w : W) : Type 0 where
  pub literal : (ip : IpAddress) → os.ip_address host ≡ ok ip → is_internal ip ≡ false
  pub by_name :
      (e : Exception) (address : String) (ip : IpAddress)
      → os.ip_address host ≡ raised e
      → (resolve_host os host w).0 ≡ ok address
      → os.ip_address address ≡ ok ip
      → is_internal ip ≡ false

-- An https URL with a host of the allowlist that is public when it is looked up in the world `w`.
pub record IsAllowed {W : Type 0} (os : Platform W) (spell : String → String) (allow : List String)
    (url : String) (w : W) : Type 0 where
  pub parts : Url
  pub host : String
  pub parsed : os.urlparse url ≡ ok parts
  pub secure : parts.scheme ≡ "https"
  pub hosted : parts.hostname ≡ some host
  pub nonempty : host ≢ ""
  pub public : IsPublic os host w
  pub listed : host_allowed (spell host) allow ≡ true

module _ {W : Type 0} (os : Platform W) where
  -- Lookups of names keep `Q`.
  abbrev pub LookupKeeps : (W → Type 0) → Type 0
  LookupKeeps Q = (host : String) (w : W) → Q w → Q (resolve_host os host w).1

  is_private_host-IsPublic :
      (host : String) (w : W) → (is_private_host os host w).0 ≡ ok false → IsPublic os host w
  unfolding is_private_host looked_up
  is_private_host-IsPublic host w h = record {
    literal = λ ip e. ground (arith, h, e);
    by_name = λ e address ip e1 e2 e3. ground (arith, h, e1, e2, e3);
  }

  in_allowlist-true :
      (spell : String → String) (allow : List String) (host : String) (private : Reply Bool)
      → in_allowlist os spell allow host private ≡ ok true
      → (private ≡ ok false) × (host_allowed (spell host) allow ≡ true)
  unfolding in_allowlist
  in_allowlist-true spell allow host (raised e) h = cc
  in_allowlist-true spell allow host (ok true) h = cc
  in_allowlist-true spell allow host (ok false) h = ground arith

  is_private_host-Keeps :
      (Q : W → Type 0)
      → LookupKeeps Q
      → (host : String) (w : W) → Q w
      → Q (is_private_host os host w).1
  unfolding is_private_host
  is_private_host-Keeps Q keeps host w q = ground (arith, keeps host w q)

  parts_allowed-true :
      (spell : String → String) (allow : List String) (parts : Url) (w : W)
      → (parts_allowed os spell allow parts w).0 ≡ ok true
      → (parts.scheme ≡ "https")
        × ((host : String) × (parts.hostname ≡ some host)
            × (host ≢ "")
            × ((is_private_host os host w).0 ≡ ok false)
            × (host_allowed (spell host) allow ≡ true))
  unfolding parts_allowed
  parts_allowed-true spell allow parts w h = elim (Bool-cases (parts.scheme == "https")) [
    | inr insecure ↦ ground (arith, h, insecure)
    | inl secure ↦ elim (Option-cases parts.hostname) [
      | inl unhosted ↦ ground (arith, h, secure, unhosted)
      | inr (host, hosted) ↦
          let last = in_allowlist-true spell allow host (is_private_host os host w).0 in
          elim (Bool-cases (host == "")) [
            | inl blank ↦ ground (arith, h, secure, hosted, blank)
            | inr nonempty ↦ ground (arith, h, secure, hosted, nonempty, last)
          ]
    ]
  ]

  parts_allowed-Keeps :
      (Q : W → Type 0)
      → LookupKeeps Q
      → (spell : String → String) (allow : List String) (parts : Url) (w : W) → Q w
      → Q (parts_allowed os spell allow parts w).1
  unfolding parts_allowed
  parts_allowed-Keeps Q keeps spell allow parts w q = elim (Option-cases parts.hostname) [
    | inl unhosted ↦ ground (arith, q, unhosted)
    | inr (host, hosted) ↦ ground (arith, q, is_private_host-Keeps Q keeps host w q, hosted)
  ]

  -- A URL that the guard allows is an https URL with a host of the allowlist that is no internal
  -- address, neither as it is written nor as its name is looked up in the world of the call.
  pub url_allowed-IsAllowed :
      (spell : String → String) (allow : List String) (url : String) (w : W)
      → (url_allowed os spell allow url w).0 ≡ ok true
      → IsAllowed os spell allow url w
  unfolding url_allowed
  url_allowed-IsAllowed spell allow url w h = elim (Reply-cases (os.urlparse url)) [
    | inr (e, unparsed) ↦ ground (arith, h, unparsed)
    | inl (parts, parsed) ↦
        let (secure, (host, hosted, nonempty, public, listed)) =
          parts_allowed-true spell allow parts w (ground (arith, h, parsed)) in
        record {
          parts = parts;
          host = host;
          parsed = parsed;
          secure = secure;
          hosted = hosted;
          nonempty = nonempty;
          public = is_private_host-IsPublic host w public;
          listed = listed;
        }
  ]

  pub url_allowed-Keeps :
      (Q : W → Type 0)
      → LookupKeeps Q
      → (spell : String → String) (allow : List String) (url : String) (w : W) → Q w
      → Q (url_allowed os spell allow url w).1
  unfolding url_allowed
  url_allowed-Keeps Q keeps spell allow url w q = elim (Reply-cases (os.urlparse url)) [
    | inr (e, unparsed) ↦ ground (arith, q, unparsed)
    | inl (parts, parsed) ↦
        ground (arith, parts_allowed-Keeps Q keeps spell allow parts w q, parsed)
  ]
