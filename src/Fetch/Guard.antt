-- ===== src/Fetch/Guard.antt =====
-- wyndpy/fetch/httpx_adapter.py and firecrawl_adapter.py: the guard that a URL has to pass.
pub mod Safety
pub mod Total
use wyndpy.Base.{
  ℕ, String, List, [], ◌∷◌, Bool, true, false, not, ◌||◌, Option, none, some, ◌==◌, string_eq,
  if◌then◌else◌,
}
use wyndpy.Base.Reply.{Exception, value_error, os_error, timeout_error, Reply, ok, raised, ◌>>=◌}
use wyndpy.Base.Url.{Url, host_allowed}
use wyndpy.Fetch.Network.{IpAddress, Platform}

-- `ip.is_private or ip.is_loopback or ip.is_link_local`
abbrev pub is_internal : IpAddress → Bool
is_internal ip = ip.is_private || ip.is_loopback || ip.is_link_local

abbrev pub is_value_error : Exception → Bool
is_value_error (value_error _) = true
is_value_error _ = false

-- The exceptions that `_is_private_host` catches after the name is looked up.
abbrev pub is_lookup_failure : Exception → Bool
is_lookup_failure (value_error _) = true
is_lookup_failure (os_error _) = true
is_lookup_failure (timeout_error _) = true
is_lookup_failure _ = false

-- `not allowlist_domains`
abbrev pub is_empty {ℓ} : {A : Type ℓ} → List A → Bool
is_empty [] = true
is_empty (_ ∷ _) = false

-- `_DNS_TIMEOUT_S`
abbrev dns_timeout_s : ℕ
dns_timeout_s = 2

module _ {W : Type 0} (os : Platform W) where
  unfoldable pub resolve_host : String → W → Reply String × W
  resolve_host host w = os.gethostbyname dns_timeout_s host w

  -- What the second `try` gives for the address that the name has.
  unfoldable pub looked_up : Reply String → Reply Bool
  looked_up address = elim (do a ← address; os.ip_address a) [
    | ok ip ↦ ok (is_internal ip)
    | raised e ↦ if is_lookup_failure e then ok false else raised e
  ]

  unfoldable pub is_private_host : String → W → Reply Bool × W
  is_private_host host w = elim (os.ip_address host) [
    | ok ip ↦ (ok (is_internal ip), w)
    | raised e ↦
        let (address, w1) = resolve_host host w in
        if is_value_error e then (looked_up address, w1) else (raised e, w)
  ]

  -- The tests on a host that is not private.
  unfoldable pub in_allowlist : (String → String) → List String → String → Reply Bool → Reply Bool
  in_allowlist spell allow host (raised e) = raised e
  in_allowlist spell allow host (ok true) = ok false
  in_allowlist spell allow host (ok false) =
      if is_empty allow then ok false else ok (host_allowed (spell host) allow)

  -- The guard on the parts of a URL. `spell` is what an adapter does to the host before it looks
  -- for it in the allowlist.
  unfoldable pub parts_allowed : (String → String) → List String → Url → W → Reply Bool × W
  parts_allowed spell allow url w =
      if not (url.scheme == "https") then (ok false, w) else elim url.hostname [
        | none ↦ (ok false, w)
        | some host ↦
            let (private, w1) = is_private_host host w in
            if host == "" then (ok false, w) else (in_allowlist spell allow host private, w1)
      ]

  unfoldable pub url_allowed : (String → String) → List String → String → W → Reply Bool × W
  url_allowed spell allow url w = elim (os.urlparse url) [
    | ok parts ↦ parts_allowed spell allow parts w
    | raised e ↦ (raised e, w)
  ]
