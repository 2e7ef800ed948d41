-- ===== src/Fetch/Guard/Total.antt =====
-- When the guard on URLs answers.
use wyndpy.Base.{
  String, List, [], ◌∷◌, Bool, true, false, ◌==◌, string_eq, ◌≡◌, refl, inl, inr, Bool-cases,
  Option-cases, arith,
}
use wyndpy.Base.Reply.{Exception, Reply, ok, raised, Reply-cases}
use wyndpy.Base.Url.{Url, host_allowed}
use wyndpy.Fetch.Network.{Platform}
use wyndpy.Fetch.Guard.{
  is_internal, is_value_error, is_lookup_failure, resolve_host, looked_up, is_private_host,
  in_allowlist, parts_allowed, url_allowed,
}

abbrev pub Answers {ℓ} : {A : Type ℓ} → Reply A → Type ℓ
Answers {A = A} x = (a : A) × (x ≡ ok a)

module _ {W : Type 0} (os : Platform W) where
  -- `ip_address` raises `ValueError` alone, and a lookup of a name what the guard catches.
  pub record IsDocumented : Type 0 where
    pub address :
        (text : String) (e : Exception) → os.ip_address text ≡ raised e → is_value_error e ≡ true
    pub lookup :
        (host : String) (w : W) (e : Exception)
        → (resolve_host os host w).0 ≡ raised e
        → is_lookup_failure e ≡ true

  looked_up-Answers :
      (host : String) (w : W) → IsDocumented → Answers (looked_up os (resolve_host os host w).0)
  unfolding looked_up
  looked_up-Answers host w d = elim (Reply-cases (resolve_host os host w).0) [
    | inr (e, failed) ↦ (false, ground (arith, failed, d.lookup host w e failed))
    | inl (a, found) ↦ elim (Reply-cases (os.ip_address a)) [
      | inl (ip, read) ↦ (is_internal ip, ground (arith, found, read))
      | inr (e, unread) ↦ (false, ground (arith, found, unread, d.address a e unread))
    ]
  ]

  is_private_host-Answers :
      (host : String) (w : W) → IsDocumented → Answers (is_private_host os host w).0
  unfolding is_private_host
  is_private_host-Answers host w d = elim (Reply-cases (os.ip_address host)) [
    | inl (ip, read) ↦ (is_internal ip, ground (arith, read))
    | inr (e, unread) ↦
        let (b, h) = looked_up-Answers host w d in
        (b, ground (arith, unread, h, d.address host e unread))
  ]

  in_allowlist-Answers :
      (spell : String → String) (allow : List String) (host : String) (private : Bool)
      → Answers (in_allowlist os spell allow host (ok private))
  unfolding in_allowlist
  in_allowlist-Answers spell allow host true = (false, refl)
  in_allowlist-Answers spell [] host false = (false, refl)
  in_allowlist-Answers spell (d ∷ allow) host false = (host_allowed (spell host) (d ∷ allow), refl)

  parts_allowed-Answers :
      (spell : String → String) (allow : List String) (parts : Url) (w : W)
      → IsDocumented
      → Answers (parts_allowed os spell allow parts w).0
  unfolding parts_allowed
  parts_allowed-Answers spell allow parts w d = elim (Bool-cases (parts.scheme == "https")) [
    | inr insecure ↦ (false, ground (arith, insecure))
    | inl secure ↦ elim (Option-cases parts.hostname) [
      | inl unhosted ↦ (false, ground (arith, secure, unhosted))
      | inr (host, hosted) ↦
          let (private, h) = is_private_host-Answers host w d in
          let (b, k) = in_allowlist-Answers spell allow host private in
          elim (Bool-cases (host == "")) [
            | inl blank ↦ (false, ground (arith, secure, hosted, blank))
            | inr nonempty ↦ (b, ground (arith, secure, hosted, nonempty, h, k))
          ]
    ]
  ]

  -- The guard answers for every URL that `urlparse` parses.
  pub url_allowed-Answers :
      (spell : String → String) (allow : List String) (url : String) (w : W)
      → IsDocumented
      → Answers (os.urlparse url)
      → Answers (url_allowed os spell allow url w).0
  unfolding url_allowed
  url_allowed-Answers spell allow url w d (parts, parsed) =
      let (b, h) = parts_allowed-Answers spell allow parts w d in (b, ground (arith, parsed, h))
