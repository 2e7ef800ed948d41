-- ===== src/Trust/Hosts.antt =====
-- The trust strategy and the fetchers agree on which hosts a policy allows.
use wyndpy.Base.{
  String, List, [], ◌∷◌, ◌++◌, true, false, not, ◌&&◌, ◌||◌, none, contains, ◌==◌, ==_iff,
  string_eq, ◌≡◌, ◌≢◌, refl, ◌∙◌, inl, inr, Bool-cases, arith, if◌then◌else◌,
}
use wyndpy.Base.Text.{ends_with, lstrip_glob}
use wyndpy.Base.Url.{UrlParser, host_matches, host_allowed}
use wyndpy.Base.Reply.{ok}
use wyndpy.Core.Results.{Candidate}
use wyndpy.Trust.{trusts_host, is_trusted}
use wyndpy.Factory.Allow.{normalize_from, normalize_allow}

-- A host name that is not empty and does not end in a dot.
pub record IsProperHost (host : String) : Type 0 where
  pub nonempty : host ≢ ""
  pub undotted : ends_with host "." ≡ false

host_allowed-append :
    (host d : String) (ds : List String)
    → host_allowed host (ds ++ d ∷ []) ≡ (host_allowed host ds || host_matches host d)
unfolding host_allowed
host_allowed-append host d [] = ground arith
host_allowed-append host d (x ∷ ds) = ground (arith, host_allowed-append host d ds)

host_allowed_of_contains :
    (host d : String) (ds : List String)
    → contains ds d ≡ true
    → host_matches host d ≡ true
    → host_allowed host ds ≡ true
unfolding host_allowed
host_allowed_of_contains host d [] h m = cc
host_allowed_of_contains host d (x ∷ ds) h m = elim (Bool-cases (d == x)) [
  | inl same ↦ rw (← (==_iff d x).0 same, m) refl
  | inr other ↦ ground (arith, host_allowed_of_contains host d ds)
]

host_matches_empty : (host : String) → IsProperHost host → host_matches host "" ≡ false
unfolding host_matches
host_matches_empty host h = ground (arith, h.nonempty, h.undotted)

-- One round of `_normalize_allow` adds what its pattern allows, and no more.
abbrev with_domain : List String → String → List String
with_domain acc d = if not (d == "") && not (contains acc d) then acc ++ d ∷ [] else acc

with_domain-host_allowed :
    (host d : String) (acc : List String)
    → IsProperHost host
    → host_allowed host (with_domain acc d) ≡ (host_allowed host acc || host_matches host d)
with_domain-host_allowed host d acc h = elim (Bool-cases (d == "")) [
  | inl empty ↦
      let no_match : host_matches host d ≡ false =
        rw ((==_iff d "").0 empty) (host_matches_empty host h) in
      ground (arith, no_match)
  | inr nonempty ↦
      ground (arith, host_allowed-append host d acc, host_allowed_of_contains host d acc)
]

normalize_from-host_allowed :
    (host : String) (acc domains : List String)
    → IsProperHost host
    → host_allowed host (normalize_from acc domains)
      ≡ (host_allowed host acc || trusts_host domains host)
unfolding normalize_from trusts_host
normalize_from-host_allowed host acc [] h = ground arith
normalize_from-host_allowed host acc (raw ∷ domains) h =
    normalize_from-host_allowed host (with_domain acc (lstrip_glob raw)) domains h
    ∙ rw (with_domain-host_allowed host (lstrip_glob raw) acc h) (ground arith)

-- For a proper host name, a policy's allowlist as `_normalize_allow` passes it to the fetchers
-- allows exactly the hosts that the trust strategy trusts.
pub normalize_allow-host_allowed :
    (host : String) (allow : List String)
    → IsProperHost host
    → host_allowed host (normalize_allow allow) ≡ trusts_host allow host
unfolding normalize_allow host_allowed
normalize_allow-host_allowed host allow h = normalize_from-host_allowed host [] allow h

normalize_from-trusts_host :
    (host : String) (acc domains : List String)
    → host_allowed host (normalize_from acc domains) ≡ true
    → (host_allowed host acc || trusts_host domains host) ≡ true
unfolding normalize_from trusts_host
normalize_from-trusts_host host acc [] h = ground (arith, h)
normalize_from-trusts_host host acc (raw ∷ domains) h =
    let d = lstrip_glob raw in
    ground (
      arith,
      normalize_from-trusts_host host (with_domain acc d) domains h,
      host_allowed-append host d acc,
    )

-- Whatever host the fetchers' allowlist allows, the trust strategy trusts.
pub normalize_allow-trusts_host :
    (host : String) (allow : List String)
    → host_allowed host (normalize_allow allow) ≡ true
    → trusts_host allow host ≡ true
unfolding normalize_allow host_allowed
normalize_allow-trusts_host host allow h = normalize_from-trusts_host host [] allow h

-- A pattern made of `*` and `.` alone.
abbrev pub IsBlank : String → Type 0
IsBlank pattern = lstrip_glob pattern ≡ ""

trusts_host-blank :
    (allow : List String) (pattern : String)
    → contains allow pattern ≡ true
    → IsBlank pattern
    → trusts_host allow "" ≡ true
unfolding trusts_host host_matches
trusts_host-blank [] pattern h b = cc
trusts_host-blank (x ∷ allow) pattern h b = elim (Bool-cases (pattern == x)) [
  | inl same ↦ rw (← (==_iff pattern x).0 same, b) (ground arith)
  | inr other ↦ ground (arith, trusts_host-blank allow pattern)
]

-- With a pattern of `*` and `.` alone in the allowlist, the trust strategy trusts every candidate
-- whose URL has no host, though no list of domains for the fetchers comes from such a pattern.
pub is_trusted-hostless :
    (urlparse : UrlParser) (allow : List String) (pattern scheme : String) (c : Candidate)
    → contains allow pattern ≡ true
    → IsBlank pattern
    → urlparse c.url ≡ ok (record { scheme = scheme; hostname = none })
    → (is_trusted urlparse allow c ≡ ok true) × (normalize_allow (pattern ∷ []) ≡ [])
unfolding is_trusted normalize_allow normalize_from
is_trusted-hostless urlparse allow pattern scheme c h b e =
    (rw (e, trusts_host-blank allow pattern h b) refl, rw b (ground arith))
