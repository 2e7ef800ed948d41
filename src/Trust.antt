-- ===== src/Trust.antt =====
-- wyndpy/trust/allowlist.py: a candidate is trusted by its host.
pub mod Hosts
mod Tests
use wyndpy.Base.{
  String, List, [], ◌∷◌, Bool, true, false, Option, none, some, ◌==◌, string_eq, if◌then◌else◌,
}
use wyndpy.Base.Text.{lstrip_glob}
use wyndpy.Base.Reply.{Reply, ok, ◌>>=◌}
use wyndpy.Base.Url.{UrlParser, host_matches}
use wyndpy.Core.Results.{Candidate}
use wyndpy.Core.Protocols.{TrustStrategy}

-- `hostname or ""`
abbrev pub host_or_empty : Option String → String
host_or_empty none = ""
host_or_empty (some host) = host

-- The loop over the patterns.
unfoldable pub trusts_host : List String → String → Bool
trusts_host [] host = false
trusts_host (pattern ∷ allow) host =
    if host_matches host (lstrip_glob pattern) then true else trusts_host allow host

-- `AllowlistTrust.is_trusted`
unfoldable pub is_trusted : UrlParser → List String → Candidate → Reply Bool
is_trusted urlparse allow candidate = do
  url ← urlparse candidate.url
  ok (trusts_host allow (host_or_empty url.hostname))

-- `AllowlistTrust(allow)` as a trust strategy. It does not touch the world.
unfoldable pub allowlist_trust : {W : Type 0} → UrlParser → List String → TrustStrategy W
allowlist_trust urlparse allow = record { is_trusted = λ c w. (is_trusted urlparse allow c, w) }
