-- ===== src/Trust/Tests.antt =====
-- The trust strategy on concrete lists, and the theorems about it at concrete data.
use text.Mathlib.TextEquality.{eq_iff}
use wyndpy.Base.{String, List, [], ◌∷◌, true, false, none, ◌≡◌, refl, string_eq, ℕ_eq, arith}
use wyndpy.Base.Text.{ends_with, lstrip_glob}
use wyndpy.Base.Url.{UrlParser, host_matches, host_allowed}
use wyndpy.Base.Reply.{ok}
use wyndpy.Core.Results.{Candidate}
use wyndpy.Trust.{trusts_host, is_trusted}
use wyndpy.Trust.Hosts.{IsProperHost, normalize_allow-host_allowed, is_trusted-hostless}
use wyndpy.Factory.Allow.{normalize_allow}

abbrev allow : List String
allow = "*.vendor.example" ∷ "docs.example" ∷ "*" ∷ "vendor.example" ∷ []

normalized : normalize_allow allow ≡ "vendor.example" ∷ "docs.example" ∷ []
unfolding normalize_allow lstrip_glob string_eq
normalized = refl

subdomain_trusted : trusts_host allow "www.vendor.example" ≡ true
unfolding trusts_host host_matches ends_with lstrip_glob
subdomain_trusted = refl

lookalike_refused : trusts_host allow "evilvendor.example" ≡ false
unfolding trusts_host host_matches ends_with lstrip_glob
lookalike_refused = refl

proper : IsProperHost "www.vendor.example"
unfolding ends_with string_eq
proper = record { nonempty = λ e. ground (arith, eq_iff "www.vendor.example" ""); undotted = refl }

normalize_allow-host_allowed_example :
    host_allowed "www.vendor.example" (normalize_allow allow)
    ≡ trusts_host allow "www.vendor.example"
normalize_allow-host_allowed_example =
    normalize_allow-host_allowed "www.vendor.example" allow proper

abbrev no_host : UrlParser
no_host url = ok (record { scheme = ""; hostname = none })

abbrev stray : Candidate
stray = record { url = "not-a-url"; relevance_score = record { bits = 0 }; snippet = "" }

is_trusted-hostless_example :
    (is_trusted no_host allow stray ≡ ok true) × (normalize_allow ("*" ∷ []) ≡ [])
unfolding string_eq lstrip_glob
is_trusted-hostless_example = is_trusted-hostless no_host allow "*" "" stray refl refl refl
