-- ===== src/Factory/Build/Trusted.antt =====
-- The allowlist of a policy, from the policy to what a router that is built from it finds.
use wyndpy.Base.{
  String, List, Bool, Option, true, false, none, some, contains, string_eq, ◌≡◌, ◌⊎◌, inl, inr, sym,
  ap, ◌∙◌, subst, arith,
}
use wyndpy.Base.Reply.{ok, bind-ok, ok_injective}
use wyndpy.Base.Url.{UrlParser, Url}
use wyndpy.Core.Results.{Candidate}
use wyndpy.Core.Item.{ResolvableItem}
use wyndpy.Core.Protocols.{TrustStrategy}
use wyndpy.Policy.{Policy}
use wyndpy.Trust.{allowlist_trust, is_trusted, trusts_host, host_or_empty}
use wyndpy.Router.Setup.{Router}
use wyndpy.Router.Action.{State, returned}
use wyndpy.Router.TrackB.{discover_source}
use wyndpy.Router.TrackB.Discovered.{Discovered, found, nothing, discover_source-Discovered}
use wyndpy.Factory.Construct.{Credentials}
use wyndpy.Factory.Build.{Installed, Injected, build_router}
use wyndpy.Factory.Build.Wired.{build_router-IsWired}
use wyndpy.Factory.Build.Parts.{IsAllowlist}

is_trusted-host :
    (urlparse : UrlParser) (allow : List String) (c : Candidate)
    → is_trusted urlparse allow c ≡ ok true
    → (url : Url) × (urlparse c.url ≡ ok url)
      × (trusts_host allow (host_or_empty url.hostname) ≡ true)
unfolding is_trusted
is_trusted-host urlparse allow c h =
    let (url, parsed, h1) = bind-ok (urlparse c.url) _ true h in (url, parsed, ok_injective h1)

-- A candidate that was found has been trusted, and was new.
Discovered-some :
    {W : Type 0} (r : Router W) (i : ResolvableItem) (t : State W) (c : Candidate)
    → Discovered r i (some c) t
    → (contains i.discovered_urls_seen c.url ≡ false)
      × ((w : W) × ((w' : W) × (r.trust.is_trusted c w ≡ (ok true, w'))))
Discovered-some {W = W} r i t c (found c' w w' h same new trusted _ _) =
    let e : c ≡ c' = ground (arith, same) in
    subst
      (λ x.
        (contains i.discovered_urls_seen x.url ≡ false)
        × ((w : W) × ((w' : W) × (r.trust.is_trusted x w ≡ (ok true, w')))))
      (sym e) (new, (w, (w', trusted)))
Discovered-some r i t c (nothing h absent _ _) = absurd (ground (arith, absent))

-- Where the caller gives no trust strategy, a candidate that a router built from a policy discovers
-- has a URL that was not seen before and that can be parsed, and its host, empty where there is
-- none, matches the allowlist of the policy.
pub build_router-discovers :
    {W : Type 0} (env : Installed W) (policy : Policy) (credentials : Credentials)
    (injected : Injected W) (allow_stubs : Bool) (r : Router W) (s t : State W) (c : Candidate)
    → injected.trust ≡ none
    → build_router env policy credentials injected allow_stubs ≡ ok r
    → discover_source r s ≡ (returned (some c), t)
    → (contains s.item.discovered_urls_seen c.url ≡ false)
      × ((url : Url) × (env.urlparse c.url ≡ ok url)
          × (trusts_host policy.trust_allow (host_or_empty url.hostname) ≡ true))
unfolding allowlist_trust
build_router-discovers {W = W} env policy credentials injected allow_stubs r s t c free built run =
    let wired = build_router-IsWired env policy credentials injected allow_stubs r built in
    let is_allowlist = policy_trust injected.trust free wired.trust in
    let (u, _, d, _, _) = discover_source-Discovered r s t (some c) run in
    let (new, (w, (w', trusted))) = Discovered-some r s.item u c d in
    (
      new,
      is_trusted-host env.urlparse policy.trust_allow c
          (ap (λ x. x.0) (ap (λ (x : TrustStrategy W). x.is_trusted c w) is_allowlist ∙ trusted)),
    )
  where
    policy_trust :
        (given : Option (TrustStrategy W))
        → given ≡ none
        → (given ≡ some r.trust) ⊎ ((given ≡ none) × IsAllowlist env.urlparse policy r.trust)
        → allowlist_trust env.urlparse policy.trust_allow ≡ r.trust
    policy_trust given free (inl there) = absurd (ground (arith, free, there))
    policy_trust given free (inr (_, is_allowlist)) = sym is_allowlist.patterns
