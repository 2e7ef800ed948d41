-- ===== src/Factory/Build/Wired.antt =====
-- A router that is built from a policy behaves as the policy says.
use wyndpy.Base.{
  ◌+◌, ◌*◌, ◌≤◌, Bool, none, some, length, string_eq, ◌≡◌, ◌⊎◌, refl, subst, inl, inr, arith,
}
use wyndpy.Base.Reply.{ok, traverse, bind-ok, ok_injective}
use wyndpy.Policy.{Policy}
use wyndpy.Router.Setup.{Router, new_router}
use wyndpy.Router.Action.{State}
use wyndpy.Router.TrackA.Bounds.{fetches}
use wyndpy.Router.TrackA.{resolve_known_source}
use wyndpy.Router.TrackA.Bounds.{resolve_known_source-fetches-le}
use wyndpy.Factory.Construct.{Credentials}
use wyndpy.Factory.Construct.Checked.{IsChecked, construct-IsChecked}
use wyndpy.Factory.Build.{
  Installed, Injected, names_for, given_or, config_of, instantiate_fetcher, instantiate_searcher,
  instantiate_parser, build_trust, build_registry, build_router,
}
use wyndpy.Factory.Build.Parts.{
  GivenOr, given_or-GivenOr, given_or-cases, IsAllowlist, IsBackend, build_trust-IsAllowlist,
  build_registry-IsBackend,
}

module _ {W : Type 0} (env : Installed W) where
  -- A router of checked adapters, in the order of the policy's names, where the caller gives none,
  -- with the policy's trust strategy and registry, again unless the caller gives them, and with its
  -- rules, number of candidates and review, and without retries.
  pub record IsWired (policy : Policy) (credentials : Credentials) (injected : Injected W)
      (allow_stubs : Bool) (r : Router W) : Type 0 where
    pub fetchers :
        GivenOr
          (λ name a.
            IsChecked env.fetch "fetch" name credentials allow_stubs (some policy.trust_allow) a)
          injected.fetchers
          "fetch"
          policy
          r.fetchers
    pub searchers :
        GivenOr
          (λ name a.
            IsChecked env.search "search" name credentials allow_stubs (some policy.trust_allow) a)
          injected.searchers
          "search"
          policy
          r.searchers
    pub parsers :
        GivenOr
          (λ name a. IsChecked env.parse "parse" name credentials allow_stubs none a)
          injected.parsers
          "parse"
          policy
          r.parsers
    pub trust :
        (injected.trust ≡ some r.trust)
        ⊎ ((injected.trust ≡ none) × IsAllowlist env.urlparse policy r.trust)
    pub registry :
        (injected.registry ≡ some r.registry)
        ⊎ ((injected.registry ≡ none)
            × IsBackend env.memory policy credentials allow_stubs r.registry)
    pub candidate_count : r.config.candidate_count ≡ policy.candidate_count
    pub require_review : r.config.require_review ≡ policy.require_review
    pub retry_attempts : r.config.retry_attempts ≡ 0
    pub retry_backoff_base : r.config.retry_backoff_base ≡ 200000
    pub rules : r.escalation_rules ≡ policy.escalation_rules

  -- Whatever router `build_router` gives, its adapters are those that the caller gave, or, where
  -- none are given, made for the names of the policy's role, in order and each checked with its
  -- credentials and the policy's patterns; its trust strategy is the caller's, or the allowlist of
  -- the policy, which then asks for that strategy; its registry is the caller's, or the memory
  -- registry, or, with stubs allowed, that of postgres at the address in the credentials, as the
  -- policy's backend says; its rules, number of candidates and review are the policy's, and it makes
  -- no retries.
  pub build_router-IsWired :
      (policy : Policy) (credentials : Credentials) (injected : Injected W) (allow_stubs : Bool)
      (r : Router W)
      → build_router env policy credentials injected allow_stubs ≡ ok r
      → IsWired policy credentials injected allow_stubs r
  unfolding build_router instantiate_fetcher instantiate_searcher instantiate_parser new_router
  build_router-IsWired policy credentials injected allow_stubs r h =
      let (fs, from_fs, h1) =
        bind-ok
          (given_or injected.fetchers (
            traverse (instantiate_fetcher env policy credentials allow_stubs)
              (names_for "fetch" policy)))
          _ r h in
      let (ss, from_ss, h2) =
        bind-ok
          (given_or injected.searchers (
            traverse (instantiate_searcher env policy credentials allow_stubs)
              (names_for "search" policy)))
          _ r h1 in
      let (ps, from_ps, h3) =
        bind-ok
          (given_or injected.parsers
            (traverse (instantiate_parser env credentials allow_stubs) (names_for "parse" policy)))
          _ r h2 in
      let (trust, from_trust, h4) =
        bind-ok (given_or injected.trust (build_trust env.urlparse policy)) _ r h3 in
      let (reg, from_reg, h5) =
        bind-ok
          (given_or injected.registry (build_registry env.memory policy credentials allow_stubs)) _
          r h4 in
      let same : new_router fs ss ps trust reg (some (config_of policy))
            (some policy.escalation_rules) env.sleep
          ≡ r =
        ok_injective h5 in
      subst (IsWired policy credentials injected allow_stubs) same (record {
        fetchers =
            given_or-GivenOr _ (instantiate_fetcher env policy credentials allow_stubs)
              (λ name a made.
                construct-IsChecked env.fetch "fetch" name credentials allow_stubs
                  (some policy.trust_allow) a made)
              injected.fetchers "fetch" policy fs from_fs;
        searchers =
            given_or-GivenOr _ (instantiate_searcher env policy credentials allow_stubs)
              (λ name a made.
                construct-IsChecked env.search "search" name credentials allow_stubs
                  (some policy.trust_allow) a made)
              injected.searchers "search" policy ss from_ss;
        parsers =
            given_or-GivenOr _ (instantiate_parser env credentials allow_stubs)
              (λ name a made.
                construct-IsChecked env.parse "parse" name credentials allow_stubs none a made)
              injected.parsers "parse" policy ps from_ps;
        trust = elim (given_or-cases injected.trust _ trust from_trust) [
          | inl given ↦ inl given
          | inr (free, built) ↦ inr (free, build_trust-IsAllowlist env.urlparse policy trust built)
        ];
        registry = elim (given_or-cases injected.registry _ reg from_reg) [
          | inl given ↦ inl given
          | inr (free, built) ↦
              inr
                (free, build_registry-IsBackend env.memory policy credentials allow_stubs reg built)
        ];
        candidate_count = refl;
        require_review = refl;
        retry_attempts = refl;
        retry_backoff_base = refl;
        rules = refl;
      })

  -- A router that `build_router` gives fetches at most once from each of its fetchers in a run of
  -- Track A, since no policy can ask for retries.
  pub build_router-fetches-le :
      (policy : Policy) (credentials : Credentials) (injected : Injected W) (allow_stubs : Bool)
      (r : Router W) (s : State W)
      → build_router env policy credentials injected allow_stubs ≡ ok r
      → fetches (resolve_known_source r s).1.history ≤ fetches s.history + length r.fetchers
  build_router-fetches-le policy credentials injected allow_stubs r s h =
      let wired = build_router-IsWired policy credentials injected allow_stubs r h in
      let once : r.config.retry_attempts ≡ 0 = wired.retry_attempts in
      let bound : fetches (resolve_known_source r s).1.history
          ≤ fetches s.history + length r.fetchers * (1 + 0) =
        subst
          (λ n.
            fetches (resolve_known_source r s).1.history
            ≤ fetches s.history + length r.fetchers * (1 + n))
          once (resolve_known_source-fetches-le r s) in
      omega (arith, bound)
