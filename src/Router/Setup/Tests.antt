-- ===== src/Router/Setup/Tests.antt =====
-- The lookups of a router with rules that meet.
use wyndpy.Base.{List, [], ◌∷◌, none, some, ◌≡◌, refl, string_eq, pair_eq, ℕ_eq}
use wyndpy.Base.Dict.{lookup, insert}
use wyndpy.Core.Results.{empty_shell, timeout}
use wyndpy.Core.Escalation.{EscalationRule, content_type_trigger}
use wyndpy.Router.Setup.{Router, new_router, next_fetcher_config_driven}
use wyndpy.Router.Desk.{
  Desk, fast_fetcher, slow_fetcher, desk_parser, trusting, desk_registry, no_wait,
}

-- A rule for any adapter, one for an adapter that a later one replaces, and one for a type.
abbrev rules : List EscalationRule
rules =
    record { trigger = "timeout"; to = "slow"; from_ = none }
    ∷ record { trigger = "empty_shell"; to = "missing"; from_ = some "fast" }
    ∷ record { trigger = "empty_shell"; to = "slow"; from_ = some "fast" }
    ∷ record { trigger = "content_type=application/pdf"; to = "fake_parser"; from_ = none }
    ∷ []

router : Router Desk
unfolding new_router string_eq pair_eq content_type_trigger
router =
    new_router (fast_fetcher ∷ slow_fetcher ∷ []) [] (desk_parser ∷ []) trusting desk_registry none
      (some rules) no_wait

by_rule : next_fetcher_config_driven router "fast" empty_shell ≡ some slow_fetcher
unfolding router next_fetcher_config_driven lookup insert
by_rule = refl

by_any : next_fetcher_config_driven router "fast" timeout ≡ some slow_fetcher
unfolding router next_fetcher_config_driven lookup insert
by_any = refl

no_rule : next_fetcher_config_driven router "slow" empty_shell ≡ none
unfolding router next_fetcher_config_driven lookup insert
no_rule = refl
