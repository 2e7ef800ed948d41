-- ===== src/Router/Setup/Chosen.antt =====
-- The lookups of a router, from the rules and the adapters that its constructor was given.
use wyndpy.Base.{
  String, Bool, ◌&&◌, not, List, [], ◌∷◌, Option, none, some, ◌==◌, string_eq, pair_eq,
  if◌then◌else◌,
}
use wyndpy.Base.Text.{includes}
use wyndpy.Base.Dict.{Dict}
use wyndpy.Base.Reply.{Reply}
use wyndpy.Core.Escalation.{EscalationRule, content_type_trigger}
use wyndpy.Core.Protocols.{Fetcher, Parser}
use wyndpy.Router.Setup.{or_text}

-- Of a list, what the last one that passes a test gives.
abbrev pub last_with {ℓ κ} :
    {A : Type ℓ} {B : Type κ} → (A → Bool) → (A → B) → List A → Option B → Option B
last_with test f [] before = before
last_with test f (a ∷ rest) before = last_with test f rest (if test a then some (f a) else before)

-- The adapter that a rule goes out from, and the content type that it is for, or the empty text.
abbrev pub from_of : EscalationRule → String
from_of rule = or_text rule.from_ "*"

abbrev pub mime_of : EscalationRule → String
mime_of rule = or_text (content_type_trigger rule) ""

-- A rule on an error, or on a content type, of an adapter.
abbrev pub is_for_error : String → String → EscalationRule → Bool
is_for_error name trigger rule =
    mime_of rule == "" && ◌==◌ {A = String × String} (name, trigger) (from_of rule, rule.trigger)

abbrev pub is_for_type : String → String → EscalationRule → Bool
is_for_type name mime rule =
    not (mime_of rule == "") && ◌==◌ {A = String × String} (name, mime) (from_of rule, mime_of rule)

abbrev pub target_of : EscalationRule → String
target_of rule = rule.to

module _ {W : Type 0} where
  abbrev pub fetcher_is_named : String → Fetcher W → Bool
  fetcher_is_named name f = name == f.name

  abbrev pub parser_is_named : String → Parser W → Bool
  parser_is_named name p = name == p.name

-- `own or any` for texts that may be missing.
abbrev pub or_other : Option String → Option String → Option String
or_other none any = any
or_other (some to_name) any = if to_name == "" then any else some to_name

-- The target of the last rule for an adapter, if that is not empty, or else of the last for `*`.
abbrev pub chosen_target :
    (String → String → EscalationRule → Bool)
    → String
    → String
    → List EscalationRule
    → Option String
chosen_target test name trigger rules =
    or_other (last_with (test name trigger) target_of rules none)
      (last_with (test "*" trigger) target_of rules none)

-- What follows a target, and the parser of a target.
abbrev pub fetcher_of : {W : Type 0} → List (Fetcher W) → Option String → Option (Fetcher W)
fetcher_of fs none = none
fetcher_of fs (some to_name) = last_with (fetcher_is_named to_name) (λ f. f) fs none

-- The first of a list, for a content type that has `pdf` in it.
abbrev pub first_for_pdf : {W : Type 0} → List (Parser W) → String → Option (Parser W)
first_for_pdf ps content_type =
    if includes content_type "pdf" then elim ps [ [] ↦ none | p ∷ _ ↦ some p ] else none

abbrev pub parser_of : {W : Type 0} → List (Parser W) → String → Option String → Option (Parser W)
parser_of ps content_type target =
    let to_name = or_text target "" in
    if to_name == ""
    then first_for_pdf ps content_type
    else last_with (parser_is_named to_name) (λ p. p) ps none
