-- ===== src/Core/Escalation.antt =====
-- wyndpy/core/escalation.py: the rules that the router walks.
use Prim.Native.Char.{code}
use text.Mathlib.Text.{starts_with}
use wyndpy.Base.{String, Option, none, some, ◌==◌, ℕ_eq, if◌then◌else◌}

pub record EscalationRule : Type 0 where
  pub trigger : String
  pub to : String
  pub from_ : Option String

-- `s.split("=", 1)[1]`; `none` is the `IndexError` of a text without "=".
split_equals : String → Option String
split_equals String.[] = none
split_equals (String.◌∷◌ c s) = if code c == b'=' then some s else split_equals s

unfoldable pub content_type_trigger : EscalationRule → Option String
unfolding split_equals ℕ_eq
content_type_trigger rule =
    if starts_with rule.trigger "content_type=" then split_equals rule.trigger else none
