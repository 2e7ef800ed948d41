-- ===== src/Base/Url.antt =====
-- What the adapters read of `urllib.parse.urlparse`, which is a parameter of the model, and the
-- test of a host against a list of domains that three adapters write out alike.
use Prim.Native.String.{String, ◌++◌}
use mathlib.Core.Bool.{Bool, false, ◌||◌}
use mathlib.Core.Option.{Option}
use mathlib.Core.List.{List, [], ◌∷◌}
use wyndpy.Base.Equality.{◌==◌, string_eq}
use wyndpy.Base.Text.{ends_with}
use wyndpy.Base.Reply.{Reply}

-- `hostname` is in lower case, and `None` where the URL has no host.
pub record Url : Type 0 where
  pub scheme : String
  pub hostname : Option String

-- `urlparse` raises `ValueError` on some texts.
abbrev pub UrlParser : Type 0
UrlParser = String → Reply Url

-- `host == d or host.endswith(f".{d}")`
unfoldable pub host_matches : String → String → Bool
host_matches host d = host == d || ends_with host ("." ++ d)

-- `any(... for d in domains)`
unfoldable pub host_allowed : String → List String → Bool
host_allowed host [] = false
host_allowed host (d ∷ domains) = host_matches host d || host_allowed host domains
