-- ===== src/Fetch/Httpx/Shell.antt =====
-- wyndpy/fetch/httpx_adapter.py, the empty-shell heuristic: the two calls of `re.sub`, by what
-- their patterns match, and `strip`. No match is empty, and none depends on how another ends.
pub mod Tagless
use Prim.Native.Char.{code}
use Prim.Native.String.{[], ◌∷◌}
use text.Mathlib.Text.{starts_with}
use wyndpy.Base.{ℕ, suc, ◌+◌, String, ◌<>◌, ◌&&◌, Option, none, some, ◌==◌, ℕ_eq, if◌then◌else◌}
use wyndpy.Base.Text.{drop_chars, strip, sub_from, text_length}

infixl 5 ◌>>=◌
abbrev ◌>>=◌ : Option ℕ → (ℕ → Option ℕ) → Option ℕ
none >>= f = none
some n >>= f = f n

-- `[^>]*>`: the length of a text up to the end of its first `>`.
unfoldable pub to_gt : String → Option ℕ
unfolding ℕ_eq
to_gt [] = none
to_gt (c ∷ s) = let rest = to_gt s in if code c == b'>' then some 1 else (do n ← rest; some (suc n))

-- `.*?t`: the length of a text up to the end of the first occurrence of `t`.
unfoldable pub to_end_of : String → String → Option ℕ
to_end_of t [] = if starts_with [] t then some (text_length t) else none
to_end_of t (c ∷ s) =
    let rest = to_end_of t s in
    if starts_with (c ∷ s) t then some (text_length t) else (do n ← rest; some (suc n))

-- `<[^>]+>`
unfoldable pub tag_at : String → Option ℕ
unfolding to_gt ℕ_eq
tag_at [] = none
tag_at (c ∷ s) =
    if code c == b'<' then (do n ← to_gt s; if n == 1 then none else some (suc n)) else none

-- `[^>]*>.*?</\1>` behind a name.
unfoldable pub body_at : String → String → Option ℕ
unfolding to_gt to_end_of
body_at name s = do n ← to_gt s; m ← to_end_of ("</" <> name <> ">") (drop_chars n s); some (n + m)

-- `<(name)[^>]*>.*?</\1>` for one name.
unfoldable pub element_at : String → String → Option ℕ
unfolding body_at ℕ_eq
element_at name [] = none
element_at name (c ∷ s) =
    let rest = body_at name (drop_chars (text_length name) s) in
    if code c == b'<' && starts_with s name
    then (do n ← rest; some (1 + text_length name + n))
    else none

-- `<(script|style)[^>]*>.*?</\1>`
unfoldable pub script_at : String → Option ℕ
unfolding element_at
script_at s = elim (element_at "script" s) [ some n ↦ some n | none ↦ element_at "style" s ]

unfoldable pub visible_text : String → String
unfolding sub_from script_at tag_at
visible_text text = strip (sub_from tag_at 0 (sub_from script_at 0 text))
