-- ===== src/Base/Text.antt =====
-- The methods of Python's `str` that the source calls, by recursion over the characters.
use Prim.Native.Nat.{ℕ, zero, suc, ◌-◌, ◌≤◌}
use Prim.Native.Char.{Char, code}
use Prim.Native.String.{String, [], ◌∷◌}
use mathlib.Core.Bool.{Bool, ◌||◌, ◌&&◌}
use mathlib.Core.Option.{Option, none, some}
use native.Mathlib.Omega.{arith}
use text.Mathlib.Text.{starts_with}
use wyndpy.Base.Equality.{◌==◌, leb, string_eq, ℕ_eq, if◌then◌else◌}

-- `s.endswith(t)`
unfoldable pub ends_with : String → String → Bool
unfolding string_eq
ends_with [] t = [] == t
ends_with (c ∷ s) t = (c ∷ s) == t || ends_with s t

-- `t in s`
unfoldable pub includes : String → String → Bool
includes [] t = starts_with [] t
includes (c ∷ s) t = starts_with (c ∷ s) t || includes s t

-- One of the characters that `lstrip("*.")` drops.
abbrev pub is_glob : Char → Bool
is_glob c = code c == b'*' || code c == b'.'

-- `s.lstrip("*.")`
unfoldable pub lstrip_glob : String → String
unfolding ℕ_eq
lstrip_glob [] = []
lstrip_glob (c ∷ s) = if is_glob c then lstrip_glob s else c ∷ s

-- What is left of a text without its first `n` characters.
unfoldable pub drop_chars : ℕ → String → String
drop_chars zero s = s
drop_chars (suc n) [] = []
drop_chars (suc n) (c ∷ s) = drop_chars n s

-- `len(s)`
unfoldable pub text_length : String → ℕ
text_length [] = 0
text_length (c ∷ s) = suc (text_length s)

-- The characters for which `str.isspace` holds.
abbrev pub is_space : Char → Bool
is_space c =
    let n = code c in
    (leb 9 n && leb n 13)
    || (leb 28 n && leb n 32)
    || n == 133
    || n == 160
    || n == 5760
    || (leb 8192 n && leb n 8202)
    || n == 8232
    || n == 8233
    || n == 8239
    || n == 8287
    || n == 12288

unfoldable pub lstrip : String → String
unfolding ℕ_eq
lstrip [] = []
lstrip (c ∷ s) = if is_space c then lstrip s else c ∷ s

unfoldable pub rstrip : String → String
unfolding ℕ_eq string_eq
rstrip [] = []
rstrip (c ∷ s) = let rest = rstrip s in if is_space c && rest == [] then [] else c ∷ rest

-- `s.strip()`
unfoldable pub strip : String → String
strip s = rstrip (lstrip s)

-- `re.sub` by the empty text: `match_at` gives the length of a match at the start of a text, and
-- the first argument counts the characters of a match that are still to be dropped.
unfoldable pub sub_from : (String → Option ℕ) → ℕ → String → String
sub_from match_at skip [] = []
sub_from match_at (suc skip) (c ∷ s) = sub_from match_at skip s
sub_from match_at zero (c ∷ s) = elim (match_at (c ∷ s)) [
  | none ↦ c ∷ sub_from match_at zero s
  | some n ↦ sub_from match_at (n - 1) s
]

-- `s[:n]`
unfoldable pub take_chars : ℕ → String → String
take_chars zero s = []
take_chars (suc n) [] = []
take_chars (suc n) (c ∷ s) = c ∷ take_chars n s

pub text_length-take_chars-le : (n : ℕ) (s : String) → text_length (take_chars n s) ≤ n
unfolding take_chars text_length
text_length-take_chars-le zero s = omega arith
text_length-take_chars-le (suc n) [] = omega arith
text_length-take_chars-le (suc n) (c ∷ s) = omega (arith, text_length-take_chars-le n s)
