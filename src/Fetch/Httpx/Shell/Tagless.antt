-- ===== src/Fetch/Httpx/Shell/Tagless.antt =====
-- The text whose length the empty-shell heuristic counts has no tag.
use Prim.Native.Char.{Char, code}
use Prim.Native.String.{[], ◌∷◌}
use wyndpy.Base.{
  ◌&&◌, ◌≢◌, ◌⊎◌, ℕ, zero, suc, ◌-◌, subst, String, none, some, true, false, ◌==◌, ℕ_eq, string_eq,
  ◌≡◌, refl, sym, ap, ◌∙◌, inl, inr, Option-cases, Bool-cases, arith,
}
use wyndpy.Base.Text.{is_space, lstrip, rstrip, strip, sub_from}
use wyndpy.Fetch.Httpx.Shell.{to_gt, tag_at, script_at, visible_text}

-- At no place of the text does a match of `<[^>]+>` start.
abbrev pub IsTagless : String → Type 0
IsTagless [] = Unit
IsTagless (c ∷ s) = (tag_at (c ∷ s) ≡ none) × IsTagless s

to_gt-tail : (c : Char) (s : String) → to_gt (c ∷ s) ≡ none → to_gt s ≡ none
unfolding to_gt
to_gt-tail c s h = ground arith

sub_from-kept :
    (c : Char) (s : String)
    → tag_at (c ∷ s) ≡ none
    → sub_from tag_at 0 (c ∷ s) ≡ c ∷ sub_from tag_at 0 s
unfolding sub_from
sub_from-kept c s h = rw (sub_from, h) refl

sub_from-cut :
    (c : Char) (s : String) (n : ℕ)
    → tag_at (c ∷ s) ≡ some n
    → sub_from tag_at 0 (c ∷ s) ≡ sub_from tag_at (n - 1) s
unfolding sub_from
sub_from-cut c s n h = rw (sub_from, h) refl

sub_from-to_gt : (skip : ℕ) (s : String) → to_gt s ≡ none → to_gt (sub_from tag_at skip s) ≡ none
unfolding to_gt sub_from
sub_from-to_gt skip [] h = h
sub_from-to_gt (suc skip) (c ∷ s) h = sub_from-to_gt skip s (to_gt-tail c s h)
sub_from-to_gt zero (c ∷ s) h = elim (Option-cases (tag_at (c ∷ s))) [
  | inl kept ↦
      rw (sub_from-kept c s kept) (ground (arith, h, sub_from-to_gt 0 s (to_gt-tail c s h)))
  | inr (n, found) ↦ rw (sub_from-cut c s n found) (sub_from-to_gt (n - 1) s (to_gt-tail c s h))
]

to_gt-pos : (s : String) → to_gt s ≢ some 0
unfolding to_gt
to_gt-pos [] = λ e. cc
to_gt-pos (c ∷ s) = λ e. ground (arith, to_gt-pos s)

-- Where the next `>` is the first character, any text with that character at its start has it there.
data Closes : String → Type 0 where
  closes : (c : Char) (s : String) → code c == b'>' ≡ true → Closes (c ∷ s)

to_gt-Closes : (s : String) → to_gt s ≡ some 1 → Closes s
unfolding to_gt
to_gt-Closes [] e = absurd cc
to_gt-Closes (c ∷ s) e = elim (Bool-cases (code c == b'>')) [
  | inl same ↦ closes c s same
  | inr other ↦ absurd (ground (arith, to_gt-pos s))
]

Closes-to_gt : {s : String} → Closes s → to_gt s ≡ some 1
unfolding to_gt
Closes-to_gt (closes c s same) = ground (arith, same)

-- What stands behind the character of a text that starts no tag.
tag_at-none :
    (c : Char) (s : String)
    → tag_at (c ∷ s) ≡ none
    → (code c == b'<' ≡ false) ⊎ ((to_gt s ≡ none) ⊎ Closes s)
unfolding tag_at
tag_at-none c s h = elim (Bool-cases (code c == b'<')) [
  | inr other ↦ inl other
  | inl same ↦ inr (elim (Option-cases (to_gt s)) [
    | inl no_end ↦ inl no_end
    | inr (n, found) ↦ inr (to_gt-Closes s (found ∙ ap some (ground (arith, same, found))))
  ])
]

tag_at-other : (c : Char) (s : String) → code c == b'<' ≡ false → tag_at (c ∷ s) ≡ none
unfolding tag_at
tag_at-other c s h = ground (arith, h)

tag_at-open : (c : Char) (s : String) → to_gt s ≡ none → tag_at (c ∷ s) ≡ none
unfolding tag_at
tag_at-open c s h = ground (arith, h)

tag_at-Closes : (c : Char) {s : String} → Closes s → tag_at (c ∷ s) ≡ none
unfolding tag_at
tag_at-Closes c h = ground (arith, Closes-to_gt h)

sub_from-Closes : {s : String} → Closes s → Closes (sub_from tag_at 0 s)
sub_from-Closes (closes c s same) =
    subst Closes (sym (sub_from-kept c s (tag_at-other c s (ground (arith, same)))))
      (closes c _ same)

sub_from-tag_at :
    (c : Char) (s : String) → tag_at (c ∷ s) ≡ none → tag_at (c ∷ sub_from tag_at 0 s) ≡ none
sub_from-tag_at c s h = elim (tag_at-none c s h) [
  | inl other ↦ tag_at-other c _ other
  | inr (inl no_end) ↦ tag_at-open c _ (sub_from-to_gt 0 s no_end)
  | inr (inr at_once) ↦ tag_at-Closes c (sub_from-Closes at_once)
]

sub_from-IsTagless : (skip : ℕ) (s : String) → IsTagless (sub_from tag_at skip s)
unfolding sub_from
sub_from-IsTagless skip [] = tt
sub_from-IsTagless (suc skip) (c ∷ s) = sub_from-IsTagless skip s
sub_from-IsTagless zero (c ∷ s) = elim (Option-cases (tag_at (c ∷ s))) [
  | inl kept ↦
      subst IsTagless (sym (sub_from-kept c s kept))
        (sub_from-tag_at c s kept, sub_from-IsTagless 0 s)
  | inr (n, found) ↦ subst IsTagless (sym (sub_from-cut c s n found)) (sub_from-IsTagless (n - 1) s)
]

lstrip-blank : (c : Char) (s : String) → is_space c ≡ true → lstrip (c ∷ s) ≡ lstrip s
unfolding lstrip
lstrip-blank c s h = rw (lstrip, h) refl

lstrip-other : (c : Char) (s : String) → is_space c ≡ false → lstrip (c ∷ s) ≡ c ∷ s
unfolding lstrip
lstrip-other c s h = rw (lstrip, h) refl

rstrip-cases : (c : Char) (s : String) → (rstrip (c ∷ s) ≡ []) ⊎ (rstrip (c ∷ s) ≡ c ∷ rstrip s)
unfolding rstrip
rstrip-cases c s = elim (Bool-cases (is_space c && rstrip s == [])) [
  | inl blank ↦ inl (rw (rstrip, blank) refl)
  | inr other ↦ inr (rw (rstrip, other) refl)
]

rstrip-other : (c : Char) (s : String) → is_space c ≡ false → rstrip (c ∷ s) ≡ c ∷ rstrip s
unfolding rstrip
rstrip-other c s h = rw (rstrip, h) refl

lstrip-IsTagless : (s : String) → IsTagless s → IsTagless (lstrip s)
unfolding lstrip
lstrip-IsTagless [] h = h
lstrip-IsTagless (c ∷ s) h = elim (Bool-cases (is_space c)) [
  | inl blank ↦ subst IsTagless (sym (lstrip-blank c s blank)) (lstrip-IsTagless s h.1)
  | inr other ↦ subst IsTagless (sym (lstrip-other c s other)) h
]

rstrip-to_gt : (s : String) → to_gt s ≡ none → to_gt (rstrip s) ≡ none
unfolding to_gt rstrip
rstrip-to_gt [] h = h
rstrip-to_gt (c ∷ s) h = elim (rstrip-cases c s) [
  | inl empty ↦ rw empty refl
  | inr kept ↦ rw kept (ground (arith, h, rstrip-to_gt s (to_gt-tail c s h)))
]

rstrip-Closes : {s : String} → Closes s → Closes (rstrip s)
rstrip-Closes (closes c s same) =
    subst Closes (sym (rstrip-other c s (ground (arith, same)))) (closes c (rstrip s) same)

rstrip-tag_at : (c : Char) (s : String) → tag_at (c ∷ s) ≡ none → tag_at (c ∷ rstrip s) ≡ none
rstrip-tag_at c s h = elim (tag_at-none c s h) [
  | inl other ↦ tag_at-other c _ other
  | inr (inl no_end) ↦ tag_at-open c _ (rstrip-to_gt s no_end)
  | inr (inr at_once) ↦ tag_at-Closes c (rstrip-Closes at_once)
]

rstrip-IsTagless : (s : String) → IsTagless s → IsTagless (rstrip s)
unfolding rstrip
rstrip-IsTagless [] h = h
rstrip-IsTagless (c ∷ s) (first, rest) = elim (rstrip-cases c s) [
  | inl empty ↦ subst IsTagless (sym empty) tt
  | inr kept ↦ subst IsTagless (sym kept) (rstrip-tag_at c s first, rstrip-IsTagless s rest)
]

-- The visible text, whose length tells an empty shell from a page, holds no tag, whatever the
-- text's markup is: also none that comes together where a script, a style or a tag was removed.
pub visible_text-IsTagless : (text : String) → IsTagless (visible_text text)
unfolding visible_text strip
visible_text-IsTagless text =
    rstrip-IsTagless _ (lstrip-IsTagless _ (sub_from-IsTagless 0 (sub_from script_at 0 text)))
