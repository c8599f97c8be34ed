-- ===== src/Cleanse/RawStrings/Laws.antt =====
-- `CleanseRawStrings` ends, keeps the number of lines and leaves no raw string to replace.
use dyod.Prelude.{
  ℕ, zero, suc, ◌+◌, ◌≤◌, ◌<◌, Bool, ◌||◌, Option, none, some, List, [], ◌∷◌, ◌++◌, ◌≡◌, refl, ap,
  arith, length, length-append, length-drop, drop, Text, codes, find, Option-cases, inl, inr, ◌==◌,
}
use dyod.Regex.{Cursor, match, group_text}
use dyod.Regex.Weight.{match-Under, groups-held}
use dyod.Cleanse.RawStrings.{
  raw_string_pattern, raw_string, unless_comment, replace_raw, delimiter_of, quotes, loop_on,
  loop_at, begin_loop, end_raw, cleanse_line, cleanse_from, cleanse_raw_strings, cons_line,
}

-- the groups that are pasted together again
abbrev pasted : ℕ → Bool
pasted n = n == 1 || n == 3

-- A raw string starts with a line whose pasted groups are shorter than it by three characters.
raw_string-length :
    (line : Text) {m : Cursor}
    → match raw_string_pattern line ≡ some m
    → length (group_text 1 m) + length (group_text 3 m) + 3 ≤ length line
raw_string-length line {m} e = omega (
  arith,
  match-Under pasted raw_string_pattern line refl e,
  groups-held pasted 1 3 m.groups refl refl (omega arith),
)

unless_comment_match : (o : Option Cursor) {m : Cursor} → unless_comment o ≡ some m → o ≡ some m
unless_comment_match none e = e
unless_comment_match (some d) e = ground arith

raw_string-match :
    (line : Text) {m : Cursor} → raw_string line ≡ some m → match raw_string_pattern line ≡ some m
unfolding raw_string
raw_string-match line e = unless_comment_match _ e

replace_raw-length :
    (line : Text) (m : Cursor) (end : Option ℕ)
    → length (group_text 1 m) + length (group_text 3 m) + 3 ≤ length line
    → length (replace_raw m end).0 < length line
unfolding replace_raw
replace_raw-length line m none h = omega (arith, length-append {0} (group_text 1 m) quotes)
replace_raw-length line m (some end) h = omega (
  arith,
  length-append {0} (group_text 1 m ++ quotes)
      (drop (end + length (delimiter_of m)) (group_text 3 m)),
  length-append {0} (group_text 1 m) quotes,
  length-drop {0} (end + length (delimiter_of m)) (group_text 3 m),
  length-append {0} (codes ")" ++ group_text 2 m) (codes "\""),
  length-append {0} (codes ")") (group_text 2 m),
)

-- What the loop over one line ends with: nothing pending and no raw string left, or a raw string
-- that goes on.
abbrev Done : Option (Text × Option Text) → Type 0
Done none = ⊥
Done (some (line, none)) = raw_string line ≡ none
Done (some (line, some d)) = Unit

loop_on-Done :
    (next : Text → Option (Text × Option Text)) (r : Text × Option Text)
    → Done (next r.0)
    → Done (loop_on next r)
loop_on-Done next (line, none) h = h
loop_on-Done next (line, some d) h = tt

loop_at-Done :
    (next : Text → Option (Text × Option Text)) (line : Text) (o : Option Cursor)
    → raw_string line ≡ o
    → ((line' : Text) → length line' < length line → Done (next line'))
    → Done (loop_at next line o)
loop_at-Done next line none e f = e
loop_at-Done next line (some m) e f =
    loop_on-Done next (replace_raw m (find (delimiter_of m) (group_text 3 m))) (
      f _ (
        replace_raw-length line m (find (delimiter_of m) (group_text 3 m))
          (raw_string-length line (raw_string-match line e))))

begin_loop-Done : (fuel : ℕ) (line : Text) → length line < fuel → Done (begin_loop fuel line)
unfolding begin_loop
begin_loop-Done zero line h = absurd (omega arith)
begin_loop-Done (suc fuel) line h =
    loop_at-Done (begin_loop fuel) line (raw_string line) refl
      (λ line' lt. begin_loop-Done fuel line' (omega arith))

cleanse_line-Done : (d : Option Text) (line : Text) → Done (cleanse_line d line)
unfolding cleanse_line
cleanse_line-Done none line = begin_loop-Done (suc (length line)) line (omega arith)
cleanse_line-Done (some d) line = by_end (find d line)
  where
    by_end : (o : Option ℕ) → Done (end_raw d line o)
    by_end none = tt
    by_end (some end) = begin_loop-Done _ _ (omega arith)

cons_line-length :
    (line : Text) (n : ℕ) (r : Option (List Text))
    → (out : List Text) × (r ≡ some out) × (length out ≡ n)
    → (out : List Text) × (cons_line line r ≡ some out) × (length out ≡ suc n)
cons_line-length line n r (out, e, l) = (line ∷ out, ap (cons_line line) e, ap suc l)

cleanse_from-total :
    (lines : List Text) (d : Option Text)
    → (out : List Text) × (cleanse_from d lines ≡ some out) × (length out ≡ length lines)
unfolding cleanse_from
cleanse_from-total [] d = ([], refl, refl)
cleanse_from-total (line ∷ lines) d = elim (Option-cases (cleanse_line d line)) [
  | inl n ↦ absurd (rw n at (cleanse_line-Done d line))
  | inr ((line', d'), e) ↦
      rw (e, cleanse_from)
        (cons_line-length line' (length lines) (cleanse_from d' lines)
          (cleanse_from-total lines d'))
]

-- `CleanseRawStrings` ends on every list of lines, and returns as many.
pub cleanse_raw_strings_total :
    (lines : List Text)
    → (out : List Text) × (cleanse_raw_strings lines ≡ some out) × (length out ≡ length lines)
unfolding cleanse_raw_strings
cleanse_raw_strings_total lines = cleanse_from-total lines none

Done-inv :
    (r : Option (Text × Option Text)) {line' : Text}
    → r ≡ some (line', none)
    → Done r
    → raw_string line' ≡ none
Done-inv r e h = rw e at h

-- A line whose cleansing ends outside a raw string holds no raw string that could be replaced, be it
-- that the line began inside one or not.
pub cleanse_line_closed :
    (d : Option Text) (line : Text) {line' : Text}
    → cleanse_line d line ≡ some (line', none)
    → raw_string line' ≡ none
cleanse_line_closed d line e = Done-inv _ e (cleanse_line-Done d line)
