-- ===== src/FileChecks/BlankLines.antt =====
-- The line that `GetPreviousNonBlankLine` finds.
use mathlib.Core.List.{reverse}
use dyod.Prelude.{
  ℕ, true, false, Option, none, some, List, [], ◌∷◌, ◌++◌, ◌≡◌, refl, ap, Text, All, length, take,
  Bool-cases, inl, inr,
}
use dyod.FileChecks.{is_blank_line, previous_non_blank, get_previous_non_blank_line}

-- With the lines in front of a line in reverse order: the first lines are blank, and the next one
-- is not, and it is counted by the lines behind it.
abbrev pub Nearest : List Text → Option (Text × ℕ) → Type 0
Nearest lines none = All (λ l. is_blank_line l ≡ true) lines
Nearest lines (some (line, n)) =
    (blank : List Text) × (earlier : List Text) × (lines ≡ blank ++ line ∷ earlier)
    × (n ≡ length earlier)
    × All (λ l. is_blank_line l ≡ true) blank
    × (is_blank_line line ≡ false)

Nearest-cons :
    (line : Text) (lines : List Text) (o : Option (Text × ℕ))
    → is_blank_line line ≡ true
    → Nearest lines o
    → Nearest (line ∷ lines) o
Nearest-cons line lines none e h = (e, h)
Nearest-cons line lines (some (l, n)) e (blank, earlier, cut, at, all, not_blank) =
    (line ∷ blank, earlier, ap (◌∷◌ line) cut, at, (e, all), not_blank)

previous_non_blank-Nearest : (lines : List Text) → Nearest lines (previous_non_blank lines)
unfolding previous_non_blank
previous_non_blank-Nearest [] = tt
previous_non_blank-Nearest (line ∷ lines) = elim (Bool-cases (is_blank_line line)) [
  | inl e ↦ rw e (Nearest-cons line lines _ e (previous_non_blank-Nearest lines))
  | inr e ↦ rw e ([], lines, refl, refl, tt, e)
]

-- `GetPreviousNonBlankLine` returns the nearest line in front of the given one that is not blank,
-- with its number, if there is one; otherwise all lines in front of it are blank.
pub get_previous_non_blank_line-Nearest :
    (elided : List Text) (linenum : ℕ)
    → Nearest (reverse (take linenum elided)) (get_previous_non_blank_line elided linenum)
unfolding get_previous_non_blank_line
get_previous_non_blank_line-Nearest elided linenum =
    previous_non_blank-Nearest (reverse (take linenum elided))
