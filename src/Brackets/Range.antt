-- ===== src/Brackets/Range.antt =====
-- Where `CloseExpression` ends: inside the file, behind a bracket that closes the one it began at.
use dyod.Prelude.{
  ℕ, ◌+◌, ◌-◌, ◌≤◌, ◌<◌, true, Option, none, some, List, [], ◌∷◌, ◌≡◌, length, get_elem?, Text,
}
use dyod.Brackets.{Scan, found, unclosed, pending, Step, go, skip, done, is_pair, Place}

-- the stack is not empty, and `o` is at its bottom
abbrev HasBottom : ℕ → Text → Type 0
HasBottom o [] = ⊥
HasBottom o (x ∷ []) = x ≡ o
HasBottom o (x ∷ y ∷ st) = HasBottom o (y ∷ st)

-- what a step at position `i` and character `c` does to such a stack
abbrev Keeps : ℕ → ℕ → ℕ → Step → Type 0
Keeps o i c (go st) = HasBottom o st
Keeps o i c (skip st) = HasBottom o st
Keeps o i c (done (found p)) = (p ≡ i + 1) × (is_pair o c ≡ true)
Keeps o i c (done unclosed) = Unit
Keeps o i c (done (pending st)) = HasBottom o st

-- What a search of a line may answer, from the position `lo` on: a position behind a character
-- that closes `o`, or a stack that still has `o` at its bottom.
abbrev Closes : ℕ → Text → ℕ → Scan → Type 0
Closes o line lo (found p) =
    (c : ℕ) × (get_elem? line (p - 1) ≡ some c)
    × (is_pair o c ≡ true)
    × (lo < p)
    × (p ≤ length line)
Closes o line lo unclosed = Unit
Closes o line lo (pending st) = HasBottom o st

-- Where the search from `pos` of line `start` ends: behind a character of a line of the file that
-- closes `o`, and not before it began; or nowhere, and then the line number is that of no line.
abbrev EndsAt : List Text → ℕ → ℕ → ℕ → Text → ℕ → Option ℕ → Type 0
EndsAt elided o start pos line n none = n ≡ length elided
EndsAt elided o start pos line n (some p) =
    (c : ℕ) × (get_elem? elided n ≡ some line)
    × (get_elem? line (p - 1) ≡ some c)
    × (is_pair o c ≡ true)
    × (p ≤ length line)
    × (start ≤ n)
    × (n ≡ start → pos < p)

abbrev pub Ends : List Text → ℕ → ℕ → ℕ → Place → Type 0
Ends elided o start pos q = EndsAt elided o start pos q.line q.linenum q.pos
