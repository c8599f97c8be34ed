-- ===== src/Nesting/Blocks/ClassEnd.antt =====
-- The last line that `_ClassInfo.__init__` finds for a class.
use dyod.Prelude.{
  ℕ, zero, suc, ◌+◌, ◌<◌, Bool, true, false, List, [], ◌∷◌, ◌≡◌, refl, ◌⊎◌, inl, inr, arith, length,
  take, drop, Text, ℤ, pos, ◌+ℤ◌, is_pos, Bool-cases,
}
use dyod.Cleanse.{CleansedLines}
use dyod.Nesting.Blocks.{brace_change, find_class_end, new_class}

-- the braces that are open behind the lines, from the number of those open in front
unfoldable pub open_braces : ℤ → List Text → ℤ
open_braces depth [] = depth
open_braces depth (line ∷ lines) = open_braces (depth +ℤ brace_change line) lines

-- no brace is open behind the first `k + 1` of the lines
abbrev pub Closed : ℤ → List Text → ℕ → Bool → Type 0
Closed depth lines k b = is_pos 0 (open_braces depth (take (suc k) lines)) ≡ b

-- The line `i + k` is the first one behind which no brace is open, or there is none and `r` is 0.
abbrev pub EndsAtFirst : ℤ → ℕ → List Text → ℕ → Type 0
EndsAtFirst depth i lines r =
    ((r ≡ 0) × ((k : ℕ) → k < length lines → Closed depth lines k false))
    ⊎ ((k : ℕ) × (r ≡ i + k)
        × (k < length lines)
        × Closed depth lines k true
        × ((j : ℕ) → j < k → Closed depth lines j false))

-- from the lines behind the first one, where braces are open
EndsAtFirst-cons :
    (depth : ℤ) (i : ℕ) (line : Text) (lines : List Text) (r : ℕ)
    → is_pos 0 (depth +ℤ brace_change line) ≡ false
    → EndsAtFirst (depth +ℤ brace_change line) (suc i) lines r
    → EndsAtFirst depth i (line ∷ lines) r
unfolding open_braces
EndsAtFirst-cons depth i line lines r e (inl (z, none)) = inl (z, before)
  where
    before : (k : ℕ) → k < length (line ∷ lines) → Closed depth (line ∷ lines) k false
    before zero lt = e
    before (suc k) lt = none k (omega arith)
EndsAtFirst-cons depth i line lines r e (inr (k, at, lt, closed, none)) =
    inr (suc k, omega arith, omega arith, closed, before)
  where
    before : (j : ℕ) → j < suc k → Closed depth (line ∷ lines) j false
    before zero lt' = e
    before (suc j) lt' = none j (omega arith)

find_class_end-EndsAtFirst :
    (depth : ℤ) (i : ℕ) (lines : List Text)
    → EndsAtFirst depth i lines (find_class_end depth i lines)
unfolding find_class_end open_braces
find_class_end-EndsAtFirst depth i [] = inl (refl, λ k lt. absurd (omega arith))
find_class_end-EndsAtFirst depth i (line ∷ lines) =
    elim (Bool-cases (is_pos 0 (depth +ℤ brace_change line))) [
      | inl e ↦ rw e (inr (0, omega arith, omega arith, e, λ j lt. absurd (omega arith)))
      | inr e ↦ rw e (
          EndsAtFirst-cons depth i line lines _ e
            (find_class_end-EndsAtFirst (depth +ℤ brace_change line) (suc i) lines))
    ]

-- The last line of a class is the first one, from the line of its declaration on, behind which as
-- many braces have been closed as opened since that line; it is 0 if there is no such line.
pub new_class-last_line :
    (name class_or_struct : Text) (clean_lines : CleansedLines) (linenum : ℕ)
    → EndsAtFirst
        (pos 0)
        linenum
        (drop linenum clean_lines.elided)
        (new_class name class_or_struct clean_lines linenum).last_line
unfolding new_class
new_class-last_line name class_or_struct clean_lines linenum =
    find_class_end-EndsAtFirst (pos 0) linenum (drop linenum clean_lines.elided)
