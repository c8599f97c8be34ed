-- ===== src/Brackets/Inside.antt =====
-- A place that `CloseExpression` finds is on a line of the file, and one that `ReverseCloseExpression`
-- finds is not behind the line it starts at.
use mathlib.Core.List.{reverse}
use dyod.Prelude.{
  ℕ, suc, false, ◌+◌, ◌≤◌, ◌<◌, not, ◌||◌, Option, none, some, List, [], ◌∷◌, ◌≡◌, refl, arith,
  length, length-drop, length-take, length-reverse, take, drop, get_elem?, get_elem?-lt, if_both,
  Text, ◌==◌,
}
use dyod.Regex.{matches}
use dyod.Brackets.{
  next_line, Scan, found, unclosed, pending, is_opener, is_closer, close_lines, close_scan,
  close_at, close_expression, Place, shift_pattern, find_start_of_expression_in_line,
  find_start_from, reverse_close_lines, reverse_close_scan, reverse_close_at,
  reverse_close_expression,
}

abbrev InsideOf : ℕ → ℕ → Option ℕ → Type 0
InsideOf total n none = Unit
InsideOf total n (some p) = n < total

abbrev pub Inside : ℕ → Place → Type 0
Inside total q = InsideOf total q.linenum q.pos

next_line-Inside :
    (total size n : ℕ) (l : Text) (next : Text → Place) (r : Scan)
    → n < total
    → ((st : Text) → Inside total (next st))
    → Inside total (next_line size l n next r)
unfolding next_line
next_line-Inside total size n l next (found p) lt f = lt
next_line-Inside total size n l next unclosed lt f = tt
next_line-Inside total size n l next (pending st) lt f = f st

close_lines-Inside :
    (total size n : ℕ) (line : Text) (ls : List Text) (st : Text)
    → n + length ls < total
    → Inside total (close_lines size line n ls st)
unfolding close_lines
close_lines-Inside total size n line [] st lt = tt
close_lines-Inside total size n line (l ∷ ls) [] lt = tt
close_lines-Inside total size n line (l ∷ ls) (x ∷ st) lt =
    next_line-Inside total size (suc n) l (close_lines size l (suc n) ls) _ (omega arith)
      (λ st'. close_lines-Inside total size (suc n) l ls st' (omega arith))

close_at-Inside :
    (elided : List Text) (n pos : ℕ) (line : Text) (c : ℕ)
    → n < length elided
    → Inside (length elided) (close_at elided n pos line c)
unfolding close_at close_scan
close_at-Inside elided n pos line c lt =
    if_both (Inside (length elided))
      (not (is_opener c || c == b'<') || matches shift_pattern (drop pos line)) tt
      (next_line-Inside (length elided) (length elided) n line _ _ lt (λ st.
        close_lines-Inside (length elided) (length elided) n line _ st
          (omega (arith, length-drop {0} (suc n) elided))))

-- `CloseExpression` at a character of a line answers, with a place on a line of the file or with none.
pub close_expression-Inside :
    (elided : List Text) (n pos : ℕ) {line : Text} {c : ℕ}
    → get_elem? elided n ≡ some line
    → get_elem? line pos ≡ some c
    → (q : Place) × (close_expression elided n pos ≡ some q) × Inside (length elided) q
unfolding close_expression
close_expression-Inside elided n pos {line} {c} e k = (
  close_at elided n pos line c,
  rw (close_expression, e, k) refl,
  close_at-Inside elided n pos line c (get_elem?-lt {0} elided n e),
)

abbrev Upto : ℕ → Place → Type 0
Upto n q = q.linenum ≤ n

met-Upto :
    (n : ℕ) (l : Text) (ls : List Text) (r : Scan)
    → length ls ≤ n
    → ((st : Text) → Upto n (reverse_close_lines l ls st))
    → Upto n (elim r [
      | found p ↦ record { line = l; linenum = length ls; pos = some p }
      | unclosed ↦ record { line = l; linenum = 0; pos = none }
      | pending st ↦ reverse_close_lines l ls st
    ])
met-Upto n l ls (found p) le f = le
met-Upto n l ls unclosed le f = omega arith
met-Upto n l ls (pending st) le f = f st

reverse_close_lines-Upto :
    (n : ℕ) (line : Text) (ls : List Text) (st : Text)
    → length ls ≤ n
    → Upto n (reverse_close_lines line ls st)
unfolding reverse_close_lines
reverse_close_lines-Upto n line [] st le = omega arith
reverse_close_lines-Upto n line (l ∷ ls) [] le = omega arith
reverse_close_lines-Upto n line (l ∷ ls) (x ∷ st) le =
    met-Upto n l ls (find_start_from false (reverse l) [] (x ∷ st)) (omega arith)
      (λ st'. reverse_close_lines-Upto n l ls st' (omega arith))

reverse_close_scan-Upto :
    (n : ℕ) (line : Text) (ls : List Text) (r : Scan)
    → length ls ≤ n
    → Upto n (reverse_close_scan line n ls r)
unfolding reverse_close_scan
reverse_close_scan-Upto n line ls (found p) le = omega arith
reverse_close_scan-Upto n line ls unclosed le = omega arith
reverse_close_scan-Upto n line ls (pending st) le = reverse_close_lines-Upto n line ls st le

reverse_close_at-Upto :
    (elided : List Text) (n pos : ℕ) (line : Text) (c : ℕ)
    → Upto n (reverse_close_at elided n pos line c)
unfolding reverse_close_at
reverse_close_at-Upto elided n pos line c =
    if_both (Upto n) (not (is_closer c || c == b'>')) (omega arith) (
      reverse_close_scan-Upto n line (reverse (take n elided))
        (find_start_of_expression_in_line line pos [])
        (omega (arith, length-reverse {0} (take n elided), length-take {0} n elided)))

-- `ReverseCloseExpression` at a character of a line answers, with a place that is not behind the line.
pub reverse_close_expression-Upto :
    (elided : List Text) (n pos : ℕ) {line : Text} {c : ℕ}
    → get_elem? elided n ≡ some line
    → get_elem? line pos ≡ some c
    → (q : Place) × (reverse_close_expression elided n pos ≡ some q) × (q.linenum ≤ n)
unfolding reverse_close_expression
reverse_close_expression-Upto elided n pos {line} {c} e k = (
  reverse_close_at elided n pos line c,
  rw (reverse_close_expression, e, k) refl,
  reverse_close_at-Upto elided n pos line c,
)
