-- ===== src/Brackets.antt =====
-- cpplint.py: `FindEndOfExpressionInLine`, `CloseExpression`, `FindStartOfExpressionInLine` and
-- `ReverseCloseExpression`, over the lines `clean_lines.elided`. A stack is a list with its top
-- first. A line is walked as the text before the current character and the text from it on, so
-- that the position is the length of the former.

pub mod Balance
pub mod Reverse
pub mod Range
pub mod Forward
pub mod Inside
use mathlib.Core.List.{reverse}
use dyod.Prelude.{
  ℕ, suc, ◌+◌, ◌-◌, Bool, true, false, not, ◌&&◌, ◌||◌, Option, none, some, List, [], ◌∷◌, ◌++◌,
  length, take, drop, get_elem?, is_empty, Text, codes, ◌==◌, if◌then◌else◌,
}
use dyod.Regex.{Re, seq, star, word_edge, at_end, lit, seqs, one_of, space, matches, finds}

-- `\boperator\s*$`, `\s>=\s` and `<[<=]`
abbrev pub operator_pattern : Re
operator_pattern = seqs (word_edge ∷ lit (codes "operator") ∷ star space ∷ at_end ∷ [])

abbrev pub greater_equal_pattern : Re
greater_equal_pattern = seqs (space ∷ lit (codes ">=") ∷ space ∷ [])

abbrev pub shift_pattern : Re
shift_pattern = seq (lit (codes "<")) (one_of (codes "<="))

-- The answer for one line: (position, None), (-1, None) or (-1, stack).
pub data Scan : Type 0 where
  found : ℕ → Scan
  unclosed : Scan
  pending : Text → Scan

-- What the body of the loop does: it goes on, goes on past one more character, or returns.
pub data Step : Type 0 where
  go : Text → Step
  skip : Text → Step
  done : Scan → Step

abbrev pub is_opener : ℕ → Bool
is_opener c = c == b'(' || c == b'[' || c == b'{'

abbrev pub is_closer : ℕ → Bool
is_closer c = c == b')' || c == b']' || c == b'}'

abbrev pub is_pair : ℕ → ℕ → Bool
is_pair o c = o == b'(' && c == b')' || o == b'[' && c == b']' || o == b'{' && c == b'}'

-- `line[i - 1] == c`, false for an empty text
abbrev pub ends_in : ℕ → Text → Bool
ends_in c [] = false
ends_in c (x ∷ []) = x == c
ends_in c (x ∷ y ∷ s) = ends_in c (y ∷ s)

-- `line[0:i - 1]`
abbrev pub drop_last : Text → Text
drop_last s = take (length s - 1) s

-- `while stack and stack[-1] == c: stack.pop()`
unfoldable pub pop_while : ℕ → Text → Text
pop_while c [] = []
pop_while c (x ∷ st) = if x == c then pop_while c st else x ∷ st

abbrev top_is : ℕ → Text → Bool
top_is c [] = false
top_is c (x ∷ st) = x == c

-- after a pop that has matched: the expression ends at `position` if the stack is empty
abbrev pub popped : ℕ → Text → Step
popped position [] = done (found position)
popped position (x ∷ st) = go (x ∷ st)

abbrev pub unclosed_if_empty : Text → Step
unclosed_if_empty [] = done unclosed
unclosed_if_empty (x ∷ st) = go (x ∷ st)

-- a closing bracket, on the stack without its pending `<`
unfoldable pub close_end : ℕ → ℕ → Text → Step
close_end position c [] = done unclosed
close_end position c (o ∷ st) = if is_pair o c then popped position st else done unclosed

unfoldable pub close_start : ℕ → ℕ → Text → Step
close_start position o [] = done unclosed
close_start position o (c ∷ st) = if is_pair o c then popped position st else done unclosed

unfoldable pub pop_shift : Text → Step
pop_shift [] = go []
pop_shift (x ∷ st) = if x == b'<' then unclosed_if_empty st else go (x ∷ st)

unfoldable pub pop_angle : ℕ → ℕ → Text → Step
pop_angle angle position [] = go []
pop_angle angle position (x ∷ st) = if x == angle then popped position st else go (x ∷ st)

-- the body of the loop of `FindEndOfExpressionInLine`, at the character `c` behind `before`
unfoldable pub end_step : Text → ℕ → Text → Step
end_step before c st =
    if is_opener c
    then go (c ∷ st)
    else if c == b'<'
    then (if ends_in b'<' before
        then pop_shift st
        else if not (is_empty before) && finds operator_pattern before
        then go st
        else go (b'<' ∷ st))
    else if is_closer c
    then close_end (length before + 1) c (pop_while b'<' st)
    else if c == b'>'
    then (if not (is_empty before)
          && (ends_in b'-' before || finds operator_pattern (drop_last before))
        then go st
        else pop_angle b'<' (length before + 1) st)
    else if c == b';'
    then unclosed_if_empty (pop_while b'<' st)
    else go st

-- the next round, or the answer
abbrev pub resume : (Text → Scan) → Step → Scan
resume next (go st) = next st
resume next (skip st) = next st
resume next (done r) = r

unfoldable pub find_end_from : Text → Text → Text → Scan
find_end_from before [] st = pending st
find_end_from before (c ∷ s) st = resume (find_end_from (before ++ c ∷ []) s) (end_step before c st)

unfoldable pub find_end_of_expression_in_line : Text → ℕ → Text → Scan
find_end_of_expression_in_line line startpos st =
    find_end_from (take startpos line) (drop startpos line) st

-- A line, its number and a position in it; `none` is the position -1.
pub record Place : Type 0 where
  pub line : Text
  pub linenum : ℕ
  pub pos : Option ℕ

-- what one line of the loop decides, where `next` goes on with the lines behind it
unfoldable pub next_line : ℕ → Text → ℕ → (Text → Place) → Scan → Place
next_line total l n next (found p) = record { line = l; linenum = n; pos = some p }
next_line total l n next unclosed = record { line = l; linenum = total; pos = none }
next_line total l n next (pending st) = next st

-- the loop over the lines that follow `line`, whose number is `n`
unfoldable pub close_lines : ℕ → Text → ℕ → List Text → Text → Place
close_lines total line n [] st = record { line = line; linenum = total; pos = none }
close_lines total line n (l ∷ ls) [] = record { line = line; linenum = total; pos = none }
close_lines total line n (l ∷ ls) (x ∷ st) =
    next_line total l (suc n) (close_lines total l (suc n) ls)
      (find_end_of_expression_in_line l 0 (x ∷ st))

unfoldable pub close_scan : ℕ → Text → ℕ → List Text → Scan → Place
close_scan total line n ls r = next_line total line n (close_lines total line n ls) r

unfoldable pub close_at : List Text → ℕ → ℕ → Text → ℕ → Place
close_at elided linenum pos line c =
    if not (is_opener c || c == b'<') || matches shift_pattern (drop pos line)
    then record { line = line; linenum = length elided; pos = none }
    else close_scan (length elided) line linenum (drop (suc linenum) elided)
        (find_end_of_expression_in_line line pos [])

-- `CloseExpression`; `none` is an index out of range.
unfoldable pub close_expression : List Text → ℕ → ℕ → Option Place
close_expression elided linenum pos = elim (get_elem? elided linenum) [
  | none ↦ none
  | some line ↦ elim (get_elem? line pos) [
    | none ↦ none
    | some c ↦ some (close_at elided linenum pos line c)
  ]
]

-- the body of the loop of `FindStartOfExpressionInLine`, at the character `c`: `before` is the
-- text in front of it, backwards, and `after` the text behind it
unfoldable pub start_step : Text → Text → ℕ → Text → Step
start_step before after c st =
    if is_closer c
    then go (c ∷ st)
    else if c == b'>'
    then (if not (is_empty before)
          && (top_is b'-' before
              || matches greater_equal_pattern (take 1 before ++ c ∷ after)
              || finds operator_pattern (reverse before))
        then skip st
        else go (b'>' ∷ st))
    else if c == b'<'
    then (if top_is b'<' before then skip st else pop_angle b'>' (length before) st)
    else if is_opener c
    then close_start (length before) c (pop_while b'>' st)
    else if c == b';'
    then unclosed_if_empty (pop_while b'>' st)
    else go st

-- `true` passes over one character: `i -= 1` was done twice.
unfoldable pub find_start_from : Bool → Text → Text → Text → Scan
find_start_from passing [] after st = pending st
find_start_from true (c ∷ before) after st = find_start_from false before (c ∷ after) st
find_start_from false (c ∷ before) after st = elim (start_step before after c st) [
  | go st' ↦ find_start_from false before (c ∷ after) st'
  | skip st' ↦ find_start_from true before (c ∷ after) st'
  | done r ↦ r
]

-- `endpos` is the last position that is looked at; the walk starts with the text behind it.
unfoldable pub find_start_of_expression_in_line : Text → ℕ → Text → Scan
find_start_of_expression_in_line line endpos st =
    find_start_from false (reverse (take (suc endpos) line)) (drop (suc endpos) line) st

-- the loop over the lines in front of `line`, the nearest first; `n` counts them
unfoldable pub reverse_close_lines : Text → List Text → Text → Place
reverse_close_lines line [] st = record { line = line; linenum = 0; pos = none }
reverse_close_lines line (l ∷ ls) [] = record { line = line; linenum = 0; pos = none }
reverse_close_lines line (l ∷ ls) (x ∷ st) = elim (find_start_from false (reverse l) [] (x ∷ st)) [
  | found p ↦ record { line = l; linenum = length ls; pos = some p }
  | unclosed ↦ record { line = l; linenum = 0; pos = none }
  | pending st' ↦ reverse_close_lines l ls st'
]

unfoldable pub reverse_close_scan : Text → ℕ → List Text → Scan → Place
reverse_close_scan line n ls (found p) = record { line = line; linenum = n; pos = some p }
reverse_close_scan line n ls unclosed = record { line = line; linenum = 0; pos = none }
reverse_close_scan line n ls (pending st) = reverse_close_lines line ls st

unfoldable pub reverse_close_at : List Text → ℕ → ℕ → Text → ℕ → Place
reverse_close_at elided linenum pos line c =
    if not (is_closer c || c == b'>')
    then record { line = line; linenum = 0; pos = none }
    else reverse_close_scan line linenum (reverse (take linenum elided))
        (find_start_of_expression_in_line line pos [])

-- `ReverseCloseExpression`; `none` is an index out of range.
unfoldable pub reverse_close_expression : List Text → ℕ → ℕ → Option Place
reverse_close_expression elided linenum pos = elim (get_elem? elided linenum) [
  | none ↦ none
  | some line ↦ elim (get_elem? line pos) [
    | none ↦ none
    | some c ↦ some (reverse_close_at elided linenum pos line c)
  ]
]
