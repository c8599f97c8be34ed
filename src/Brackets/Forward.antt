-- ===== src/Brackets/Forward.antt =====
-- `CloseExpression` moves forward, whatever it starts at: what it returns lies behind its start.
use dyod.Prelude.{
  ℕ, suc, ◌+◌, ◌≤◌, ◌<◌, not, ◌&&◌, ◌||◌, Option, none, some, List, [], ◌∷◌, ◌++◌, ◌≡◌, ◌⊎◌, inl,
  inr, refl, arith, length, length-append, length-take, take, drop, get_elem?, get_elem?-lt,
  if_both, is_empty, Text, ◌==◌,
}
use dyod.Regex.{finds, matches}
use dyod.Brackets.{
  next_line, resume, ends_in, drop_last, operator_pattern, shift_pattern, Scan, found, unclosed,
  pending, Step, go, skip, done, is_opener, is_closer, is_pair, pop_while, popped,
  unclosed_if_empty, pop_shift, pop_angle, close_end, end_step, find_end_from,
  find_end_of_expression_in_line, close_lines, close_scan, close_at, close_expression, Place,
}

-- a position that a scan finds lies behind `lo`
abbrev Finds : ℕ → Scan → Type 0
Finds lo (found p) = lo < p
Finds lo unclosed = Unit
Finds lo (pending st) = Unit

abbrev StepFinds : ℕ → Step → Type 0
StepFinds lo (go st) = Unit
StepFinds lo (skip st) = Unit
StepFinds lo (done r) = Finds lo r

Finds-le : (lo lo' : ℕ) (r : Scan) → lo ≤ lo' → Finds lo' r → Finds lo r
Finds-le lo lo' (found p) le h = omega arith
Finds-le lo lo' unclosed le h = tt
Finds-le lo lo' (pending st) le h = tt

popped-StepFinds : (lo : ℕ) (st : Text) → StepFinds lo (popped (lo + 1) st)
popped-StepFinds lo [] = omega arith
popped-StepFinds lo (x ∷ st) = tt

unclosed-StepFinds : (lo : ℕ) (st : Text) → StepFinds lo (unclosed_if_empty st)
unclosed-StepFinds lo [] = tt
unclosed-StepFinds lo (x ∷ st) = tt

close_end-StepFinds : (lo c : ℕ) (st : Text) → StepFinds lo (close_end (lo + 1) c st)
unfolding close_end
close_end-StepFinds lo c [] = tt
close_end-StepFinds lo c (o ∷ st) = if_both (StepFinds lo) (is_pair o c) (popped-StepFinds lo st) tt

pop_shift-StepFinds : (lo : ℕ) (st : Text) → StepFinds lo (pop_shift st)
unfolding pop_shift
pop_shift-StepFinds lo [] = tt
pop_shift-StepFinds lo (x ∷ st) = if_both (StepFinds lo) (x == b'<') (unclosed-StepFinds lo st) tt

pop_angle-StepFinds : (angle lo : ℕ) (st : Text) → StepFinds lo (pop_angle angle (lo + 1) st)
unfolding pop_angle
pop_angle-StepFinds angle lo [] = tt
pop_angle-StepFinds angle lo (x ∷ st) =
    if_both (StepFinds lo) (x == angle) (popped-StepFinds lo st) tt

end_step-StepFinds :
    (before : Text) (c : ℕ) (st : Text) → StepFinds (length before) (end_step before c st)
unfolding end_step
end_step-StepFinds before c st =
    let lo = length before in
    let P = StepFinds lo in
    if_both P (is_opener c) tt (
      if_both P (c == b'<')
        (if_both P (ends_in b'<' before) (pop_shift-StepFinds lo st)
          (if_both P (not (is_empty before) && finds operator_pattern before) tt tt))
        (if_both P (is_closer c) (close_end-StepFinds lo c (pop_while b'<' st)) (
          if_both P (c == b'>')
            (if_both P
              (not (is_empty before)
                && (ends_in b'-' before || finds operator_pattern (drop_last before)))
              tt (pop_angle-StepFinds b'<' lo st))
            (if_both P (c == b';') (unclosed-StepFinds lo (pop_while b'<' st)) tt))))

resume-Finds :
    (lo : ℕ) (next : Text → Scan) (t : Step)
    → ((st : Text) → Finds lo (next st))
    → StepFinds lo t
    → Finds lo (resume next t)
resume-Finds lo next (go st) f h = f st
resume-Finds lo next (skip st) f h = f st
resume-Finds lo next (done r) f h = h

find_end_from-Finds : (before s st : Text) → Finds (length before) (find_end_from before s st)
unfolding find_end_from
find_end_from-Finds before [] st = tt
find_end_from-Finds before (c ∷ s) st =
    resume-Finds (length before) (find_end_from (before ++ c ∷ []) s) (end_step before c st)
      (λ st'.
        Finds-le (length before) (length (before ++ c ∷ [])) _
          (omega (arith, length-append {0} before (c ∷ [])))
          (find_end_from-Finds (before ++ c ∷ []) s st'))
      (end_step-StepFinds before c st)

-- A place on a later line than `n`, or behind `lo` on this line, or none.
abbrev pub ForwardTo : ℕ → ℕ → ℕ → Option ℕ → Type 0
ForwardTo n lo n' none = Unit
ForwardTo n lo n' (some p) = (n < n') ⊎ ((n' ≡ n) × (lo < p))

abbrev pub Forward : ℕ → ℕ → Place → Type 0
Forward n lo q = ForwardTo n lo q.linenum q.pos

next_line-later :
    (total n lo n' : ℕ) (l : Text) (next : Text → Place) (r : Scan)
    → n < n'
    → ((st : Text) → Forward n lo (next st))
    → Forward n lo (next_line total l n' next r)
unfolding next_line
next_line-later total n lo n' l next (found p) lt f = inl lt
next_line-later total n lo n' l next unclosed lt f = tt
next_line-later total n lo n' l next (pending st) lt f = f st

close_lines-Forward :
    (total n lo n' : ℕ) (line : Text) (ls : List Text) (st : Text)
    → n ≤ n'
    → Forward n lo (close_lines total line n' ls st)
unfolding close_lines
close_lines-Forward total n lo n' line [] st le = tt
close_lines-Forward total n lo n' line (l ∷ ls) [] le = tt
close_lines-Forward total n lo n' line (l ∷ ls) (x ∷ st) le =
    next_line-later total n lo (suc n') l (close_lines total l (suc n') ls) _ (omega arith)
      (λ st'. close_lines-Forward total n lo (suc n') l ls st' (omega arith))

next_line-Forward :
    (total n lo : ℕ) (l : Text) (next : Text → Place) (r : Scan)
    → Finds lo r
    → ((st : Text) → Forward n lo (next st))
    → Forward n lo (next_line total l n next r)
unfolding next_line
next_line-Forward total n lo l next (found p) h f = inr (refl, h)
next_line-Forward total n lo l next unclosed h f = tt
next_line-Forward total n lo l next (pending st) h f = f st

-- the scan of the first line begins at a position of it
first_line-Finds :
    (line : Text) (pos : ℕ) {c : ℕ}
    → get_elem? line pos ≡ some c
    → Finds pos (find_end_of_expression_in_line line pos [])
unfolding find_end_of_expression_in_line
first_line-Finds line pos k =
    Finds-le pos (length (take pos line)) _
      (omega (arith, length-take {0} pos line, get_elem?-lt {0} line pos k))
      (find_end_from-Finds (take pos line) (drop pos line) [])

close_at-Forward :
    (elided : List Text) (n pos : ℕ) (line : Text) (c : ℕ)
    → get_elem? line pos ≡ some c
    → Forward n pos (close_at elided n pos line c)
unfolding close_at close_scan
close_at-Forward elided n pos line c k =
    if_both (Forward n pos)
      (not (is_opener c || c == b'<') || matches shift_pattern (drop pos line)) tt
      (next_line-Forward (length elided) n pos line _ _ (first_line-Finds line pos k)
        (λ st. close_lines-Forward (length elided) n pos n line _ st (omega arith)))

-- `CloseExpression` at a character of a line answers, with a place behind it or with none.
pub close_expression-Forward :
    (elided : List Text) (n pos : ℕ) {line : Text} {c : ℕ}
    → get_elem? elided n ≡ some line
    → get_elem? line pos ≡ some c
    → (q : Place) × (close_expression elided n pos ≡ some q) × Forward n pos q
unfolding close_expression close_at
close_expression-Forward elided n pos {line} {c} e k = (
  close_at elided n pos line c,
  rw (close_expression, e, k) refl,
  close_at-Forward elided n pos line c k,
)
