-- ===== src/Nesting/Template/Laws.antt =====
-- The search for the end of a template argument list ends.
use dyod.Prelude.{
  ℕ, zero, suc, ◌+◌, ◌-◌, ◌<◌, ◌≤◌, Bool, not, Option, none, some, List, [], ◌∷◌, ◌≡◌, refl, inl,
  inr, false, arith, length, length-drop, drop, get_elem?, get_elem?-some, Text, codes, text_eq,
  text_mem, leb, if_both,
}
use dyod.Regex.{Cursor, match, group_text}
use dyod.Regex.Weight.{match-Under}
use dyod.Brackets.{close_expression}
use dyod.Brackets.Forward.{ForwardTo, close_expression-Forward}
use dyod.Nesting.Template.{
  argument_pattern, ArgumentStep, go_on, answer, raise, behind_place, behind_angle, at_token,
  argument_match, argument_step, argument_on, argument_loop, size, in_template_argument_list,
}

-- what is still to be looked at, from a position of the first of the lines
abbrev ahead_in : List Text → ℕ → ℕ
ahead_in [] pos = 0
ahead_in (line ∷ lines) pos = suc (length line - pos) + size lines

abbrev left : List Text → ℕ → ℕ → ℕ
left elided n pos = ahead_in (drop n elided) pos

size-drop : (lines : List Text) (n : ℕ) → size (drop n lines) ≤ size lines
size-drop lines zero = omega arith
size-drop [] (suc n) = omega arith
size-drop (l ∷ lines) (suc n) = omega (arith, size-drop lines n)

ahead_in-le : (lines : List Text) (pos : ℕ) → ahead_in lines pos ≤ size lines
ahead_in-le [] pos = omega arith
ahead_in-le (l ∷ lines) pos = omega arith

-- At a line, what is left is the rest of it and the lines behind.
left-line :
    (elided : List Text) (n pos : ℕ) {line : Text}
    → get_elem? elided n ≡ some line
    → left elided n pos ≡ suc (length line - pos) + size (drop (suc n) elided)
left-line [] n pos e = cc
left-line (l ∷ ls) zero pos e = cc
left-line (l ∷ ls) (suc n) pos e = left-line ls n pos e

-- On a later line, less is left than the lines behind.
left-later :
    (elided : List Text) (n n' pos : ℕ) → n < n' → left elided n' pos ≤ size (drop (suc n) elided)
left-later elided n zero pos lt = absurd (omega arith)
left-later [] n (suc n') pos lt = omega arith
left-later (l ∷ ls) zero (suc n') pos lt =
    omega (arith, ahead_in-le (drop n' ls) pos, size-drop ls n')
left-later (l ∷ ls) (suc n) (suc n') pos lt = left-later ls n n' pos (omega arith)

-- A step answers, or it goes on where less is left.
abbrev Advances : List Text → ℕ → ArgumentStep → Type 0
Advances elided m (go_on n pos) = left elided n pos < m
Advances elided m (answer b) = Unit
Advances elided m raise = ⊥

module _ (elided : List Text) (n pos : ℕ) {line : Text} (e : get_elem? elided n ≡ some line) where
  next_line-Advances : Advances elided (left elided n pos) (go_on (suc n) 0)
  next_line-Advances =
      omega (arith, left-line elided n pos e, left-later elided n (suc n) 0 (omega arith))

  later_pos-Advances :
      (p : ℕ) → pos < length line → pos < p → Advances elided (left elided n pos) (go_on n p)
  later_pos-Advances p inside lt = omega (arith, left-line elided n pos e, left-line elided n p e)

  Forward-Advances :
      (k n' : ℕ) (o : Option ℕ)
      → pos < length line
      → pos ≤ k
      → ForwardTo n k n' o
      → Advances elided (left elided n pos) (behind_place n' o)
  Forward-Advances k n' none inside le f = tt
  Forward-Advances k n' (some p) inside le (inl lt) =
      omega (arith, left-line elided n pos e, left-later elided n n' p lt)
  Forward-Advances k n' (some p) inside le (inr (same, lt)) =
      rw same (later_pos-Advances p inside (omega arith))

  -- `CloseExpression` is called at a character of the line
  angle-Advances :
      (p : ℕ)
      → pos < p
      → p ≤ length line
      → Advances elided (left elided n pos) (behind_angle (close_expression elided n (p - 1)))
  angle-Advances p lt le =
      let (c, k) = get_elem?-some line (p - 1) (omega arith) in
      let (q, r, f) = close_expression-Forward elided n (p - 1) e k in
      rw r (Forward-Advances (p - 1) q.linenum q.pos (omega arith) (omega arith) f)

  at_token-Advances :
      (p : ℕ) (token : Text)
      → pos < p
      → p ≤ length line
      → Advances elided (left elided n pos) (at_token elided n line p token)
  at_token-Advances p token lt le =
      let P = Advances elided (left elided n pos) in
      if_both P (text_mem token (codes "{" ∷ codes "}" ∷ codes ";" ∷ [])) tt (
        if_both P (text_mem token (codes ">" ∷ codes "=" ∷ codes "[" ∷ codes "]" ∷ codes "." ∷ []))
          tt
          (if_both P (not (text_eq token (codes "<")))
            (if_both P (leb (length line) (suc p)) next_line-Advances
              (later_pos-Advances (suc p) (omega arith) (omega arith)))
            (angle-Advances p lt le)))

  argument_match-Advances :
      (o : Option Cursor)
      → match argument_pattern (drop pos line) ≡ o
      → Advances elided (left elided n pos) (argument_match elided n line pos o)
  argument_match-Advances none eq = next_line-Advances
  argument_match-Advances (some m) eq =
      let fits = match-Under (λ g. false) argument_pattern (drop pos line) refl eq in
      let rest = length-drop {0} pos line in
      at_token-Advances (pos + (length (drop pos line) - length m.rest)) (group_text 1 m)
        (omega (arith, fits, rest)) (omega (arith, fits, rest))

argument_step-Advances :
    (elided : List Text) (n pos : ℕ) (o : Option Text)
    → get_elem? elided n ≡ o
    → Advances elided (left elided n pos) (argument_step elided n pos o)
argument_step-Advances elided n pos none e = tt
argument_step-Advances elided n pos (some line) e =
    argument_match-Advances elided n pos e (match argument_pattern (drop pos line)) refl

abbrev pub Answers : Option Bool → Type 0
Answers o = (b : Bool) × (o ≡ some b)

argument_on-Answers :
    (elided : List Text) (m : ℕ) (next : ℕ → ℕ → Option Bool) (t : ArgumentStep)
    → ((n pos : ℕ) → left elided n pos < m → Answers (next n pos))
    → Advances elided m t
    → Answers (argument_on next t)
argument_on-Answers elided m next (go_on n pos) f lt = f n pos lt
argument_on-Answers elided m next (answer b) f h = (b, refl)
argument_on-Answers elided m next raise f h = absurd h

argument_loop-Answers :
    (fuel : ℕ) (elided : List Text) (n pos : ℕ)
    → left elided n pos < fuel
    → Answers (argument_loop fuel elided n pos)
unfolding argument_loop
argument_loop-Answers zero elided n pos lt = absurd (omega arith)
argument_loop-Answers (suc fuel) elided n pos lt =
    argument_on-Answers elided (left elided n pos) (argument_loop fuel elided) _
      (λ n' pos' less. argument_loop-Answers fuel elided n' pos' (omega arith))
      (argument_step-Advances elided n pos (get_elem? elided n) refl)

-- `InTemplateArgumentList` ends with an answer for every list of lines, from every line number and
-- position, those out of range included, and without an index out of range.
pub in_template_argument_list_total :
    (elided : List Text) (linenum pos : ℕ)
    → (b : Bool) × (in_template_argument_list elided linenum pos ≡ some b)
unfolding in_template_argument_list
in_template_argument_list_total elided linenum pos =
    argument_loop-Answers (suc (size elided)) elided linenum pos
      (omega (arith, ahead_in-le (drop linenum elided) pos, size-drop elided linenum))
