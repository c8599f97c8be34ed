-- ===== src/CheckMacros/Total.antt =====
-- `CheckCheck` answers on every line of a file: the macro it finds stands before a parenthesis on the
-- line, and every round of its loop leaves a shorter expression.
use dyod.Prelude.{
  ℕ, zero, suc, ◌<◌, Bool, true, Option, none, some, List, [], ◌∷◌, ◌≡◌, refl, arith, Text, codes,
  drop, get_elem?, get_elem?-some, if_both, is_empty, length, length-drop, text_eq, text_mem, ◌==◌,
}
use dyod.Regex.{Cursor, match, matches, group_text, lit}
use dyod.Regex.Weight.{is_plain, is_flat, match-Under, group-held}
use dyod.Report.{Report}
use dyod.Brackets.{Place, Scan, found, unclosed, pending, find_end_of_expression_in_line}
use dyod.Brackets.Forward.{close_expression-Forward}
use dyod.IncludeState.Own.{contains}
use dyod.CheckMacros.Expression.{
  token_pattern, operand_pattern, char_pattern, Operands, unparsed, operands, Round, stop, again,
  parenthesized, at_token, at_char, at_operand, at_expression, parse_round, next_round, parse_loop,
}
use dyod.CheckMacros.{
  macro_pattern, macro_at, find_macro, find_check_macro, check_macros, operand_reports,
  place_reports, macro_reports, check_check, expression_of, semicolon_pattern,
}

-- the round ends, or leaves an expression shorter than `n`
abbrev Shortens : ℕ → Round → Type 0
Shortens n (stop o) = Unit
Shortens n (again lhs expression) = length expression < n

abbrev second : ℕ → Bool
second n = n == 2

abbrev first_group : ℕ → Bool
first_group n = n == 1

parenthesized-Shortens :
    (n : ℕ) (lhs e : Text) (r : Scan) → length e < n → Shortens n (parenthesized lhs e r)
parenthesized-Shortens n lhs e (found p) h = omega (arith, length-drop {0} p e)
parenthesized-Shortens n lhs e unclosed h = tt
parenthesized-Shortens n lhs e (pending st) h = tt

at_token-Shortens :
    (n : ℕ) (lhs token rest : Text) → length rest < n → Shortens n (at_token lhs token rest)
at_token-Shortens n lhs token rest h =
    let P = Shortens n in
    if_both P (text_eq token (codes "("))
      (parenthesized-Shortens n lhs rest (find_end_of_expression_in_line rest 0 (codes "(")) h)
      (if_both P (text_mem token (codes "&&" ∷ codes "||" ∷ [])) tt (
        if_both P
          (text_mem token
            (codes "<<" ∷ codes "<<=" ∷ codes ">>" ∷ codes ">>=" ∷ codes "->*" ∷ codes "->" ∷ []))
          h tt))

at_char-Shortens :
    (lhs e : Text) (m : Option Cursor)
    → match char_pattern e ≡ m
    → Shortens (length e) (at_char lhs m)
at_char-Shortens lhs e none k = tt
at_char-Shortens lhs e (some m) k =
    omega (arith, match-Under second char_pattern e refl k, group-held second 2 m.groups refl)

at_operand-Shortens :
    (lhs e : Text) (m : Option Cursor)
    → match operand_pattern e ≡ m
    → Shortens (length e) (at_operand lhs e m)
at_operand-Shortens lhs e none k = at_char-Shortens lhs e (match char_pattern e) refl
at_operand-Shortens lhs e (some m) k =
    omega (arith, match-Under second operand_pattern e refl k, group-held second 2 m.groups refl)

at_expression-Shortens :
    (lhs e : Text) (m : Option Cursor)
    → match token_pattern e ≡ m
    → Shortens (length e) (at_expression lhs e m)
at_expression-Shortens lhs e none k = at_operand-Shortens lhs e (match operand_pattern e) refl
at_expression-Shortens lhs e (some m) k =
    at_token-Shortens (length e) lhs (group_text 1 m) (group_text 2 m)
      (omega (arith, match-Under second token_pattern e refl k, group-held second 2 m.groups refl))

parse_round-Shortens : (lhs e : Text) → Shortens (length e) (parse_round lhs e)
unfolding parse_round
parse_round-Shortens lhs e =
    if_both (Shortens (length e)) (is_empty e) tt
      (at_expression-Shortens lhs e (match token_pattern e) refl)

next_round-some :
    (n : ℕ) (next : Text → Text → Option Operands) (r : Round)
    → Shortens n r
    → ((lhs e : Text) → length e < n → (o : Operands) × (next lhs e ≡ some o))
    → (o : Operands) × (next_round next r ≡ some o)
next_round-some n next (stop o) h f = (o, refl)
next_round-some n next (again lhs e) h f = f lhs e h

parse_loop-some :
    (fuel : ℕ) (lhs e : Text) → length e < fuel → (o : Operands) × (parse_loop fuel lhs e ≡ some o)
unfolding parse_loop
parse_loop-some zero lhs e h = absurd (omega arith)
parse_loop-some (suc fuel) lhs e h =
    next_round-some (length e) (parse_loop fuel) (parse_round lhs e) (parse_round-Shortens lhs e)
      (λ lhs' e' h'. parse_loop-some fuel lhs' e' (omega arith))

-- the macro stands before a character of the line
abbrev StandsIn : Text → Option (Text × ℕ) → Type 0
StandsIn line none = Unit
StandsIn line (some (macro, start_pos)) = start_pos < length line

lit-is_plain : (t : Text) → is_plain (lit t) ≡ true
lit-is_plain [] = refl
lit-is_plain (c ∷ []) = refl
lit-is_plain (c ∷ d ∷ t) = lit-is_plain (d ∷ t)

macro_pattern-is_flat : (macro : Text) → is_flat first_group (macro_pattern macro) ≡ true
macro_pattern-is_flat macro = rw (lit-is_plain macro) refl

macro_at-StandsIn :
    (line macro : Text) (m : Option Cursor) (later : Option (Text × ℕ))
    → match (macro_pattern macro) line ≡ m
    → StandsIn line later
    → StandsIn line (macro_at macro m later)
macro_at-StandsIn line macro none later k h = h
macro_at-StandsIn line macro (some m) later k h = omega (
  arith,
  match-Under first_group (macro_pattern macro) line (macro_pattern-is_flat macro) k,
  group-held first_group 1 m.groups refl,
)

find_macro-StandsIn : (line : Text) (macros : List Text) → StandsIn line (find_macro line macros)
unfolding find_macro
find_macro-StandsIn line [] = tt
find_macro-StandsIn line (macro ∷ macros) =
    let rest = find_macro-StandsIn line macros in
    if_both (StandsIn line) (contains macro line)
      (macro_at-StandsIn line macro (match (macro_pattern macro) line) (find_macro line macros) refl
        rest)
      rest

abbrev Answers : Option (List Report) → Type 0
Answers r = (reports : List Report) × (r ≡ some reports)

module _ (filename : Text) (elided : List Text) (linenum : ℕ) where
  operand_reports-Answers :
      (macro : Text) (r : Option Operands)
      → ((o : Operands) × (r ≡ some o))
      → Answers (operand_reports filename linenum macro r)
  operand_reports-Answers macro r (unparsed, e) = rw e (_, refl)
  operand_reports-Answers macro r (operands lhs none, e) = rw e (_, refl)
  operand_reports-Answers macro r (operands lhs (some (operator, rhs)), e) = rw e (_, refl)

  place_reports-Answers :
      (macro line : Text) (start_pos : ℕ) (end : Place) (p : Option ℕ)
      → Answers (place_reports filename linenum macro elided line start_pos end p)
  place_reports-Answers macro line start_pos end none = (_, refl)
  place_reports-Answers macro line start_pos end (some end_pos) =
      let expression = expression_of elided linenum line start_pos end end_pos in
      if_both Answers (matches semicolon_pattern (drop end_pos end.line))
        (operand_reports-Answers macro (parse_loop (suc (length expression)) [] expression)
          (parse_loop-some (suc (length expression)) [] expression (omega arith)))
        (_, refl)

  macro_reports-Answers :
      (line : Text) (m : Option (Text × ℕ))
      → get_elem? elided linenum ≡ some line
      → StandsIn line m
      → Answers (macro_reports filename elided linenum line m)
  macro_reports-Answers line none e h = (_, refl)
  macro_reports-Answers line (some (macro, start_pos)) e h =
      let (c, k) = get_elem?-some line start_pos h in
      let (end, f, forward) = close_expression-Forward elided linenum start_pos e k in
      rw f (place_reports-Answers macro line start_pos end end.pos)

  -- `CheckCheck` answers at every line of a file: it finds the parenthesis behind the macro, and its
  -- loop over the expression ends.
  pub check_check_total :
      linenum < length elided
      → (reports : List Report) × (check_check filename elided linenum ≡ some reports)
  unfolding check_check
  check_check_total lt =
      let (line, e) = get_elem?-some elided linenum lt in
      rw e (
        macro_reports-Answers line (find_check_macro line) e
          (find_macro-StandsIn line check_macros))
