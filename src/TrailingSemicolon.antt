-- ===== src/TrailingSemicolon.antt =====
-- cpplint.py: `CheckTrailingSemicolon`, which also collects the NOLINT comments at the end of the block.
-- The end of a block on line 0 is outside the model: Python then reads the last line, as line -1. Line
-- 0 of a file is the marker that ProcessFileData puts there.
pub mod Total
use dyod.Prelude.{
  ℕ, zero, suc, ◌-◌, Bool, true, false, not, ◌||◌, Option, none, some, List, [], ◌∷◌, ◌++◌, Text,
  codes, drop, get_elem?, length, leb, take, text_mem, ◌==◌, if◌then◌else◌,
}
use dyod.Regex.{
  Re, Cursor, alts, at_end, at_start, dot, finds, group_text, grp, lit, match, matches, one_of,
  plus, search, seqs, space, star, word_edge,
}
use dyod.Report.{Report, report}
use dyod.Nolint.{Suppressions, parse_nolint_suppressions}
use dyod.Brackets.{Place, close_expression, reverse_close_expression}
use dyod.FileChecks.{get_previous_non_blank_line}
use dyod.Driver.{Calls, called}

-- `s.rfind(c)`
unfoldable pub last_index : ℕ → Text → Option ℕ
last_index c [] = none
last_index c (x ∷ s) = elim (last_index c s) [
  | none ↦ if x == c then some 0 else none
  | some i ↦ some (suc i)
]

-- `^(.*\)\s*)\{`, `^(.*(?:else|\)\s*const)\s*)\{` and `^(\s*)\{`
abbrev pub parenthesis_pattern : Re
parenthesis_pattern =
    seqs (
      at_start ∷ grp 1 (seqs (star dot ∷ lit (codes ")") ∷ star space ∷ [])) ∷ lit (codes "{") ∷ [])

abbrev pub else_block_pattern : Re
else_block_pattern = seqs (
    at_start
    ∷ grp 1 (
        seqs (
          star dot
          ∷ alts (
              lit (codes "else")
              ∷ seqs (lit (codes ")") ∷ star space ∷ lit (codes "const") ∷ [])
              ∷ [])
          ∷ star space
          ∷ []))
    ∷ lit (codes "{")
    ∷ [])

abbrev pub bare_block_pattern : Re
bare_block_pattern = seqs (at_start ∷ grp 1 (star space) ∷ lit (codes "{") ∷ [])

abbrev safe_macros : List Text
safe_macros =
    codes "TEST"
    ∷ codes "TEST_F"
    ∷ codes "MATCHER"
    ∷ codes "MATCHER_P"
    ∷ codes "TYPED_TEST"
    ∷ codes "EXCLUSIVE_LOCKS_REQUIRED"
    ∷ codes "SHARED_LOCKS_REQUIRED"
    ∷ codes "LOCKS_EXCLUDED"
    ∷ codes "INTERFACE_DEF"
    ∷ []

-- `\b([A-Z_][A-Z0-9_]*)\s*$`
abbrev macro_name_pattern : Re
macro_name_pattern = seqs (
    word_edge
    ∷ grp 1 (
        seqs (
          one_of (codes "ABCDEFGHIJKLMNOPQRSTUVWXYZ_")
          ∷ star (one_of (codes "ABCDEFGHIJKLMNOPQRSTUVWXYZ0123456789_"))
          ∷ []))
    ∷ star space
    ∷ at_end
    ∷ [])

-- `^(.*\])\s*$`
abbrev bracketed_pattern : Re
bracketed_pattern =
    seqs (at_start ∷ grp 1 (seqs (star dot ∷ lit (codes "]") ∷ [])) ∷ star space ∷ at_end ∷ [])

-- `\boperator\s*\[\s*\]`, `\b(?:struct|union)\s+alignas\s*$`, `\bdecltype$` and `\s+=\s*$`
abbrev index_operator_pattern : Re
index_operator_pattern = seqs (
    word_edge
    ∷ lit (codes "operator")
    ∷ star space
    ∷ lit (codes "[")
    ∷ star space
    ∷ lit (codes "]")
    ∷ [])

abbrev alignas_pattern : Re
alignas_pattern = seqs (
    word_edge
    ∷ alts (lit (codes "struct") ∷ lit (codes "union") ∷ [])
    ∷ plus space
    ∷ lit (codes "alignas")
    ∷ star space
    ∷ at_end
    ∷ [])

abbrev decltype_pattern : Re
decltype_pattern = seqs (word_edge ∷ lit (codes "decltype") ∷ at_end ∷ [])

abbrev assigned_pattern : Re
assigned_pattern = seqs (plus space ∷ lit (codes "=") ∷ star space ∷ at_end ∷ [])

-- `\]\s*$` and `[;{}]\s*$`
abbrev bracket_end_pattern : Re
bracket_end_pattern = seqs (lit (codes "]") ∷ star space ∷ at_end ∷ [])

abbrev statement_end_pattern : Re
statement_end_pattern = seqs (one_of (codes ";{}") ∷ star space ∷ at_end ∷ [])

-- `^\s*;`
abbrev next_semicolon_pattern : Re
next_semicolon_pattern = seqs (at_start ∷ star space ∷ lit (codes ";") ∷ [])

abbrev unsafe_macro : Option (ℕ × Cursor) → Bool
unsafe_macro none = false
unsafe_macro (some (i, m)) = not (text_mem (group_text 1 m) safe_macros)

abbrev lambda_head : Option Cursor → Bool
lambda_head none = false
lambda_head (some m) = not (finds index_operator_pattern (group_text 1 m))

-- what stands in front of the parenthesis rules a block out
unfoldable pub is_exempt : Text → Bool
unfolding text_mem search match finds
is_exempt line_prefix =
    unsafe_macro (search macro_name_pattern line_prefix)
    || lambda_head (match bracketed_pattern line_prefix)
    || finds alignas_pattern line_prefix
    || finds decltype_pattern line_prefix
    || finds assigned_pattern line_prefix

abbrev exempt_at : Text → Option ℕ → Bool
exempt_at line none = false
exempt_at line (some pos) = is_exempt (take pos line)

abbrev lambda_before : Option Text → Option Bool
lambda_before none = none
lambda_before (some line) = some (finds bracket_end_pattern line)

-- the opening parenthesis does not belong to a block
abbrev ruled_out : List Text → Place → Option Bool
ruled_out elided opening =
    if exempt_at opening.line opening.pos
    then some true
    else if leb opening.linenum 1
    then some false
    else lambda_before (get_elem? elided (opening.linenum - 1))

-- the length of what stands in front of the brace, if it opens a block
abbrev unless : ℕ → Option Bool → Option (Option ℕ)
unless n none = none
unless n (some true) = some none
unless n (some false) = some (some n)

-- A position -1, which the pattern excludes, would give a place that is not found.
abbrev opening_parenthesis : List Text → ℕ → Text → Option ℕ → Option Place
opening_parenthesis elided linenum line none =
    some (record { line = line; linenum = 0; pos = none })
opening_parenthesis elided linenum line (some pos) = reverse_close_expression elided linenum pos

abbrev behind_parenthesis : List Text → ℕ → Option Place → Option (Option ℕ)
behind_parenthesis elided n none = none
behind_parenthesis elided n (some opening) = unless n (ruled_out elided opening)

abbrev prefix_length : Option Cursor → Option ℕ
prefix_length none = none
prefix_length (some m) = some (length (group_text 1 m))

abbrev behind_statement : Text → Option (Text × ℕ) → Option ℕ
behind_statement line none = none
behind_statement line (some (previous, n)) =
    if finds statement_end_pattern previous
    then prefix_length (match bare_block_pattern line)
    else none

abbrev behind_else : List Text → ℕ → Text → Option Cursor → Option ℕ
behind_else elided linenum line none =
    behind_statement line (get_previous_non_blank_line elided linenum)
behind_else elided linenum line (some m) = some (length (group_text 1 m))

abbrev block_start : List Text → ℕ → Text → Option Cursor → Option (Option ℕ)
block_start elided linenum line none =
    some (behind_else elided linenum line (match else_block_pattern line))
block_start elided linenum line (some m) =
    behind_parenthesis elided (length (group_text 1 m))
      (opening_parenthesis elided linenum line (last_index b')' (group_text 1 m)))

abbrev pub Outcome : Type 0
Outcome = Option (Suppressions × Calls)

unfoldable pub semicolon_report : Text → ℕ → Report
semicolon_report filename linenum =
    report filename linenum (codes "readability/braces") 4 (codes "You don't need a ; after a }")

module _ (filename : Text) (raw_lines : List Text) (sup : Suppressions) where
  abbrev collect : ℕ → Option Text → Option Text → Outcome
  collect n none line = none
  collect n (some previous) none = none
  collect n (some previous) (some line) =
      let (sup1, reports) = parse_nolint_suppressions filename previous n sup in
      let (sup2, more) = parse_nolint_suppressions filename line (suc n) sup1 in
      some
        (sup2, called sup1 reports ++ called sup2 (more ++ semicolon_report filename (suc n) ∷ []))

  abbrev redundant_on : ℕ → Outcome
  redundant_on zero = none
  redundant_on (suc n) = collect n (get_elem? raw_lines n) (get_elem? raw_lines (suc n))

  abbrev redundant_at : Text → ℕ → Option ℕ → Outcome
  redundant_at line linenum none = some (sup, [])
  redundant_at line linenum (some pos) =
      if matches next_semicolon_pattern (drop pos line)
      then redundant_on linenum
      else some (sup, [])

  abbrev closed_at : Option Place → Outcome
  closed_at none = none
  closed_at (some end) = redundant_at end.line end.linenum end.pos

  abbrev started_at : List Text → ℕ → Option (Option ℕ) → Outcome
  started_at elided linenum none = none
  started_at elided linenum (some none) = some (sup, [])
  started_at elided linenum (some (some pos)) = closed_at (close_expression elided linenum pos)

  abbrev semicolon_on : List Text → ℕ → Option Text → Outcome
  semicolon_on elided linenum none = none
  semicolon_on elided linenum (some line) =
      started_at elided linenum (block_start elided linenum line (match parenthesis_pattern line))

  -- `CheckTrailingSemicolon`; `none` is an index out of range.
  unfoldable pub check_trailing_semicolon : List Text → ℕ → Outcome
  unfolding match finds matches is_exempt last_index reverse_close_expression close_expression
      get_previous_non_blank_line
  check_trailing_semicolon elided linenum = semicolon_on elided linenum (get_elem? elided linenum)
