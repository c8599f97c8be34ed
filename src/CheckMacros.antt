-- ===== src/CheckMacros.antt =====
-- cpplint.py: `FindCheckMacro` and `CheckCheck`, which suggests CHECK_EQ(a, b) for CHECK(a == b).
pub mod Expression
pub mod Meaning
pub mod Total
use dyod.Prelude.{
  ℕ, suc, ◌+◌, ◌-◌, Bool, ◌&&◌, ◌||◌, Option, none, some, List, [], ◌∷◌, ◌++◌, Text, codes, drop,
  find, get_elem?, is_empty, is_unicode_space, length, rstrip, drop_while, strip, take, text_eq,
  text_mem, ◌==◌, if◌then◌else◌,
}
use dyod.Regex.{
  Re, Cursor, alts, at_end, at_start, digit, dot, group_text, grp, lit, match, matches, one_of, opt,
  plus, seqs, space, star, word_edge,
}
use dyod.CheckMacros.Expression.{Operands, unparsed, operands, parse_loop}
use dyod.Report.{Report, report}
use dyod.Brackets.{Place, close_expression}
use dyod.IncludeState.Own.{contains}

-- `_CHECK_MACROS`
abbrev pub check_macros : List Text
check_macros =
    codes "DCHECK"
    ∷ codes "CHECK"
    ∷ codes "EXPECT_TRUE"
    ∷ codes "ASSERT_TRUE"
    ∷ codes "EXPECT_FALSE"
    ∷ codes "ASSERT_FALSE"
    ∷ []

abbrev operator_name : Text → Text
operator_name operator =
    if text_eq operator (codes "==")
    then codes "EQ"
    else if text_eq operator (codes "!=")
    then codes "NE"
    else if text_eq operator (codes ">=")
    then codes "GE"
    else if text_eq operator (codes ">")
    then codes "GT"
    else if text_eq operator (codes "<=")
    then codes "LE"
    else codes "LT"

abbrev inverse_name : Text → Text
inverse_name operator =
    if text_eq operator (codes "==")
    then codes "NE"
    else if text_eq operator (codes "!=")
    then codes "EQ"
    else if text_eq operator (codes ">=")
    then codes "LT"
    else if text_eq operator (codes ">")
    then codes "LE"
    else if text_eq operator (codes "<=")
    then codes "GT"
    else codes "GE"

-- `_CHECK_REPLACEMENT[macro][operator]`, for the six operators
unfoldable pub check_replacement : Text → Text → Text
unfolding text_eq text_mem
check_replacement macro operator =
    if text_mem macro (codes "DCHECK" ∷ codes "CHECK" ∷ [])
    then macro ++ codes "_" ++ operator_name operator
    else if text_eq macro (codes "EXPECT_TRUE")
    then codes "EXPECT_" ++ operator_name operator
    else if text_eq macro (codes "ASSERT_TRUE")
    then codes "ASSERT_" ++ operator_name operator
    else if text_eq macro (codes "EXPECT_FALSE")
    then codes "EXPECT_" ++ inverse_name operator
    else codes "ASSERT_" ++ inverse_name operator

-- `^(.*\bmacro\s*)\(`
abbrev macro_pattern : Text → Re
macro_pattern macro = seqs (
    at_start
    ∷ grp 1 (seqs (star dot ∷ word_edge ∷ lit macro ∷ star space ∷ []))
    ∷ lit (codes "(")
    ∷ [])

abbrev macro_at : Text → Option Cursor → Option (Text × ℕ) → Option (Text × ℕ)
macro_at macro none later = later
macro_at macro (some m) later = some (macro, length (group_text 1 m))

-- the loop of `FindCheckMacro`
unfoldable pub find_macro : Text → List Text → Option (Text × ℕ)
unfolding find match
find_macro line [] = none
find_macro line (macro ∷ macros) =
    let later = find_macro line macros in
    if contains macro line then macro_at macro (match (macro_pattern macro) line) later else later

abbrev pub find_check_macro : Text → Option (Text × ℕ)
find_check_macro line = find_macro line check_macros

-- `^([-+]?(\d+|0[xX][0-9a-fA-F]+)[lLuU]{0,3}|".*"|\'.*\')$`
abbrev constant_pattern : Re
constant_pattern =
    let suffix = one_of (codes "lLuU") in
    seqs (
      at_start
      ∷ grp 1 (
          alts (
            seqs (
              opt (one_of (codes "-+"))
              ∷ grp 2 (
                  alts (
                    plus digit
                    ∷ seqs (
                        lit (codes "0")
                        ∷ one_of (codes "xX")
                        ∷ plus (one_of (codes "0123456789abcdefABCDEF"))
                        ∷ [])
                    ∷ []))
              ∷ opt (seqs (suffix ∷ opt (seqs (suffix ∷ opt suffix ∷ [])) ∷ []))
              ∷ [])
            ∷ seqs (lit (codes "\"") ∷ star dot ∷ lit (codes "\"") ∷ [])
            ∷ seqs (lit (codes "'") ∷ star dot ∷ lit (codes "'") ∷ [])
            ∷ []))
      ∷ at_end
      ∷ [])

unfoldable pub is_constant : Text → Bool
unfolding matches rstrip drop_while
is_constant operand = matches constant_pattern (strip is_unicode_space operand)

-- `\s*;`
abbrev semicolon_pattern : Re
semicolon_pattern = seqs (star space ∷ lit (codes ";") ∷ [])

-- the lines between two, joined
abbrev join_lines : List Text → Text
join_lines [] = []
join_lines (line ∷ lines) = line ++ join_lines lines

-- what stands between the parentheses: `end` is the place behind the closing one
unfoldable pub expression_of : List Text → ℕ → Text → ℕ → Place → ℕ → Text
expression_of elided linenum line start_pos end end_pos =
    if linenum == end.linenum
    then drop (start_pos + 1) (take (end_pos - 1) line)
    else drop (start_pos + 1) line
      ++ join_lines (take (end.linenum - linenum - 1) (drop (linenum + 1) elided))
      ++ take (end_pos - 1) end.line

module _ (filename : Text) (linenum : ℕ) (macro : Text) where
  unfoldable pub replacement_report : Text → Report
  replacement_report operator = report filename linenum (codes "readability/check") 2 (
      codes "Consider using "
      ++ check_replacement macro operator
      ++ codes " instead of "
      ++ macro
      ++ codes "(a "
      ++ operator
      ++ codes " b)")

  abbrev operand_reports : Option Operands → Option (List Report)
  operand_reports none = none
  operand_reports (some unparsed) = some []
  operand_reports (some (operands lhs none)) = some []
  operand_reports (some (operands lhs (some (operator, rhs)))) = some (
      if is_empty lhs || is_empty rhs || contains (codes "&&") rhs || contains (codes "||") rhs
      then []
      else if is_constant lhs || is_constant rhs
      then replacement_report operator ∷ []
      else [])

  abbrev place_reports : List Text → Text → ℕ → Place → Option ℕ → Option (List Report)
  place_reports elided line start_pos end none = some []
  place_reports elided line start_pos end (some end_pos) =
      let expression = expression_of elided linenum line start_pos end end_pos in
      if matches semicolon_pattern (drop end_pos end.line)
      then operand_reports (parse_loop (suc (length expression)) [] expression)
      else some []

  abbrev closed_reports : List Text → Text → ℕ → Option Place → Option (List Report)
  closed_reports elided line start_pos none = none
  closed_reports elided line start_pos (some end) = place_reports elided line start_pos end end.pos

module _ (filename : Text) (elided : List Text) (linenum : ℕ) where
  abbrev macro_reports : Text → Option (Text × ℕ) → Option (List Report)
  macro_reports line none = some []
  macro_reports line (some (macro, start_pos)) =
      closed_reports filename linenum macro elided line start_pos
        (close_expression elided linenum start_pos)

  abbrev line_reports : Option Text → Option (List Report)
  line_reports none = none
  line_reports (some line) = macro_reports line (find_check_macro line)

  -- `CheckCheck`; `none` is an index out of range, or a loop that does not end.
  unfoldable pub check_check : Option (List Report)
  unfolding find_macro matches parse_loop expression_of is_constant close_expression
  check_check = line_reports (get_elem? elided linenum)
