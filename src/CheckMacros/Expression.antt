-- ===== src/CheckMacros/Expression.antt =====
-- The loop of `CheckCheck` that reads the operands and the operator of an expression.
use dyod.Prelude.{
  ℕ, zero, suc, Option, none, some, [], ◌∷◌, ◌++◌, Text, codes, drop, is_empty, take, text_eq,
  text_mem, if◌then◌else◌,
}
use dyod.Regex.{
  Re, Cursor, alts, at_end, at_start, dot, group_text, grp, lit, match, non_space, none_of, plus,
  seqs, space, star,
}
use dyod.Brackets.{Scan, found, unclosed, pending, find_end_of_expression_in_line}

-- `^\s*(<<|<<=|>>|>>=|->\*|->|&&|\|\||==|!=|>=|>|<=|<|\()(.*)$`
abbrev pub token_pattern : Re
token_pattern = seqs (
    at_start
    ∷ star space
    ∷ grp 1 (
        alts (
          lit (codes "<<")
          ∷ lit (codes "<<=")
          ∷ lit (codes ">>")
          ∷ lit (codes ">>=")
          ∷ lit (codes "->*")
          ∷ lit (codes "->")
          ∷ lit (codes "&&")
          ∷ lit (codes "||")
          ∷ lit (codes "==")
          ∷ lit (codes "!=")
          ∷ lit (codes ">=")
          ∷ lit (codes ">")
          ∷ lit (codes "<=")
          ∷ lit (codes "<")
          ∷ lit (codes "(")
          ∷ []))
    ∷ grp 2 (star dot)
    ∷ at_end
    ∷ [])

-- `^([^-=!<>()&|]+)(.*)$` and `^(\s*\S)(.*)$`
abbrev pub operand_pattern : Re
operand_pattern =
    seqs (at_start ∷ grp 1 (plus (none_of (codes "-=!<>()&|"))) ∷ grp 2 (star dot) ∷ at_end ∷ [])

abbrev pub char_pattern : Re
char_pattern =
    seqs (at_start ∷ grp 1 (seqs (star space ∷ non_space ∷ [])) ∷ grp 2 (star dot) ∷ at_end ∷ [])

-- What the parse gives: nothing, where the function returns, or the left operand, with the
-- operator and the right one if there is an operator.
pub data Operands : Type 0 where
  unparsed : Operands
  operands : Text → Option (Text × Text) → Operands

-- a round of the loop: it ends, or goes on with the left operand and the expression
pub data Round : Type 0 where
  stop : Operands → Round
  again : Text → Text → Round

abbrev pub parenthesized : Text → Text → Scan → Round
parenthesized lhs expression (found end) =
    again (lhs ++ codes "(" ++ take end expression) (drop end expression)
parenthesized lhs expression unclosed = stop unparsed
parenthesized lhs expression (pending st) = stop unparsed

abbrev pub at_token : Text → Text → Text → Round
at_token lhs token rest =
    if text_eq token (codes "(")
    then parenthesized lhs rest (find_end_of_expression_in_line rest 0 (codes "("))
    else if text_mem token (codes "&&" ∷ codes "||" ∷ [])
    then stop unparsed
    else if text_mem token
        (codes "<<" ∷ codes "<<=" ∷ codes ">>" ∷ codes ">>=" ∷ codes "->*" ∷ codes "->" ∷ [])
    then again (lhs ++ token) rest
    else stop (operands lhs (some (token, rest)))

abbrev pub at_char : Text → Option Cursor → Round
at_char lhs none = stop (operands lhs none)
at_char lhs (some m) = again (lhs ++ group_text 1 m) (group_text 2 m)

abbrev pub at_operand : Text → Text → Option Cursor → Round
at_operand lhs expression none = at_char lhs (match char_pattern expression)
at_operand lhs expression (some m) = again (lhs ++ group_text 1 m) (group_text 2 m)

abbrev pub at_expression : Text → Text → Option Cursor → Round
at_expression lhs expression none = at_operand lhs expression (match operand_pattern expression)
at_expression lhs expression (some m) = at_token lhs (group_text 1 m) (group_text 2 m)

unfoldable pub parse_round : Text → Text → Round
unfolding match text_eq text_mem find_end_of_expression_in_line
parse_round lhs expression =
    if is_empty expression
    then stop (operands lhs none)
    else at_expression lhs expression (match token_pattern expression)

abbrev pub next_round : (Text → Text → Option Operands) → Round → Option Operands
next_round next (stop o) = some o
next_round next (again lhs expression) = next lhs expression

-- The loop, on fuel, whose end is `none`.
unfoldable pub parse_loop : ℕ → Text → Text → Option Operands
unfolding parse_round
parse_loop zero lhs expression = none
parse_loop (suc fuel) lhs expression = next_round (parse_loop fuel) (parse_round lhs expression)
