-- ===== src/Tests/Semicolons.antt =====
-- Semicolons behind blocks.
use dyod.Prelude.{◌≡◌, refl, arith, some, List, [], ◌∷◌, Text, codes}
use dyod.Nolint.{Suppressions, parse_nolint_suppressions}
use dyod.Regex.{lookup_group, search}
use dyod.Brackets.{
  reverse_close_at, reverse_close_scan, find_start_from, find_start_of_expression_in_line,
  find_end_of_expression_in_line, start_step, close_start, pop_while, close_at, close_scan,
  next_line, find_end_from, end_step, close_lines, close_end,
}
use dyod.TrailingSemicolon.{check_trailing_semicolon, semicolon_report}
use dyod.TrailingSemicolon.Total.{Collects, check_trailing_semicolon_total}

abbrev some_lines : List Text
some_lines =
    codes ""
    ∷ codes "void f() {"
    ∷ codes "  g();"
    ∷ codes "};"
    ∷ codes "DECLARE(x) {"
    ∷ codes "};"
    ∷ []

abbrev no_suppressions : Suppressions
no_suppressions = record { lines = []; global = [] }

redundant_semicolon :
    check_trailing_semicolon (codes "a.cc") some_lines no_suppressions some_lines 1
    ≡ some (no_suppressions, (no_suppressions, semicolon_report (codes "a.cc") 3) ∷ [])
unfolding check_trailing_semicolon lookup_group reverse_close_at reverse_close_scan find_start_from
    find_start_of_expression_in_line start_step close_start pop_while close_at close_scan next_line
    find_end_from find_end_of_expression_in_line end_step close_lines close_end
    parse_nolint_suppressions search
redundant_semicolon = refl

macro_semicolon :
    check_trailing_semicolon (codes "a.cc") some_lines no_suppressions some_lines 4
    ≡ some (no_suppressions, [])
unfolding check_trailing_semicolon lookup_group reverse_close_at reverse_close_scan find_start_from
    find_start_of_expression_in_line start_step close_start pop_while
macro_semicolon = refl

check_trailing_semicolon_total_example :
    Collects 1 no_suppressions
      (check_trailing_semicolon (codes "a.cc") some_lines no_suppressions some_lines 1)
check_trailing_semicolon_total_example =
    check_trailing_semicolon_total (codes "a.cc") some_lines no_suppressions 1 some_lines refl
      (omega arith) (omega arith)
