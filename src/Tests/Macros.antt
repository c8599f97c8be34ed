-- ===== src/Tests/Macros.antt =====
-- CHECK macros, and the text between brackets.
use dyod.Prelude.{◌≡◌, refl, arith, some, List, [], ◌∷◌, ◌++◌, Text, codes, text_mem}
use dyod.Report.{Report, report}
use dyod.Regex.{finds, lit, search, lookup_group}
use dyod.Brackets.{
  close_at, close_scan, next_line, find_end_from, end_step, close_end, pop_while, close_lines,
}
use dyod.Brackets.Balance.{Balanced, nil, plain, bracket}
use dyod.TextInside.{get_text_inside}
use dyod.TextInside.Match.{get_text_inside-Balanced}
use dyod.CheckMacros.{check_check, check_replacement, replacement_report}
use dyod.CheckMacros.Total.{check_check_total}
use dyod.CheckMacros.Meaning.{Replaces, check_replacement-Replaces}

abbrev some_lines : List Text
some_lines =
    codes "  CHECK((a + b) *"
    ∷ codes "        c == 0x2a);"
    ∷ codes "CHECK(x == y);"
    ∷ codes "EXPECT_FALSE(n < 42);"
    ∷ codes "CHECK(42 < a && a < b);"
    ∷ []

check_lines :
    (check_check (codes "a.cc") some_lines 0
      ≡ some (replacement_report (codes "a.cc") 0 (codes "CHECK") (codes "==") ∷ []))
    × (check_check (codes "a.cc") some_lines 2 ≡ some [])
    × (check_check (codes "a.cc") some_lines 3
        ≡ some (
            report
              (codes "a.cc")
              3
              (codes "readability/check")
              2
              (codes "Consider using EXPECT_GE instead of EXPECT_FALSE(a < b)")
            ∷ []))
    × (check_check (codes "a.cc") some_lines 4 ≡ some [])
unfolding check_check lookup_group close_at close_scan next_line find_end_from end_step close_end
    pop_while close_lines finds replacement_report check_replacement
check_lines = (refl, refl, refl, refl)

check_check_total_example :
    (reports : List Report) × (check_check (codes "a.cc") some_lines 3 ≡ some reports)
check_check_total_example = check_check_total (codes "a.cc") some_lines 3 (omega arith)

check_replacement-Replaces_example : Replaces 3 42 (codes "EXPECT_FALSE") (codes "<")
unfolding text_mem
check_replacement-Replaces_example =
    check_replacement-Replaces 3 42 (codes "EXPECT_FALSE") (codes "<") refl refl

abbrev arguments : Text
arguments = codes "a(),b"

arguments-Balanced : Balanced arguments
arguments-Balanced =
    plain b'a' refl (bracket b'(' b')' refl nil (plain b',' refl (plain b'b' refl nil)))

get_text_inside-Balanced_example :
    get_text_inside
      (lit (codes "printf("))
      (codes "  printf" ++ b'(' ∷ (arguments ++ b')' ∷ codes "; g()"))
    ≡ some (some arguments)
unfolding search
get_text_inside-Balanced_example =
    get_text_inside-Balanced (lit (codes "printf(")) (codes "  printf") arguments (codes "; g()")
      b'(' b')' _ _ refl arguments-Balanced refl refl
