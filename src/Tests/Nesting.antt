-- ===== src/Tests/Nesting.antt =====
-- The nesting of blocks.
use dyod.Prelude.{
  suc, ℕ, ◌≡◌, refl, arith, true, none, some, List, [], ◌∷◌, Text, codes, length, drop, find,
  is_prefix, text_eq, text_mem, All, pos,
}
use dyod.Regex.{matches, match, search, finds, lookup_group}
use dyod.Report.{Report}
use dyod.Cleanse.{CleansedLines}
use dyod.Nesting.{BlockInfo, NestingState, new_nesting_state, new_block, plain_block}
use dyod.Nesting.Blocks.{new_class}
use dyod.Nesting.Blocks.Reports.{AtMost}
use dyod.Nesting.Blocks.ClassEnd.{EndsAtFirst, new_class-last_line}
use dyod.Nesting.Preprocessor.{update_preprocessor}
use dyod.Nesting.Preprocessor.Conditionals.{
  Line, Code, nothing, line, conditional, no_branch, branch, IsNested, run_code, first_branches,
  run_code-first_branches,
}
use dyod.Nesting.Template.{in_template_argument_list, argument_loop}
use dyod.Nesting.Template.Laws.{in_template_argument_list_total}
use dyod.Nesting.Braces.{namespace_loop, brace_loop, brace_stack, brace_reports}
use dyod.Nesting.Braces.Depth.{AllSeen, depth_behind, brace_loop-depth_behind}
use dyod.Nesting.Update.{update, update_stack, update_access}
use dyod.Nesting.Update.Total.{InOrder, update_total}

abbrev some_lines : List Text
some_lines =
    codes "namespace a { class B : public C {"
    ∷ codes " public:"
    ∷ codes "  void f() {}"
    ∷ codes "}; }"
    ∷ []

abbrev some_clean_lines : CleansedLines
some_clean_lines = record {
  elided = some_lines;
  lines = some_lines;
  raw_lines = some_lines;
  num_lines = 4;
  lines_without_raw_strings = some_lines;
}

update_total_example :
    (s' : NestingState) × (reports : List Report) × (update
        (codes "a.h")
        some_clean_lines
        0
        new_nesting_state
      ≡ some (s', reports))
    × InOrder 0 s'
    × All (AtMost 0) reports
update_total_example =
    update_total (codes "a.h") some_clean_lines 0 new_nesting_state (omega arith) (tt, tt)

in_template_argument_list_total_example :
    (b : _) × (in_template_argument_list some_lines 0 8 ≡ some b)
in_template_argument_list_total_example = in_template_argument_list_total some_lines 0 8

template_argument : in_template_argument_list (codes "<class A, class B>" ∷ []) 0 8 ≡ some true
unfolding in_template_argument_list argument_loop match lookup_group text_eq text_mem
template_argument = refl

new_class-last_line_example :
    EndsAtFirst
      (pos 0)
      0
      (drop 0 some_lines)
      (new_class (codes "B") (codes "class") some_clean_lines 0).last_line
new_class-last_line_example = new_class-last_line (codes "B") (codes "class") some_clean_lines 0

-- a line that changes nothing, and one that opens a block
abbrev calm : Text → Line
calm t = record { text = t; edit = λ st. st }

abbrev opening : Text → Line
opening t = record { text = t; edit = λ st. new_block 3 true plain_block ∷ st }

abbrev some_code : Code
some_code =
    conditional (calm (codes "#ifdef A")) (line (opening (codes "f() {")) nothing)
      (branch (calm (codes "#else")) (line (opening (codes "g() {")) nothing) no_branch)
      (calm (codes "# endif")) nothing

some_code-IsNested : IsNested some_code
unfolding IsNested matches match
some_code-IsNested = (
  refl,
  ((refl, refl, refl), tt),
  ((refl, refl), ((refl, refl, refl), tt), tt),
  (refl, refl, refl),
  tt,
)

run_code-first_branches_example :
    run_code some_code new_nesting_state
    ≡ record new_nesting_state { stack = first_branches some_code [] }
run_code-first_branches_example =
    run_code-first_branches some_code new_nesting_state some_code-IsNested

-- the blocks behind a line, and the reports on it
abbrev after : Text → ℕ → NestingState → List BlockInfo × List Report
after filename n s = elim (update filename some_clean_lines n s) [
  | none ↦ ([], [])
  | some (s', reports) ↦ (s'.stack, reports)
]

two_blocks : length (after (codes "a.h") 0 new_nesting_state).0 ≡ 2
unfolding update update_stack update_preprocessor matches match finds search find is_prefix text_eq
    text_mem lookup_group namespace_loop brace_loop brace_stack brace_reports update_access
    in_template_argument_list argument_loop
two_blocks = refl

brace_loop-depth_behind_example :
    (st' : List BlockInfo) × (reports : List Report) × (brace_loop
        (suc (length (codes "} else { f({1});")))
        (codes "a.h")
        some_clean_lines
        2
        (codes "} else { f({1});")
        (new_block 1 true plain_block ∷ [])
      ≡ some (st', reports))
    × AllSeen st'
    × (length st' ≡ depth_behind (codes "} else { f({1});") 1)
brace_loop-depth_behind_example =
    brace_loop-depth_behind (codes "a.h") some_clean_lines 2 (codes "} else { f({1});")
      (new_block 1 true plain_block ∷ [])
      ((
        refl,
        (
          refl,
          (
            refl,
            (
              refl,
              (
                refl,
                (
                  refl,
                  (
                    refl,
                    (refl, (refl, (refl, (refl, (refl, (refl, (refl, (refl, (refl, tt))))))))),
                  ),
                ),
              ),
            ),
          ),
        ),
      ))
      (refl, tt)
