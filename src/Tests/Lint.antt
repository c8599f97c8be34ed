-- ===== src/Tests/Lint.antt =====
-- NOLINT comments, filters, statistics and the length of functions.
use dyod.Prelude.{
  ℕ, ◌+◌, ◌≡◌, ◌≢◌, refl, true, false, not, ◌&&◌, some, List, [], ◌∷◌, Text, codes, length, text_eq,
  text_mem, is_prefix, is_suffix, split_onto, rstrip, drop_while, ltb,
}
use dyod.Regex.{lookup_group, search}
use dyod.Report.{Report, show}
use dyod.Nolint.{Suppressions, parse_nolint_suppressions, is_error_suppressed_by_nolint}
use dyod.Nolint.Laws.{parse_nolint_suppressions-suppressed}
use dyod.LintState.{
  CppLintState, initial_state, ok, add_filters, should_print_error, errors, increment_error_count,
  format_report, detailed,
}
use dyod.LintState.Filters.{
  ValidFilters, add_filters-ValidFilters, should_print_error-verdict, verdict, deciding_filter,
}
use dyod.LintState.Counts.{Balanced, errors-Balanced}
use dyod.FunctionState.{FunctionState}

abbrev no_suppressions : Suppressions
no_suppressions = record { lines = []; global = [] }

abbrev nolint_line : Text
nolint_line = codes "int x;  // NOLINT(runtime/int)"

nolint_known :
    parse_nolint_suppressions [] nolint_line 3 no_suppressions
    ≡ (record { lines = (some (codes "runtime/int"), 3) ∷ []; global = [] }, [])
unfolding parse_nolint_suppressions search lookup_group text_eq text_mem is_prefix is_suffix
nolint_known = refl

abbrev after_nolint : Suppressions
after_nolint = (parse_nolint_suppressions [] nolint_line 3 no_suppressions).0

parse_nolint_suppressions-suppressed_example :
    (is_error_suppressed_by_nolint (codes "runtime/int") 5 no_suppressions ≡ true
      → is_error_suppressed_by_nolint (codes "runtime/int") 5 after_nolint ≡ true)
    × (◌≢◌ {A = ℕ} 5 3
        → ◌≢◌ {A = ℕ} 5 (3 + 1)
        → is_error_suppressed_by_nolint (codes "runtime/int") 5 after_nolint
          ≡ is_error_suppressed_by_nolint (codes "runtime/int") 5 no_suppressions)
parse_nolint_suppressions-suppressed_example =
    parse_nolint_suppressions-suppressed [] nolint_line (codes "runtime/int") 3 5 no_suppressions

initial-ValidFilters : ValidFilters initial_state
unfolding is_prefix
initial-ValidFilters = record { current = refl; backup = refl }

abbrev filtered : CppLintState
filtered = record initial_state {
  filters = codes "-build/include_alpha" ∷ codes "-build" ∷ codes "+build/class" ∷ [];
}

add_two : add_filters (codes " -build, ,+build/class") initial_state ≡ ok filtered
unfolding add_filters split_onto rstrip drop_while is_prefix
add_two = refl

add_filters-ValidFilters_example : ValidFilters filtered
add_filters-ValidFilters_example =
    add_filters-ValidFilters (codes " -build, ,+build/class") initial_state initial-ValidFilters
      add_two

should_print_error-verdict_example :
    should_print_error (codes "build/class") 5 1 no_suppressions filtered
    ≡ some (
        not (is_error_suppressed_by_nolint (codes "build/class") 1 no_suppressions)
        && not (ltb 5 1)
        && not (verdict false (deciding_filter (codes "build/class") filtered.filters)))
should_print_error-verdict_example =
    should_print_error-verdict (codes "build/class") 5 1 no_suppressions filtered
      add_filters-ValidFilters_example

abbrev counting_state : CppLintState
counting_state = record initial_state { counting = detailed }

abbrev tab_report : Report
tab_report = record {
  filename = codes "a.cc";
  linenum = 12;
  category = codes "whitespace/tab";
  confidence = 1;
  message = codes "Tab found";
}

abbrev counted_state : CppLintState
counted_state = record counting_state {
  error_count = 1;
  errors_by_category = (codes "whitespace/tab", 1) ∷ [];
}

abbrev tab_output : List Text
tab_output = codes "a.cc:12:  Tab found  [whitespace/tab] [1]\n" ∷ []

report_tab :
    errors no_suppressions (tab_report ∷ []) counting_state ≡ some (counted_state, tab_output)
unfolding errors should_print_error increment_error_count format_report show
    is_error_suppressed_by_nolint text_mem is_prefix
report_tab = refl

errors-Balanced_example : Balanced counted_state × (◌≡◌ {A = ℕ} 1 (0 + length tab_output))
errors-Balanced_example =
    errors-Balanced no_suppressions (tab_report ∷ []) counting_state report_tab (λ h. refl)

abbrev long_function : FunctionState
long_function = record {
  in_a_function = true;
  lines_in_function = 600;
  current_function = codes "f";
}
