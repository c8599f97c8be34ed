-- ===== src/Config/Run.antt =====
-- cpplint.py: `ProcessFile` and `main`. The files are a parameter: `read_file` gives the text of a
-- file, or of the standard input for the name `-`, and is `none` where opening it raises an
-- `IOError`. What `ProcessFileData` finds in the lines is a parameter too, `find_errors`: its calls
-- of `Error`, each with the suppressions in force, and the suppressions behind it; `none` is an
-- exception.
pub mod Restore
pub mod Finish
use dyod.Prelude.{
  ℕ, suc, not, ◌&&◌, Option, none, some, List, [], ◌∷◌, ◌++◌, Text, codes, before, is_empty,
  is_suffix, rstrip, split, text_eq, text_mem, ltb, ℤ, ◌==◌, if◌then◌else◌,
}
use mathlib.Core.List.{reverse}
use dyod.Report.{Report, report}
use dyod.Nolint.{Suppressions}
use dyod.LintState.{
  CppLintState, error, errors, then_errors, set_verbose_level, backup_filters, restore_filters,
  reset_error_counts, print_error_counts,
}
use dyod.Config.{Settings}
use dyod.Config.Arguments.{Parsed, parsed, usage, categories, uncaught, parse_arguments}
use dyod.Config.Overrides.{Overridden, proceed, skip, pattern_raised, filter_raised}

-- the lines without the `\r` at their ends, and the numbers of those that end without and with one
pub record Endings : Type 0 where
  pub lines : List Text
  pub lf_lines : List ℕ
  pub crlf_lines : List ℕ

abbrev add_ending : Text → ℕ → Endings → Endings
add_ending line linenum e =
    if is_suffix (codes "\r") line
    then record e {
      lines = rstrip (λ c. c == b'\r') line ∷ e.lines;
      crlf_lines = linenum ∷ e.crlf_lines;
    }
    else record e { lines = line ∷ e.lines; lf_lines = linenum ∷ e.lf_lines }

-- The loop over the lines but the last one, from the line with the given number on.
unfoldable pub note_endings : ℕ → List Text → Endings
unfolding is_suffix rstrip
note_endings linenum [] = record { lines = []; lf_lines = []; crlf_lines = [] }
note_endings linenum (line ∷ []) = record { lines = line ∷ []; lf_lines = []; crlf_lines = [] }
note_endings linenum (line ∷ next ∷ lines) =
    add_ending line linenum (note_endings (suc linenum) (next ∷ lines))

-- `filename[filename.rfind('.') + 1:]`
unfoldable pub file_extension : Text → Text
unfolding before
file_extension filename = reverse (before b'.' (reverse filename))

unfoldable pub newline_reports : Text → List ℕ → List Report
newline_reports filename [] = []
newline_reports filename (linenum ∷ linenums) =
    report filename linenum (codes "whitespace/newline") 1
      (codes "Unexpected \\r (^M) found; better to use only \\n")
    ∷ newline_reports filename linenums

-- the warnings on lines that end with `\r`, if others do not
unfoldable pub mixed_reports : Text → Endings → List Report
unfolding newline_reports
mixed_reports filename e =
    if not (is_empty e.lf_lines) && not (is_empty e.crlf_lines)
    then newline_reports filename e.crlf_lines
    else []

-- the calls of `Error` in turn: the state behind them and what they write
unfoldable pub errors_in_turn :
    List (Suppressions × Report) → CppLintState → Option (CppLintState × List Text)
errors_in_turn [] s = some (s, [])
errors_in_turn ((sup, r) ∷ calls) s = then_errors (errors_in_turn calls) (error sup r s)

-- How a file ends: with the settings behind it and what was written, or by an exception.
pub data Outcome : Type 0 where
  finished : Settings → List Text → Outcome
  raised : Outcome

abbrev pub Findings : Type 0
Findings = Option (List (Suppressions × Report) × Suppressions)

abbrev restored : Settings → Settings
restored s = record s { state = restore_filters s.state }

unfoldable pub done_message : Text → Text
done_message filename = codes "Done processing " ++ filename ++ codes "\n"

unfoldable pub skipping_message : Text → Text
skipping_message filename =
    codes "Skipping input '" ++ filename ++ codes "': Can't open for reading\n"

unfoldable pub join_names : List Text → Text
join_names [] = []
join_names (n ∷ []) = n
join_names (n ∷ m ∷ ns) = n ++ codes ", " ++ join_names (m ∷ ns)

unfoldable pub ignoring_message : Text → List Text → Text
ignoring_message filename extensions =
    codes "Ignoring "
    ++ filename
    ++ codes "; not a valid file name ("
    ++ join_names extensions
    ++ codes ")\n"

report_all : Text → Endings → Findings → CppLintState → Option (CppLintState × List Text)
report_all filename e none s = none
report_all filename e (some (calls, sup)) s =
    then_errors (errors sup (mixed_reports filename e)) (errors_in_turn calls s)

finish : Text → List Text → Settings → Option (CppLintState × List Text) → Outcome
finish filename written s none = raised
finish filename written s (some (state, out)) =
    finished (restored (record s { state = state })) (written ++ out ++ done_message filename ∷ [])

module _ (find_errors : Settings → Text → Text → List Text → Findings) where
  -- a file whose lines are read
  unfoldable pub lint_lines : Text → List Text → Settings → List Text → Outcome
  unfolding finish report_all note_endings text_mem file_extension errors_in_turn mixed_reports
  lint_lines filename lines s written =
      let e = note_endings 1 lines in
      let extension = file_extension filename in
      if not (text_eq filename (codes "-")) && not (text_mem extension s.valid_extensions)
      then finished (restored s)
          (written ++ ignoring_message filename s.valid_extensions ∷ done_message filename ∷ [])
      else finish filename written s
          (report_all filename e (find_errors s filename extension e.lines) s.state)

  lint_text : Text → Option Text → Settings → List Text → Outcome
  lint_text filename none s written =
      finished (restored s) (written ++ skipping_message filename ∷ [])
  lint_text filename (some text) s written = lint_lines filename (split b'\n' text) s written

  module _ (read_file : Text → Option Text) where
    after_overrides : Text → Option Overridden → Outcome
    after_overrides filename none = raised
    after_overrides filename (some (proceed s written)) =
        lint_text filename (read_file filename) s written
    after_overrides filename (some (skip s written)) = finished (restored s) written
    after_overrides filename (some (pattern_raised p)) = raised
    after_overrides filename (some (filter_raised f)) = raised

    -- `ProcessFile`, from what `ProcessConfigOverrides` does to the settings
    unfoldable pub process_file :
        (Text → Settings → Option Overridden) → Text → ℤ → Settings → Outcome
    unfolding lint_lines lint_text after_overrides
    process_file overrides filename vlevel s =
        let state = backup_filters (set_verbose_level vlevel s.state).0 in
        after_overrides filename (overrides filename (record s { state = state }))

abbrev then_file : (Settings → Outcome) → Outcome → Outcome
then_file next raised = raised
then_file next (finished s written) = elim (next s) [
  | raised ↦ raised
  | finished t more ↦ finished t (written ++ more)
]

-- the loop of `main` over the files
unfoldable pub process_files : (Text → Settings → Outcome) → List Text → Settings → Outcome
process_files file [] s = finished s []
process_files file (filename ∷ filenames) s =
    then_file (process_files file filenames) (file filename s)

-- The exit status and what was written; the usage text and the list of categories are left out.
-- An uncaught exception ends the program with status 1.
conclude_main : Outcome → ℕ × List Text
conclude_main raised = (1, [])
conclude_main (finished s written) =
    ((if ltb 0 s.state.error_count then 1 else 0), written ++ print_error_counts s.state)

run_parsed : (Text → Settings → Outcome) → Parsed (List Text × Settings) → ℕ × List Text
run_parsed file (parsed (filenames, s)) =
    let state = reset_error_counts s.state in
    conclude_main (process_files file filenames (record s { state = state }))
run_parsed file (usage m) = (1, [])
run_parsed file categories = (0, [])
run_parsed file (uncaught t) = (1, [])

-- `main`, over `ProcessFile` without its parameters: `file filename vlevel settings`
unfoldable pub main : (Text → ℤ → Settings → Outcome) → List Text → Settings → ℕ × List Text
unfolding run_parsed conclude_main process_files parse_arguments
main process args s =
    run_parsed (λ filename t. process filename t.state.verbose_level t) (parse_arguments args s)
