-- ===== src/Config/Run/Finish.antt =====
-- When `ProcessFile` does not end by an exception, over a `ProcessFileData` that does not.
use dyod.Prelude.{
  Bool, true, false, not, ◌&&◌, Option, none, some, List, [], ◌∷◌, ◌≡◌, refl, sym, ◌∙◌, subst, Text,
  codes, ℤ, text_eq, text_mem, if_both,
}
use dyod.Report.{Report}
use dyod.Nolint.{Suppressions}
use dyod.LintState.{CppLintState, Result, ok, value_error, errors, add_filters}
use dyod.LintState.Filters.{ValidFilters, add_filters-ValidFilters}
use dyod.LintState.Total.{Prints, error-Prints, errors-Prints, then-Prints}
use dyod.Config.{Settings}
use dyod.Config.Overrides.{
  Overridden, proceed, skip, pattern_raised, filter_raised, add_all, process_config_overrides,
}
use dyod.Config.Overrides.Values.{Agrees, process_config_overrides-Agrees}
use dyod.Config.Run.{
  Endings, Findings, Outcome, finished, note_endings, file_extension, mixed_reports, errors_in_turn,
  report_all, finish, lint_lines, lint_text, after_overrides, process_file, restored,
}
use dyod.Config.Run.Restore.{begun}

-- an end without an exception, with the filters in order
abbrev pub Finishes : Outcome → Type 0
Finishes o =
    (t : Settings) × (written : List Text) × (o ≡ finished t written) × ValidFilters t.state

-- whether the configuration files raise no exception
abbrev pub goes_on : Overridden → Bool
goes_on (proceed s written) = true
goes_on (skip s written) = true
goes_on (pattern_raised p) = false
goes_on (filter_raised f) = false

errors_in_turn-Prints :
    (calls : List (Suppressions × Report)) (s : CppLintState)
    → ValidFilters s
    → Prints (errors_in_turn calls s)
unfolding errors_in_turn
errors_in_turn-Prints [] s v = (s, [], refl, v)
errors_in_turn-Prints ((sup, r) ∷ calls) s v =
    then-Prints (errors_in_turn calls) _ (errors_in_turn-Prints calls) (error-Prints sup r s v)

add_all-ValidFilters :
    (fs : List Text) (s : CppLintState) {t : CppLintState}
    → ValidFilters s
    → add_all fs s ≡ ok t
    → ValidFilters t
unfolding add_all
add_all-ValidFilters [] s v e = subst ValidFilters (ok_inj e) v
  where
    ok_inj : {s t : CppLintState} → Result.ok s ≡ ok t → s ≡ t
    ok_inj e = cc
add_all-ValidFilters (f ∷ fs) s {t} v e =
    first (λ u w k. add_all-ValidFilters fs u w k) (add_filters f s) refl e
  where
    first :
        ((u : CppLintState) → ValidFilters u → add_all fs u ≡ ok t → ValidFilters t)
        → (r : Result CppLintState) → add_filters f s ≡ r
        → elim r [ ok u ↦ add_all fs u | value_error g ↦ value_error g ] ≡ ok t
        → ValidFilters t
    first rest (ok u) h k = rest u (add_filters-ValidFilters f s v h) k
    first rest (value_error g) h k = absurd (cc k)

finishes :
    (s : Settings) (written : List Text)
    → ValidFilters s.state
    → Finishes (finished (restored s) written)
finishes s written v = (_, _, refl, record { current = v.backup; backup = v.backup })

finish-Finishes :
    (filename : Text) (written : List Text) (s : Settings) (o : Option (CppLintState × List Text))
    → Prints o
    → Finishes (finish filename written s o)
unfolding finish
finish-Finishes filename written s o (t, out, e, v) =
    rw (e, finish) (finishes (record s { state = t }) _ v)

module _ (find_errors : Settings → Text → Text → List Text → Findings) where
  abbrev pub Answers : Type 0
  Answers =
      (s : Settings) (filename extension : Text) (lines : List Text)
      → (calls : List (Suppressions × Report)) × (sup : Suppressions) × (find_errors s filename
            extension lines
          ≡ some (calls, sup))

  report_all-Prints :
      (filename : Text) (e : Endings) (calls : List (Suppressions × Report)) (sup : Suppressions)
      (s : CppLintState)
      → ValidFilters s
      → Prints (report_all filename e (some (calls, sup)) s)
  unfolding report_all
  report_all-Prints filename e calls sup s v =
      then-Prints (errors sup (mixed_reports filename e)) (errors_in_turn calls s)
        (errors-Prints sup (mixed_reports filename e)) (errors_in_turn-Prints calls s v)

  module _ (answers : Answers) where
    lint_lines-Finishes :
        (filename : Text) (lines : List Text) (s : Settings) (written : List Text)
        → ValidFilters s.state
        → Finishes (lint_lines find_errors filename lines s written)
    unfolding lint_lines
    lint_lines-Finishes filename lines s written v =
        let e = note_endings 1 lines in
        let extension = file_extension filename in
        let (calls, sup, f) = answers s filename extension e.lines in
        if_both Finishes
          (not (text_eq filename (codes "-")) && not (text_mem extension s.valid_extensions))
          (finishes s _ v)
          (rw f (
            finish-Finishes filename written s _
              (report_all-Prints filename e calls sup s.state v)))

    lint_text-Finishes :
        (filename : Text) (text : Option Text) (s : Settings) (written : List Text)
        → ValidFilters s.state
        → Finishes (lint_text find_errors filename text s written)
    unfolding lint_text
    lint_text-Finishes filename none s written v = finishes s _ v
    lint_text-Finishes filename (some text) s written v = lint_lines-Finishes filename _ s written v

    module _ (read_file : Text → Option Text) where
      after_overrides-Finishes :
          (filename : Text) (s : Settings) (lines : List Text) (r : Overridden)
          → ValidFilters s.state
          → Agrees s lines r
          → goes_on r ≡ true
          → Finishes (after_overrides find_errors read_file filename (some r))
      unfolding after_overrides
      after_overrides-Finishes filename s lines (proceed u written) v (_, _, added, _) h =
          lint_text-Finishes filename (read_file filename) u written
            (add_all-ValidFilters _ s.state v added)
      after_overrides-Finishes filename s lines (skip u written) v (e, _) h =
          finishes u written (subst ValidFilters (sym e) v)
      after_overrides-Finishes filename s lines (pattern_raised p) v a h = absurd (cc h)
      after_overrides-Finishes filename s lines (filter_raised f) v a h = absurd (cc h)

      pub process_file-Finishes :
          (abspath : Text → Text) (isfile : Text → Bool) (read_config : Text → Option (List Text))
          (excludes : Text → Text → Option Bool) (filename : Text) (vlevel : ℤ) (s : Settings)
          (r : Overridden)
          → ValidFilters s.state
          → process_config_overrides abspath isfile read_config excludes filename (begun s vlevel)
            ≡ some r
          → goes_on r ≡ true
          → Finishes (
              process_file find_errors read_file
                (process_config_overrides abspath isfile read_config excludes)
                filename
                vlevel
                s)
      unfolding process_file
      process_file-Finishes abspath isfile read_config excludes filename vlevel s r v found h =
          let (q, found', a) =
            process_config_overrides-Agrees abspath isfile read_config excludes filename
              (begun s vlevel) in
          rw found (
            after_overrides-Finishes filename (begun s vlevel) _ r
              (record { current = v.current; backup = v.current })
              (subst (Agrees (begun s vlevel) _) (some_inj (sym found' ∙ found)) a) h)
        where
          some_inj : {q r : Overridden} → Option.some q ≡ some r → q ≡ r
          some_inj e = cc
