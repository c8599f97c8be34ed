-- ===== src/Config/Run/Restore.antt =====
-- What a file leaves behind: the filters are those before, the line length and the root are not.
use dyod.Prelude.{
  ◌≤◌, Bool, not, ◌&&◌, Option, none, some, List, [], ◌∷◌, ◌≡◌, refl, sym, ap, subst, ◌∙◌, Text,
  codes, text_eq, text_mem, Bool-cases, inl, inr, ℤ,
}
use dyod.Report.{Report}
use dyod.Nolint.{Suppressions}
use dyod.LintState.{
  CppLintState, Result, ok, value_error, add_filters, error, errors, restore_filters,
  backup_filters, set_verbose_level,
}
use dyod.LintState.Grows.{
  Grows, Grows-refl, Grows-trans, Leaves, then-Leaves, errors-Leaves, error-Leaves,
  add_filters-Grows,
}
use dyod.Config.{Settings}
use dyod.Config.Overrides.{
  Overridden, proceed, skip, pattern_raised, filter_raised, add_all, process_config_overrides,
}
use dyod.Config.Overrides.Values.{Agrees, process_config_overrides-Agrees}
use dyod.Config.Run.{
  Endings, note_endings, file_extension, mixed_reports, errors_in_turn, Outcome, finished, raised,
  Findings, lint_lines, process_file, report_all, finish, lint_text, after_overrides, restored,
}

errors_in_turn-Leaves :
    (calls : List (Suppressions × Report)) (s : CppLintState) → Leaves s (errors_in_turn calls s)
unfolding errors_in_turn
errors_in_turn-Leaves [] s = Grows-refl s
errors_in_turn-Leaves ((sup, r) ∷ calls) s =
    then-Leaves s (errors_in_turn calls) (error sup r s) (errors_in_turn-Leaves calls)
      (error-Leaves sup r s)

ok_inj : {s t : CppLintState} → Result.ok s ≡ ok t → s ≡ t
ok_inj e = cc

add_all-Grows :
    (fs : List Text) (s : CppLintState) {t : CppLintState} → add_all fs s ≡ ok t → Grows s t
unfolding add_all
add_all-Grows [] s e = subst (Grows s) (ok_inj e) (Grows-refl s)
add_all-Grows (f ∷ fs) s {t} e = first (λ u k. add_all-Grows fs u k) (add_filters f s) refl e
  where
    first :
        ((u : CppLintState) → add_all fs u ≡ ok t → Grows u t)
        → (r : Result CppLintState) → add_filters f s ≡ r
        → elim r [ ok u ↦ add_all fs u | value_error v ↦ value_error v ] ≡ ok t
        → Grows s t
    first rest (ok u) h k = Grows-trans (add_filters-Grows f s h) (rest u k)
    first rest (value_error v) h k = absurd (cc k)

report_all-Leaves :
    (filename : Text) (e : Endings) (findings : Findings) (s : CppLintState)
    → Leaves s (report_all filename e findings s)
unfolding report_all
report_all-Leaves filename e none s = tt
report_all-Leaves filename e (some (calls, sup)) s =
    then-Leaves s (errors sup (mixed_reports filename e)) (errors_in_turn calls s)
      (errors-Leaves sup (mixed_reports filename e)) (errors_in_turn-Leaves calls s)

-- What the settings are behind a file that was linted with the settings `u`.
abbrev Follow : Settings → Outcome → Type 0
Follow u raised = Unit
Follow u (finished t written) =
    (t.state.filters ≡ u.state.filters_backup)
    × Grows u.state t.state
    × (t.line_length ≡ u.line_length)
    × (t.root ≡ u.root)
    × (t.valid_extensions ≡ u.valid_extensions)

restore-Grows : {s t : CppLintState} → Grows s t → Grows s (restore_filters t)
restore-Grows g = record {
  backup = g.backup;
  level = g.level;
  counting = g.counting;
  format = g.format;
  more = g.more;
}

finish-Follow :
    (filename : Text) (written : List Text) (u : Settings) (o : Option (CppLintState × List Text))
    → Leaves u.state o
    → Follow u (finish filename written u o)
unfolding finish
finish-Follow filename written u none h = tt
finish-Follow filename written u (some (t, out)) h = (h.backup, restore-Grows h, refl, refl, refl)

module _ (find_errors : Settings → Text → Text → List Text → Findings) where
  lint_lines-Follow :
      (filename : Text) (lines : List Text) (u : Settings) (written : List Text)
      → Follow u (lint_lines find_errors filename lines u written)
  unfolding lint_lines
  lint_lines-Follow filename lines u written =
      let e = note_endings 1 lines in
      let extension = file_extension filename in
      elim (Bool-cases
        (not (text_eq filename (codes "-")) && not (text_mem extension u.valid_extensions))) [
          | inl other ↦ rw other (refl, restore-Grows (Grows-refl u.state), refl, refl, refl)
          | inr fits ↦ rw fits (
              finish-Follow filename written u _
                (report_all-Leaves filename e (find_errors u filename extension e.lines) u.state))
        ]

  lint_text-Follow :
      (filename : Text) (text : Option Text) (u : Settings) (written : List Text)
      → Follow u (lint_text find_errors filename text u written)
  unfolding lint_text
  lint_text-Follow filename none u written =
      (refl, restore-Grows (Grows-refl u.state), refl, refl, refl)
  lint_text-Follow filename (some text) u written = lint_lines-Follow filename _ u written

-- What holds behind a file that does not end by an exception: `s` are the settings before.
abbrev pub Restored : Settings → ℤ → Outcome → Type 0
Restored s vlevel raised = Unit
Restored s vlevel (finished t written) =
    (t.state.filters ≡ s.state.filters)
    × (t.state.filters_backup ≡ s.state.filters)
    × (t.state.verbose_level ≡ vlevel)
    × (t.state.counting ≡ s.state.counting)
    × (t.state.output_format ≡ s.state.output_format)
    × (t.valid_extensions ≡ s.valid_extensions)
    × (s.state.error_count ≤ t.state.error_count)

-- the state in which `ProcessConfigOverrides` finds the settings
abbrev pub begun : Settings → ℤ → Settings
begun s vlevel =
    let state = backup_filters (set_verbose_level vlevel s.state).0 in record s { state = state }

Follow-Restored :
    (s u : Settings) (vlevel : ℤ) (o : Outcome)
    → Grows (begun s vlevel).state u.state
    → u.valid_extensions ≡ s.valid_extensions
    → Follow u o
    → Restored s vlevel o
Follow-Restored s u vlevel raised g x f = tt
Follow-Restored s u vlevel (finished t written) g x (filters, h, line_length, root, extensions) =
    let k = Grows-trans g h in
    (filters ∙ g.backup, k.backup, k.level, k.counting, k.format, extensions ∙ x, k.more)

module _ (find_errors : Settings → Text → Text → List Text → Findings)
    (read_file : Text → Option Text) where
  after_overrides-Restored :
      (filename : Text) (s : Settings) (vlevel : ℤ) (lines : List Text) (r : Overridden)
      → Agrees (begun s vlevel) lines r
      → Restored s vlevel (after_overrides find_errors read_file filename (some r))
  unfolding after_overrides
  after_overrides-Restored filename s vlevel lines (proceed u written) (_, _, added, x) =
      Follow-Restored s u vlevel _ (add_all-Grows _ (begun s vlevel).state added) x
        (lint_text-Follow find_errors filename (read_file filename) u written)
  after_overrides-Restored filename s vlevel lines (skip u written) (e, x) =
      Follow-Restored s u vlevel (finished (restored u) written)
        (subst (Grows (begun s vlevel).state) (sym e) (Grows-refl (begun s vlevel).state)) x
        (refl, restore-Grows (Grows-refl u.state), refl, refl, refl)
  after_overrides-Restored filename s vlevel lines (pattern_raised p) a = tt
  after_overrides-Restored filename s vlevel lines (filter_raised f) a = tt

  module _ (abspath : Text → Text) (isfile : Text → Bool) (read_config : Text → Option (List Text))
      (excludes : Text → Text → Option Bool) where
    -- Whatever the configuration files say, and whether the file is excluded, cannot be opened, has an
    -- extension that is not valid or is linted: where `ProcessFile` ends without an exception, the
    -- filters are those before it, the verbosity is the one that it is called with, the style of
    -- counting, the output format and the valid extensions are as before, and no counted error is
    -- forgotten.
    pub process_file-Restored :
        (filename : Text) (vlevel : ℤ) (s t : Settings) (written : List Text)
        → process_file find_errors read_file
            (process_config_overrides abspath isfile read_config excludes)
            filename
            vlevel
            s
          ≡ finished t written
        → (t.state.filters ≡ s.state.filters)
          × (t.state.filters_backup ≡ s.state.filters)
          × (t.state.verbose_level ≡ vlevel)
          × (t.state.counting ≡ s.state.counting)
          × (t.state.output_format ≡ s.state.output_format)
          × (t.valid_extensions ≡ s.valid_extensions)
          × (s.state.error_count ≤ t.state.error_count)
    unfolding process_file
    process_file-Restored filename vlevel s t written e =
        let (r, found, a) =
          process_config_overrides-Agrees abspath isfile read_config excludes filename
            (begun s vlevel) in
        subst (Restored s vlevel)
          (ap (after_overrides find_errors read_file filename) (sym found) ∙ e)
          (after_overrides-Restored filename s vlevel _ r a)
