-- ===== src/Driver.antt =====
-- cpplint.py: `ProcessLine` and `ProcessFileData`. The three objects that keep the state of a file
-- and the suppressions are the fields of FileState. A step gives the calls of `Error`, each with the
-- suppressions in force; `none` is an exception or a loop that does not end. The checks on a single
-- line that the driver leaves open, each a function of the lines and the stack of blocks, are the
-- record OtherChecks: `CheckStyle` gets the suppressions as well, since CheckTrailingSemicolon below it
-- collects new ones. What the file system and the command line decide is the record Surroundings.
pub mod Total
pub mod Finish
use dyod.Prelude.{
  ℕ, zero, suc, Bool, Option, none, some, List, [], ◌∷◌, ◌++◌, map, Text, codes, get_elem?,
  is_empty, text_eq, if◌then◌else◌,
}
use dyod.Regex.{
  Re, Cursor, alts, at_start, finds, group_text, grp, lit, match, seqs, space, star, word_edge,
}
use dyod.Report.{Report}
use dyod.Nolint.{
  Suppressions, parse_nolint_suppressions, process_global_suppressions, reset_nolint_suppressions,
}
use dyod.Cleanse.{CleansedLines, cleanse_lines}
use dyod.Cleanse.Collapse.{include_line_pattern}
use dyod.Cleanse.MultiLine.{remove_multi_line_comments}
use dyod.FileChecks.{
  marked_lines, check_for_copyright, check_for_bad_characters, check_for_newline_at_eof,
  check_for_multiline_comments_and_strings,
}
use dyod.Files.{is_source_extension}
use dyod.FunctionState.{FunctionState, new_function_state}
use dyod.FunctionState.Lines.{check_for_function_lengths}
use dyod.HeaderGuard.{GuardAction, parse_nolint, log, header_guard_variable, check_for_header_guard}
use dyod.IncludeState.{IncludeState, new_include_state, reset_section}
use dyod.IncludeState.Line.{check_include_line}
use dyod.IncludeState.Own.{check_header_file_included}
use dyod.IncludeWhatYouUse.{check_for_include_what_you_use}
use dyod.Nesting.{BlockInfo, NestingState, new_nesting_state, in_asm_block}
use dyod.Nesting.Blocks.{check_completed_blocks}
use dyod.Nesting.Indentation.{check_for_namespace_indentation}
use dyod.Nesting.Update.{update}

pub record FileState : Type 0 where
  pub suppressions : Suppressions
  pub include_state : IncludeState
  pub function_state : FunctionState
  pub nesting_state : NestingState

-- `CheckStyle`, the rest of `CheckLanguage` behind the #include lines, and from
-- `CheckForNonConstReference` to `CheckRedundantOverrideOrFinal` with the extra checks. The extension
-- that some of them get is what follows the last dot of the file's name.
pub record OtherChecks : Type 0 where
  pub check_style :
      Text
      → CleansedLines
      → ℕ
      → NestingState
      → Suppressions
      → Suppressions × List (Suppressions × Report)
  pub check_language : Text → CleansedLines → ℕ → NestingState → List Report
  pub check_rest : Text → CleansedLines → ℕ → NestingState → List Report
  pub flag_cxx11_features : CleansedLines → ℕ → List Report

-- The file's name in its repository, that of its header, that which the header guard is made of, and
-- its full name; whether a file exists, and the lines of a header; the pattern of `--root`, the
-- verbosity, and whether two blocks are the same object.
pub record Surroundings : Type 0 where
  pub repository : Text
  pub header_repository : Text
  pub guard_repository : Text
  pub full_name : Text
  pub exists : Text → Bool
  pub read_lines : Text → Option (List Text)
  pub root : Option Re
  pub verbosity : ℕ
  pub same_object : BlockInfo → BlockInfo → Bool

abbrev pub Calls : Type 0
Calls = List (Suppressions × Report)

abbrev pub Step : Type 0
Step = FileState → Option (FileState × Calls)

abbrev pub add_calls : Calls → Option (FileState × Calls) → Option (FileState × Calls)
add_calls calls none = none
add_calls calls (some (s, later)) = some (s, calls ++ later)

abbrev pub and_then : Option (FileState × Calls) → Step → Option (FileState × Calls)
and_then none k = none
and_then (some (s, calls)) k = add_calls calls (k s)

infixl 5 ◌>>◌
abbrev pub ◌>>◌ : Step → Step → Step
◌>>◌ m k s = and_then (m s) k

-- calls of `Error`
abbrev pub called : Suppressions → List Report → Calls
called sup = map (λ r. (sup, r))

abbrev pub say : (FileState → List Report) → Step
say f s = some (s, called s.suppressions (f s))

abbrev with_suppressions : FileState → Suppressions × List Report → Option (FileState × Calls)
with_suppressions s (sup, reports) = some (record s { suppressions = sup }, called sup reports)

abbrev with_calls : FileState → Suppressions × Calls → Option (FileState × Calls)
with_calls s (sup, calls) = some (record s { suppressions = sup }, calls)

abbrev with_nesting : FileState → Option (NestingState × List Report) → Option (FileState × Calls)
with_nesting s none = none
with_nesting s (some (n, reports)) =
    some (record s { nesting_state = n }, called s.suppressions reports)

abbrev with_function : FileState → Option (FunctionState × List Report) → Option (FileState × Calls)
with_function s none = none
with_function s (some (f, reports)) =
    some (record s { function_state = f }, called s.suppressions reports)

abbrev with_include : FileState → Option (IncludeState × List Report) → Option (FileState × Calls)
with_include s none = none
with_include s (some (i, reports)) =
    some (record s { include_state = i }, called s.suppressions reports)

-- `^\s*#\s*(if|ifdef|ifndef|elif|else|endif)\b`
abbrev conditional_pattern : Re
conditional_pattern = seqs (
    at_start
    ∷ star space
    ∷ lit (codes "#")
    ∷ star space
    ∷ grp 1 (
        alts (
          lit (codes "if")
          ∷ lit (codes "ifdef")
          ∷ lit (codes "ifndef")
          ∷ lit (codes "elif")
          ∷ lit (codes "else")
          ∷ lit (codes "endif")
          ∷ []))
    ∷ word_edge
    ∷ [])

abbrev reset_at : Option Cursor → FileState → FileState
reset_at none s = s
reset_at (some m) s =
    let i = reset_section (group_text 1 m) s.include_state in record s { include_state = i }

module _ (filename : Text) where
  pub nolint_at : Option Text → ℕ → Step
  nolint_at none linenum s = none
  nolint_at (some line) linenum s =
      with_suppressions s (parse_nolint_suppressions filename line linenum s.suppressions)

  -- the actions of `CheckForHeaderGuard`
  unfoldable pub act : List GuardAction → Step
  unfolding nolint_at
  act [] s = some (s, [])
  act (parse_nolint line linenum ∷ actions) s = (nolint_at (some line) linenum >> act actions) s
  act (log r ∷ actions) s = (say (λ t. r ∷ []) >> act actions) s

  module _ (other : OtherChecks) (around : Surroundings) (c : CleansedLines) where
    abbrev multiline_at : Option Text → ℕ → Step
    multiline_at none linenum s = none
    multiline_at (some line) linenum s =
        say (λ t. check_for_multiline_comments_and_strings filename linenum line) s

    -- the line of `lines` is that which `CheckIncludeLine` looks at
    abbrev include_at : Option Text → ℕ → Step
    include_at none linenum s = none
    include_at (some line) linenum s =
        with_include s
          (check_include_line filename around.repository c.elided linenum line s.include_state)

    -- `CheckLanguage`
    unfoldable pub language_at : Option Text → ℕ → Step
    unfolding finds match
    language_at none linenum s = none
    language_at (some line) linenum s =
        if is_empty line
        then some (s, [])
        else if finds include_line_pattern line
        then include_at (get_elem? c.lines linenum) linenum s
        else say (λ t. other.check_language filename c linenum t.nesting_state)
            (reset_at (match conditional_pattern line) s)

    pub update_nesting : ℕ → Step
    update_nesting linenum s = with_nesting s (update filename c linenum s.nesting_state)

    pub function_lengths : ℕ → Step
    function_lengths linenum s =
        with_function s
          (check_for_function_lengths around.verbosity filename c.lines linenum s.function_state)

    -- `CheckStyle`, which collects the suppressions at the end of a block
    abbrev style : ℕ → Step
    style linenum s =
        with_calls s (other.check_style filename c linenum s.nesting_state s.suppressions)

    -- what follows the return in an assembly block
    unfoldable pub checks : ℕ → Step
    unfolding function_lengths language_at
    checks linenum =
        function_lengths linenum
        >> multiline_at (get_elem? c.elided linenum) linenum
        >> style linenum
        >> language_at (get_elem? c.elided linenum) linenum
        >> say (λ t. other.check_rest filename c linenum t.nesting_state)

    abbrev unless_asm : ℕ → Step
    unless_asm linenum s = if in_asm_block s.nesting_state then some (s, []) else checks linenum s

    -- `ProcessLine`
    unfoldable pub process_line : ℕ → Step
    unfolding nolint_at update_nesting checks
    process_line linenum =
        nolint_at (get_elem? c.raw_lines linenum) linenum
        >> update_nesting linenum
        >> say (λ t.
          check_for_namespace_indentation around.same_object filename c.elided linenum
            t.nesting_state)
        >> unless_asm linenum

    -- the loop over the lines, for as many lines from line `linenum` on
    unfoldable pub process_lines : ℕ → ℕ → Step
    unfolding process_line
    process_lines zero linenum s = some (s, [])
    process_lines (suc count) linenum s =
        (process_line linenum
            >> say (λ t. other.flag_cxx11_features c linenum)
            >> process_lines count (suc linenum))
          s

    abbrev header_guard : Text → List GuardAction
    header_guard file_extension =
        if text_eq file_extension (codes "h")
        then check_for_header_guard filename
            (header_guard_variable around.root around.guard_repository) c.lines_without_raw_strings
        else []

    -- the checks behind the loop, from `CheckCompletedBlocks` on
    abbrev last_reports : Text → List Text → FileState → List Report
    last_reports file_extension lines s =
        check_completed_blocks filename s.nesting_state
        ++ check_for_include_what_you_use around.read_lines around.repository around.full_name
            filename c.elided s.include_state.include_list
        ++ (if is_source_extension file_extension
            then check_header_file_included around.exists filename around.repository
                around.header_repository s.include_state
            else [])
        ++ check_for_bad_characters filename lines
        ++ check_for_newline_at_eof filename lines

    -- what follows the cleansing of the lines
    unfoldable pub process_cleansed : Text → List Text → Step
    unfolding act process_lines
    process_cleansed file_extension lines =
        act (header_guard file_extension)
        >> process_lines c.num_lines 0
        >> say (last_reports file_extension lines)

-- the objects of a new file
abbrev pub new_file_state : Suppressions → FileState
new_file_state sup = record {
  suppressions = sup;
  include_state = new_include_state;
  function_state = new_function_state;
  nesting_state = new_nesting_state;
}

module _ (other : OtherChecks) (around : Surroundings) (filename file_extension : Text) where
  with_cleansed : List Text → Option CleansedLines → Step
  with_cleansed lines none s = none
  with_cleansed lines (some c) s = process_cleansed filename other around c file_extension lines s

  -- `ProcessFileData`, after a file that has left the given suppressions
  unfoldable pub process_file_data : List Text → Suppressions → Option (FileState × Calls)
  unfolding with_cleansed process_cleansed
  process_file_data lines before =
      let marked = marked_lines lines in
      let reset = reset_nolint_suppressions before in
      let global = process_global_suppressions marked reset in
      let (cleaned, comment_reports) = remove_multi_line_comments filename marked in
      add_calls (called reset (check_for_copyright filename marked)) (
        (say (λ t. comment_reports) >> with_cleansed cleaned (cleanse_lines cleaned))
          (new_file_state global))
