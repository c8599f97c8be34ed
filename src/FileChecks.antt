-- ===== src/FileChecks.antt =====
-- cpplint.py: the checks on a whole file, `CheckForCopyright`, `CheckForBadCharacters` and
-- `CheckForNewlineAtEOF`, the lines that `ProcessFileData` puts around it for them, and
-- `CheckForMultilineCommentsAndStrings`, `IsBlankLine` and `GetPreviousNonBlankLine`.
pub mod Accepts
pub mod BlankLines
use mathlib.Core.List.{reverse}
use dyod.Prelude.{
  ℕ, suc, ◌-◌, ◌%◌, Bool, true, false, not, ◌||◌, Option, none, some, List, [], ◌∷◌, ◌++◌, map,
  Text, codes, all, any, char_mem, count, count_char, drop, find, get_or, is_empty,
  is_unicode_space, length, lower_char, ltb, replace, take, ◌==◌, if◌then◌else◌,
}
use dyod.Report.{Report, report}

-- the lines that `ProcessFileData` hands to the checks
abbrev pub start_marker : Text
start_marker = codes "// marker so line numbers and indices both start at 1"

abbrev pub end_marker : Text
end_marker = codes "// marker so line numbers end in a known way"

abbrev pub marked_lines : List Text → List Text
marked_lines lines = start_marker ∷ (lines ++ end_marker ∷ [])

abbrev is_some {ℓ} : {A : Type ℓ} → Option A → Bool
is_some none = false
is_some (some a) = true

-- `re.search(r'Copyright', line, re.I)`
unfoldable pub mentions_copyright : Text → Bool
mentions_copyright line = is_some (find (codes "copyright") (map lower_char line))

pub copyright_report : Text → Report
copyright_report filename = report filename 0 (codes "legal/copyright") 5 (
    codes "No copyright message found.  "
    ++ codes "You should have a line: \"Copyright [year] <Copyright Owner>\"")

-- the lines 1 to 10
unfoldable pub check_for_copyright : Text → List Text → List Report
check_for_copyright filename lines =
    if any mentions_copyright (take 10 (drop 1 lines)) then [] else copyright_report filename ∷ []

pub utf8_report : Text → ℕ → Report
utf8_report filename linenum =
    report filename linenum (codes "readability/utf8") 5
      (codes "Line contains invalid UTF-8 (or Unicode replacement character).")

pub nul_report : Text → ℕ → Report
nul_report filename linenum =
    report filename linenum (codes "readability/nul") 5 (codes "Line contains NUL byte.")

abbrev pub line_reports : Text → ℕ → Text → List Report
line_reports filename linenum line =
    (if char_mem 65533 line then utf8_report filename linenum ∷ [] else [])
    ++ (if char_mem 0 line then nul_report filename linenum ∷ [] else [])

-- the loop of `CheckForBadCharacters`, from line `linenum` on
unfoldable pub bad_characters : Text → ℕ → List Text → List Report
bad_characters filename linenum [] = []
bad_characters filename linenum (line ∷ lines) =
    line_reports filename linenum line ++ bad_characters filename (suc linenum) lines

abbrev pub check_for_bad_characters : Text → List Text → List Report
check_for_bad_characters filename lines = bad_characters filename 0 lines

pub newline_report : Text → ℕ → Report
newline_report filename linenum =
    report filename linenum (codes "whitespace/ending_newline") 5
      (codes "Could not find a newline character at the end of the file.")

-- There are two lines at least, those that `ProcessFileData` has added.
unfoldable pub check_for_newline_at_eof : Text → List Text → List Report
check_for_newline_at_eof filename lines =
    if ltb (length lines) 3 || not (is_empty (get_or lines (length lines - 2) []))
    then newline_report filename (length lines - 2) ∷ []
    else []

pub multiline_comment_report : Text → ℕ → Report
multiline_comment_report filename linenum =
    report filename linenum (codes "readability/multiline_comment") 5 (
      codes "Complex multi-line /*...*/-style comment found. "
      ++ codes "Lint may give bogus warnings.  "
      ++ codes "Consider replacing these with //-style comments, "
      ++ codes "with #if 0...#endif, "
      ++ codes "or with more clearly structured multi-line comments.")

pub multiline_string_report : Text → ℕ → Report
multiline_string_report filename linenum =
    report filename linenum (codes "readability/multiline_string") 5 (
      codes "Multi-line string (\"...\") found.  This lint script doesn't "
      ++ codes "do well with such strings, and may give bogus warnings.  "
      ++ codes "Use C++11 raw strings or concatenation instead.")

-- At a line of `elided`. There are no more escaped quotes than quotes.
unfoldable pub check_for_multiline_comments_and_strings : Text → ℕ → Text → List Report
check_for_multiline_comments_and_strings filename linenum elided_line =
    let line = replace (codes "\\\\") [] elided_line in
    (if ltb (count (codes "*/") line) (count (codes "/*") line)
      then multiline_comment_report filename linenum ∷ []
      else [])
    ++ (if (count_char b'"' line - count (codes "\\\"") line) % 2 == 0
        then []
        else multiline_string_report filename linenum ∷ [])

abbrev pub is_blank_line : Text → Bool
is_blank_line line = all is_unicode_space line

-- the loop of `GetPreviousNonBlankLine` over the lines in front, the nearest first
unfoldable pub previous_non_blank : List Text → Option (Text × ℕ)
previous_non_blank [] = none
previous_non_blank (line ∷ lines) =
    let earlier = previous_non_blank lines in
    if is_blank_line line then earlier else some (line, length lines)

-- `GetPreviousNonBlankLine`; `none` is the line number -1.
unfoldable pub get_previous_non_blank_line : List Text → ℕ → Option (Text × ℕ)
get_previous_non_blank_line elided linenum = previous_non_blank (reverse (take linenum elided))
