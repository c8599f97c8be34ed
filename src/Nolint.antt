-- ===== src/Nolint.antt =====
-- cpplint.py: the stores of suppressed errors and the functions on them.
-- `_error_suppressions` maps a category, or `None` for all of them, to a set of lines. It is kept
-- as the list of its pairs. `_global_error_suppressions` is the list of the keys that map to True.
mod Categories
pub mod Laws
pub use Categories.*
use dyod.Prelude.{
  ℕ, ◌+◌, ◌-◌, Bool, true, false, ◌&&◌, ◌||◌, Option, none, some, List, [], ◌∷◌, ◌++◌, length, take,
  drop, is_empty, Text, codes, text_eq, text_mem, is_prefix, is_suffix, ◌==◌, if◌then◌else◌,
}
use dyod.Regex.{
  Re, alt, seq, star, grp, word_edge, at_end, lit, seqs, alts, none_of, opt, plus, space, dot,
  search, finds, group, or_nil, Cursor,
}
use dyod.Report.{Report}

pub record Suppressions : Type 0 where
  pub lines : List (Option Text × ℕ)
  pub global : List Text

-- `\bNOLINT(NEXTLINE)?\b(\([^)]+\))?`
abbrev pub nolint_pattern : Re
nolint_pattern = seqs (
    word_edge
    ∷ lit (codes "NOLINT")
    ∷ opt (grp 1 (lit (codes "NEXTLINE")))
    ∷ word_edge
    ∷ opt (grp 2 (seqs (lit (codes "(") ∷ plus (none_of (codes ")")) ∷ lit (codes ")") ∷ [])))
    ∷ [])

-- `_SEARCH_C_FILE`
abbrev pub search_c_file : Re
search_c_file = seq word_edge (
    alt (lit (codes "LINT_C_FILE")) (
      seqs (
        lit (codes "vi")
        ∷ opt (lit (codes "m"))
        ∷ lit (codes ":")
        ∷ star space
        ∷ star dot
        ∷ alt (star space) (lit (codes ":"))
        ∷ lit (codes "filetype=c")
        ∷ alts (star space ∷ lit (codes ":") ∷ at_end ∷ [])
        ∷ [])))

-- `_SEARCH_KERNEL_FILE`
abbrev pub search_kernel_file : Re
search_kernel_file = seq word_edge (lit (codes "LINT_KERNEL_FILE"))

abbrev add_line : Option Text → ℕ → Suppressions → Suppressions
add_line category line s = record s { lines = (category, line) ∷ s.lines }

-- the line that a NOLINT comment speaks of
abbrev suppressed_line : ℕ → Cursor → ℕ
suppressed_line linenum m = if is_empty (or_nil (group 1 m)) then linenum else linenum + 1

-- `category[1:-1]`
abbrev inner : Text → Text
inner t = drop 1 (take (length t - 1) t)

nolint_report : Text → ℕ → Text → Report
nolint_report filename linenum category = record {
  filename = filename;
  linenum = linenum;
  category = codes "readability/nolint";
  confidence = 5;
  message = codes "Unknown NOLINT error category: " ++ category;
}

pub suppress_category : Text → ℕ → ℕ → Text → Suppressions → Suppressions × List Report
unfolding nolint_report
suppress_category filename linenum line category s =
    if text_mem category error_categories
    then (add_line (some category) line s, [])
    else if text_mem category legacy_error_categories
    then (s, [])
    else (s, nolint_report filename linenum category ∷ [])

-- the branches on `matched.group(2)`
pub suppress : Text → ℕ → ℕ → Option Text → Suppressions → Suppressions × List Report
unfolding suppress_category
suppress filename linenum line none s = (add_line none line s, [])
suppress filename linenum line (some category) s =
    if text_eq category (codes "(*)")
    then (add_line none line s, [])
    else if is_prefix (codes "(") category && is_suffix (codes ")") category
    then suppress_category filename linenum line (inner category) s
    else (s, [])

unfoldable pub parse_nolint_suppressions :
    Text → Text → ℕ → Suppressions → Suppressions × List Report
unfolding suppress
parse_nolint_suppressions filename raw_line linenum s = elim (search nolint_pattern raw_line) [
  | none ↦ (s, [])
  | some (i, m) ↦ suppress filename linenum (suppressed_line linenum m) (group 2 m) s
]

-- `_global_error_suppressions[category] = True` for each category
abbrev add_global : List Text → Suppressions → Suppressions
add_global categories s = record s { global = categories ++ s.global }

unfoldable pub process_global_suppressions : List Text → Suppressions → Suppressions
process_global_suppressions [] s = s
process_global_suppressions (line ∷ lines) s =
    let s' = if finds search_c_file line then add_global default_c_suppressed_categories s else s in
    process_global_suppressions lines (
      if finds search_kernel_file line
      then add_global default_kernel_suppressed_categories s'
      else s')

-- `ResetNolintSuppressions`
abbrev pub reset_nolint_suppressions : Suppressions → Suppressions
reset_nolint_suppressions s = record { lines = []; global = [] }

key_eq : Option Text → Option Text → Bool
key_eq none none = true
key_eq (some a) (some b) = text_eq a b
key_eq _ _ = false

pub line_mem : Option Text → ℕ → List (Option Text × ℕ) → Bool
unfolding key_eq
line_mem k n [] = false
line_mem k n ((j, m) ∷ ls) = key_eq k j && n == m || line_mem k n ls

unfoldable pub is_error_suppressed_by_nolint : Text → ℕ → Suppressions → Bool
unfolding line_mem
is_error_suppressed_by_nolint category linenum s =
    text_mem category s.global
    || line_mem (some category) linenum s.lines
    || line_mem none linenum s.lines
