-- ===== src/LintState.antt =====
-- cpplint.py: `_CppLintState`, the functions that forward to its one instance, and `Error`.
-- `--output` and `--counting` admit three words each, which are constructors here. What is written to stderr is returned as a list of lines.
pub mod Filters
pub mod Counts
pub mod Grows
pub mod Total
use dyod.Prelude.{
  ℕ, ◌+◌, Bool, true, false, not, ◌||◌, Option, none, some, List, [], ◌∷◌, ◌++◌, drop, is_empty,
  Text, codes, text_eq, is_prefix, before, split, strip, is_space, ltb, if◌then◌else◌, ℤ, pos,
  negsuc,
}
use dyod.Nolint.{Suppressions, is_error_suppressed_by_nolint, default_filters}
use dyod.Report.{Report, show}

pub data Counting : Type 0 where
  total toplevel detailed : Counting

pub data OutputFormat : Type 0 where
  emacs vs7 eclipse : OutputFormat

pub record CppLintState : Type 0 where
  pub verbose_level : ℤ
  pub error_count : ℕ
  pub filters : List Text
  pub filters_backup : List Text
  pub counting : Counting
  pub errors_by_category : List (Text × ℕ)
  pub output_format : OutputFormat

-- `__init__`
abbrev pub initial_state : CppLintState
initial_state = record {
  verbose_level = pos 1;
  error_count = 0;
  filters = default_filters;
  filters_backup = default_filters;
  counting = total;
  errors_by_category = [];
  output_format = emacs;
}

abbrev pub set_output_format : OutputFormat → CppLintState → CppLintState
set_output_format f s = record s { output_format = f }

-- the new state, and the level before
abbrev pub set_verbose_level : ℤ → CppLintState → CppLintState × ℤ
set_verbose_level level s = (record s { verbose_level = level }, s.verbose_level)

abbrev pub set_counting_style : Counting → CppLintState → CppLintState
set_counting_style c s = record s { counting = c }

-- A `ValueError` carries the filter that it complains of.
pub data Result {ℓ} (A : Type ℓ) : Type ℓ where
  ok : A → Result A
  value_error : Text → Result A

-- `filt.startswith('+') or filt.startswith('-')`
abbrev pub is_signed : Text → Bool
is_signed f = is_prefix (codes "+") f || is_prefix (codes "-") f

-- the pieces of a comma-separated list that are not blank
pub clean_filters : List Text → List Text
clean_filters [] = []
clean_filters (f ∷ fs) =
    let rest = clean_filters fs in
    if is_empty (strip is_space f) then rest else strip is_space f ∷ rest

pub check_filters : List Text → CppLintState → Result CppLintState
check_filters [] s = ok s
check_filters (f ∷ fs) s = if is_signed f then check_filters fs s else value_error f

unfoldable pub add_filters : Text → CppLintState → Result CppLintState
unfolding clean_filters check_filters
add_filters text s =
    let filters = s.filters ++ clean_filters (split b',' text) in
    check_filters filters (record s { filters = filters })

unfoldable pub set_filters : Text → CppLintState → Result CppLintState
unfolding add_filters
set_filters text s = add_filters text (record s { filters = default_filters })

abbrev pub backup_filters : CppLintState → CppLintState
backup_filters s = record s { filters_backup = s.filters }

abbrev pub restore_filters : CppLintState → CppLintState
restore_filters s = record s { filters = s.filters_backup }

abbrev pub reset_error_counts : CppLintState → CppLintState
reset_error_counts s = record s { error_count = 0; errors_by_category = [] }

-- `if c not in d: d[c] = 0` and then `d[c] += 1`
pub bump : Text → List (Text × ℕ) → List (Text × ℕ)
bump c [] = (c, 1) ∷ []
bump c ((d, n) ∷ m) = if text_eq c d then (d, n + 1) ∷ m else (d, n) ∷ bump c m

-- the key under which a category is counted, if it is
pub count_key : Counting → Text → Option Text
count_key total category = none
count_key toplevel category = some (before b'/' category)
count_key detailed category = some category

pub bump_key : Option Text → List (Text × ℕ) → List (Text × ℕ)
unfolding bump
bump_key none m = m
bump_key (some c) m = bump c m

unfoldable pub increment_error_count : Text → CppLintState → CppLintState
unfolding count_key bump_key
increment_error_count category s = record s {
  error_count = s.error_count + 1;
  errors_by_category = bump_key (count_key s.counting category) s.errors_by_category;
}

-- `confidence < verbose_level`
abbrev pub is_below : ℕ → ℤ → Bool
is_below confidence (pos level) = ltb confidence level
is_below confidence (negsuc level) = false

-- The loop over the filters; `none` is the failed `assert`.
pub filter_step : Text → Text → Bool → Option Bool
filter_step category f filtered =
    if is_prefix (codes "-") f
    then some (if is_prefix (drop 1 f) category then true else filtered)
    else if is_prefix (codes "+") f
    then some (if is_prefix (drop 1 f) category then false else filtered)
    else none

pub filter_loop : Text → List Text → Bool → Option Bool
unfolding filter_step
filter_loop category [] filtered = some filtered
filter_loop category (f ∷ fs) filtered = elim (filter_step category f filtered) [
  | none ↦ none
  | some filtered' ↦ filter_loop category fs filtered'
]

unfoldable pub should_print_error : Text → ℕ → ℕ → Suppressions → CppLintState → Option Bool
unfolding filter_loop
should_print_error category confidence linenum sup s =
    if is_error_suppressed_by_nolint category linenum sup
    then some false
    else if is_below confidence s.verbose_level
    then some false
    else elim (filter_loop category s.filters false) [
      | none ↦ none
      | some filtered ↦ some (not filtered)
    ]

-- the line that `Error` writes
unfoldable pub format_report : OutputFormat → Report → Text
format_report vs7 r =
    r.filename
    ++ codes "("
    ++ show r.linenum
    ++ codes "):  "
    ++ r.message
    ++ codes "  ["
    ++ r.category
    ++ codes "] ["
    ++ show r.confidence
    ++ codes "]\n"
format_report eclipse r =
    r.filename
    ++ codes ":"
    ++ show r.linenum
    ++ codes ": warning: "
    ++ r.message
    ++ codes "  ["
    ++ r.category
    ++ codes "] ["
    ++ show r.confidence
    ++ codes "]\n"
format_report emacs r =
    r.filename
    ++ codes ":"
    ++ show r.linenum
    ++ codes ":  "
    ++ r.message
    ++ codes "  ["
    ++ r.category
    ++ codes "] ["
    ++ show r.confidence
    ++ codes "]\n"

pub print_report : Bool → Report → CppLintState → CppLintState × List Text
print_report false r s = (s, [])
print_report true r s = (increment_error_count r.category s, format_report s.output_format r ∷ [])

-- `Error`: the state behind it and what it wrote; `none` is the failed `assert`.
unfoldable pub error : Suppressions → Report → CppLintState → Option (CppLintState × List Text)
unfolding print_report
error sup r s = elim (should_print_error r.category r.confidence r.linenum sup s) [
  | none ↦ none
  | some print ↦ some (print_report print r s)
]

-- what follows a call of `Error`
abbrev pub then_errors :
    (CppLintState → Option (CppLintState × List Text))
    → Option (CppLintState × List Text)
    → Option (CppLintState × List Text)
then_errors next none = none
then_errors next (some (s, out)) = elim (next s) [
  | none ↦ none
  | some (s', more) ↦ some (s', out ++ more)
]

-- a sequence of calls of `Error`, while the suppressions stay as they are
unfoldable pub errors :
    Suppressions → List Report → CppLintState → Option (CppLintState × List Text)
unfolding error
errors sup [] s = some (s, [])
errors sup (r ∷ rs) s = then_errors (errors sup rs) (error sup r s)

-- `PrintErrorCounts`
pub category_lines : List (Text × ℕ) → List Text
category_lines [] = []
category_lines ((c, n) ∷ m) =
    (codes "Category '" ++ c ++ codes "' errors found: " ++ show n ++ codes "\n") ∷ category_lines m

unfoldable pub print_error_counts : CppLintState → List Text
unfolding category_lines
print_error_counts s =
    category_lines s.errors_by_category
    ++ (codes "Total errors found: " ++ show s.error_count ++ codes "\n") ∷ []
