-- ===== src/LintState/Filters.antt =====
-- Filters: none that is stored lacks its sign, and the last one that fits a category decides.
use dyod.Prelude.{
  ℕ, Bool, true, false, not, ◌&&◌, Option, none, some, List, [], ◌∷◌, ◌≡◌, refl, arith, drop, all,
  Text, codes, is_prefix, if◌then◌else◌, Bool-cases, inl, inr,
}
use dyod.Nolint.{Suppressions, is_error_suppressed_by_nolint, default_filters}
use dyod.LintState.{
  CppLintState, Result, ok, value_error, is_signed, check_filters, add_filters, set_filters,
  filter_step, filter_loop, should_print_error, is_below,
}

-- every filter of the list starts with + or -
abbrev pub Signed : List Text → Type 0
Signed fs = all is_signed fs ≡ true

pub record ValidFilters (s : CppLintState) : Type 0 where
  pub current : Signed s.filters
  pub backup : Signed s.filters_backup

-- what the check of a list accepts, and what it complains of
abbrev pub Accepts : List Text → CppLintState → Result CppLintState → Type 0
Accepts fs s (ok t) = Signed fs × (t ≡ s)
Accepts fs s (value_error f) = is_signed f ≡ false

Accepts-cons :
    (f : Text) (fs : List Text) (s : CppLintState) (r : Result CppLintState)
    → is_signed f ≡ true
    → Accepts fs s r
    → Accepts (f ∷ fs) s r
Accepts-cons f fs s (ok t) e (h, k) = (rw e h, k)
Accepts-cons f fs s (value_error g) e h = h

check_filters-Accepts : (fs : List Text) (s : CppLintState) → Accepts fs s (check_filters fs s)
unfolding check_filters
check_filters-Accepts [] s = (refl, refl)
check_filters-Accepts (f ∷ fs) s = elim (Bool-cases (is_signed f)) [
  | inl e ↦ rw e (Accepts-cons f fs s (check_filters fs s) e (check_filters-Accepts fs s))
  | inr e ↦ rw e e
]

Accepts-ValidFilters :
    (fs : List Text) (s : CppLintState) {t : CppLintState} (r : Result CppLintState)
    → s.filters ≡ fs
    → Signed s.filters_backup
    → Accepts fs s r
    → r ≡ ok t
    → ValidFilters t
Accepts-ValidFilters fs s (ok u) e b (h, k) p = ground arith
Accepts-ValidFilters fs s (value_error g) e b h p = cc

pub add_filters-ValidFilters :
    (text : Text) (s : CppLintState) {t : CppLintState}
    → ValidFilters s
    → add_filters text s ≡ ok t
    → ValidFilters t
unfolding add_filters
add_filters-ValidFilters text s v e =
    Accepts-ValidFilters _ _ _ refl v.backup (check_filters-Accepts _ _) e

-- The filter that decides: the last one whose text is the start of the category.
pub deciding_filter : Text → List Text → Option Text
deciding_filter category [] = none
deciding_filter category (f ∷ fs) = elim (deciding_filter category fs) [
  | some g ↦ some g
  | none ↦ if is_prefix (drop 1 f) category then some f else none
]

abbrev pub verdict : Bool → Option Text → Bool
verdict filtered none = filtered
verdict filtered (some f) = is_prefix (codes "-") f

filter_loop-verdict :
    (category : Text) (fs : List Text) (filtered : Bool)
    → Signed fs
    → filter_loop category fs filtered ≡ some (verdict filtered (deciding_filter category fs))
unfolding filter_loop filter_step deciding_filter
filter_loop-verdict category [] filtered h = refl
filter_loop-verdict category (f ∷ fs) filtered h = ground (
  arith,
  filter_loop-verdict category fs filtered,
  filter_loop-verdict category fs true,
  filter_loop-verdict category fs false,
)

-- `SetFilters` drops what was set before, so that nothing is asked of it but a signed backup.
pub set_filters-ValidFilters :
    (text : Text) (s : CppLintState) {t : CppLintState}
    → Signed s.filters_backup
    → set_filters text s ≡ ok t
    → ValidFilters t
unfolding set_filters is_prefix
set_filters-ValidFilters text s b e =
    add_filters-ValidFilters text (record s { filters = default_filters })
      (record { current = refl; backup = b }) e

-- Over signed filters an error is printed exactly when no NOLINT suppresses it, its confidence
-- reaches the verbosity, and the last filter that fits its category, if there is one, does not
-- start with a minus; the assertion does not fail.
pub should_print_error-verdict :
    (category : Text) (confidence linenum : ℕ) (sup : Suppressions) (s : CppLintState)
    → ValidFilters s
    → should_print_error category confidence linenum sup s
      ≡ some (
          not (is_error_suppressed_by_nolint category linenum sup)
          && not (is_below confidence s.verbose_level)
          && not (verdict false (deciding_filter category s.filters)))
unfolding should_print_error
should_print_error-verdict category confidence linenum sup s v =
    ground (arith, filter_loop-verdict category s.filters false v.current)
