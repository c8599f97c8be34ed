-- ===== src/LintState/Total.antt =====
-- `Error` does not fail its assertion over filters that start with a sign.
use dyod.Prelude.{Bool, true, false, Option, some, List, [], ◌∷◌, ◌≡◌, refl, Text}
use dyod.Report.{Report}
use dyod.Nolint.{Suppressions}
use dyod.LintState.{CppLintState, print_report, increment_error_count, error, errors, then_errors}
use dyod.LintState.Filters.{ValidFilters, should_print_error-verdict}

-- a state and a text, with the filters in order
abbrev pub Prints : Option (CppLintState × List Text) → Type 0
Prints o = (s : CppLintState) × (out : List Text) × (o ≡ some (s, out)) × ValidFilters s

print_report-ValidFilters :
    (b : Bool) (r : Report) (s : CppLintState)
    → ValidFilters s
    → ValidFilters (print_report b r s).0
unfolding print_report increment_error_count
print_report-ValidFilters false r s v = v
print_report-ValidFilters true r s v = record { current = v.current; backup = v.backup }

pub error-Prints :
    (sup : Suppressions) (r : Report) (s : CppLintState) → ValidFilters s → Prints (error sup r s)
unfolding error
error-Prints sup r s v =
    rw (should_print_error-verdict r.category r.confidence r.linenum sup s v, error)
      (_, _, refl, print_report-ValidFilters _ r s v)

pub then-Prints :
    (next : CppLintState → Option (CppLintState × List Text))
    (o : Option (CppLintState × List Text))
    → ((s : CppLintState) → ValidFilters s → Prints (next s))
    → Prints o
    → Prints (then_errors next o)
then-Prints next o h (s, out, e, v) =
    let (t, more, f, w) = h s v in rw e (rw (f, then_errors) (t, _, refl, w))

pub errors-Prints :
    (sup : Suppressions) (rs : List Report) (s : CppLintState)
    → ValidFilters s
    → Prints (errors sup rs s)
unfolding errors
errors-Prints sup [] s v = (s, [], refl, v)
errors-Prints sup (r ∷ rs) s v =
    then-Prints (errors sup rs) (error sup r s) (errors-Prints sup rs) (error-Prints sup r s v)
