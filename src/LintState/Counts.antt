-- ===== src/LintState/Counts.antt =====
-- Error statistics: the total, the counts by category and the lines written agree.
use dyod.Prelude.{
  ℕ, ◌+◌, Bool, true, false, Option, none, some, List, [], ◌∷◌, ◌++◌, ◌≡◌, ◌≢◌, refl, arith, length,
  length-append, Text, Option-cases, inl, inr,
}
use dyod.Nolint.{Suppressions}
use dyod.Report.{Report}
use dyod.LintState.{
  CppLintState, Counting, total, toplevel, detailed, bump, bump_key, count_key, reset_error_counts,
  increment_error_count, should_print_error, print_report, error, errors,
}

abbrev pub sum_counts : List (Text × ℕ) → ℕ
sum_counts [] = 0
sum_counts ((c, n) ∷ m) = n + sum_counts m

sum_counts-bump : (c : Text) (m : List (Text × ℕ)) → sum_counts (bump c m) ≡ sum_counts m + 1
unfolding bump
sum_counts-bump c [] = omega arith
sum_counts-bump c ((d, n) ∷ m) = ground (arith, sum_counts-bump c m)

-- Under `toplevel` and `detailed` the counts by category add up to the total.
abbrev pub Balanced : CppLintState → Type 0
Balanced s = s.counting ≢ total → sum_counts s.errors_by_category ≡ s.error_count

pub reset_error_counts-Balanced : (s : CppLintState) → Balanced (reset_error_counts s)
reset_error_counts-Balanced s h = refl

sum_counts-key :
    (k : Counting) (category : Text) (m : List (Text × ℕ))
    → k ≢ total
    → sum_counts (bump_key (count_key k category) m) ≡ sum_counts m + 1
unfolding count_key bump_key
sum_counts-key total category m h = absurd (h refl)
sum_counts-key toplevel category m h = sum_counts-bump _ m
sum_counts-key detailed category m h = sum_counts-bump _ m

increment_error_count-Balanced :
    (category : Text) (s : CppLintState) → Balanced s → Balanced (increment_error_count category s)
unfolding increment_error_count
increment_error_count-Balanced category s b h =
    omega (arith, sum_counts-key s.counting category s.errors_by_category h, b h)

-- what one step of reporting keeps: the balance, and a line for each error counted
abbrev Step : CppLintState → CppLintState × List Text → Type 0
Step s r = (Balanced s → Balanced r.0) × (r.0.error_count ≡ s.error_count + length r.1)

print_report-Step : (b : Bool) (r : Report) (s : CppLintState) → Step s (print_report b r s)
unfolding print_report
print_report-Step false r s = ((λ b. b), omega arith)
print_report-Step true r s =
    (increment_error_count-Balanced r.category s, unfold increment_error_count in omega arith)

abbrev After : CppLintState → Option (CppLintState × List Text) → Type 0
After s none = Unit
After s (some r) = Step s r

error-After : (sup : Suppressions) (r : Report) (s : CppLintState) → After s (error sup r s)
unfolding error
error-After sup r s =
    elim (Option-cases (should_print_error r.category r.confidence r.linenum sup s)) [
      | inl n ↦ rw (n, error) tt
      | inr (b, p) ↦ rw (p, error) (print_report-Step b r s)
    ]

Step-trans :
    (s t u : CppLintState) (out more : List Text)
    → Step s (t, out)
    → Step t (u, more)
    → Step s (u, out ++ more)
Step-trans s t u out more (f, p) (g, q) =
    ((λ b. g (f b)), omega (arith, length-append {0} out more))

-- the rest of a sequence, after its first call
errors_rest :
    (sup : Suppressions) (r : Report) (rs : List Report) (s t : CppLintState) (out : List Text)
    → error sup r s ≡ some (t, out)
    → Step s (t, out)
    → After t (errors sup rs t)
    → After s (errors sup (r ∷ rs) s)
unfolding errors
errors_rest sup r rs s t out e f g = elim (Option-cases (errors sup rs t)) [
  | inl n ↦ rw (e, errors, n) tt
  | inr ((u, more), p) ↦ rw (e, errors, p) (Step-trans s t u out more f (rw p at g))
]

errors-After :
    (sup : Suppressions) (rs : List Report) (s : CppLintState) → After s (errors sup rs s)
unfolding errors
errors-After sup [] s = ((λ b. b), omega arith)
errors-After sup (r ∷ rs) s = elim (Option-cases (error sup r s)) [
  | inl n ↦ rw (n, errors) tt
  | inr ((t, out), e) ↦
      errors_rest sup r rs s t out e (rw e at (error-After sup r s)) (errors-After sup rs t)
]

-- Whatever is reported, the total grows by the number of lines written, and under `toplevel` and
-- `detailed` the counts by category go on adding up to the total.
pub errors-Balanced :
    (sup : Suppressions) (rs : List Report) (s : CppLintState) {t : CppLintState} {out : List Text}
    → errors sup rs s ≡ some (t, out)
    → Balanced s
    → Balanced t × (t.error_count ≡ s.error_count + length out)
errors-Balanced sup rs s e b = let step = rw e at (errors-After sup rs s) in (step.0 b, step.1)
