-- ===== src/LintState/Grows.antt =====
-- What an error and a filter leave of the state: no error is forgotten.
use dyod.Prelude.{
  ◌≤◌, Bool, true, false, Option, none, some, List, [], ◌∷◌, ◌++◌, ◌≡◌, refl, ◌∙◌, arith, Text,
  Bool-cases, Option-cases, inl, inr, split,
}
use dyod.Report.{Report}
use dyod.Nolint.{Suppressions}
use dyod.LintState.{
  CppLintState, ok, is_signed, check_filters, add_filters, clean_filters, should_print_error,
  print_report, increment_error_count, error, errors, then_errors,
}

-- all of the state but its filters and the counts of errors, and no error is forgotten
pub record Grows (s t : CppLintState) : Type 0 where
  pub backup : t.filters_backup ≡ s.filters_backup
  pub level : t.verbose_level ≡ s.verbose_level
  pub counting : t.counting ≡ s.counting
  pub format : t.output_format ≡ s.output_format
  pub more : s.error_count ≤ t.error_count

pub Grows-refl : (s : CppLintState) → Grows s s
Grows-refl s = record {
  backup = refl;
  level = refl;
  counting = refl;
  format = refl;
  more = omega arith;
}

pub Grows-trans : {s t u : CppLintState} → Grows s t → Grows t u → Grows s u
Grows-trans g h = record {
  backup = h.backup ∙ g.backup;
  level = h.level ∙ g.level;
  counting = h.counting ∙ g.counting;
  format = h.format ∙ g.format;
  more = omega (arith, g.more, h.more);
}

-- what is said of the state in a result with text, where there is one
abbrev pub Leaves : CppLintState → Option (CppLintState × List Text) → Type 0
Leaves s none = Unit
Leaves s (some (t, out)) = Grows s t

print_report-Grows : (b : Bool) (r : Report) (s : CppLintState) → Grows s (print_report b r s).0
unfolding print_report increment_error_count
print_report-Grows false r s = Grows-refl s
print_report-Grows true r s = record {
  backup = refl;
  level = refl;
  counting = refl;
  format = refl;
  more = omega arith;
}

pub error-Leaves : (sup : Suppressions) (r : Report) (s : CppLintState) → Leaves s (error sup r s)
unfolding error
error-Leaves sup r s =
    elim (Option-cases (should_print_error r.category r.confidence r.linenum sup s)) [
      | inl n ↦ rw (n, error) tt
      | inr (b, p) ↦ rw (p, error) (print_report-Grows b r s)
    ]

pub then-Leaves :
    (s : CppLintState) (next : CppLintState → Option (CppLintState × List Text))
    (o : Option (CppLintState × List Text))
    → ((t : CppLintState) → Leaves t (next t))
    → Leaves s o
    → Leaves s (then_errors next o)
then-Leaves s next none h g = tt
then-Leaves s next (some (t, out)) h g = after (next t) (h t)
  where
    after :
        (o : Option (CppLintState × List Text))
        → Leaves t o
        → Leaves s (elim o [ none ↦ none | some (t', more) ↦ some (t', out ++ more) ])
    after none k = tt
    after (some (u, more)) k = Grows-trans g k

pub errors-Leaves :
    (sup : Suppressions) (rs : List Report) (s : CppLintState) → Leaves s (errors sup rs s)
unfolding errors
errors-Leaves sup [] s = Grows-refl s
errors-Leaves sup (r ∷ rs) s =
    then-Leaves s (errors sup rs) (error sup r s) (errors-Leaves sup rs) (error-Leaves sup r s)

check_filters-same :
    (fs : List Text) (s : CppLintState) {t : CppLintState} → check_filters fs s ≡ ok t → t ≡ s
unfolding check_filters
check_filters-same [] s e = cc
check_filters-same (f ∷ fs) s e = elim (Bool-cases (is_signed f)) [
  | inl signed ↦ check_filters-same fs s (rw signed at e)
  | inr bare ↦ absurd (cc (rw bare at e))
]

pub add_filters-Grows :
    (text : Text) (s : CppLintState) {t : CppLintState} → add_filters text s ≡ ok t → Grows s t
unfolding add_filters
add_filters-Grows text s {t} e =
    let longer : CppLintState = record s {
      filters = s.filters ++ clean_filters (split b',' text);
    } in
    rw (check_filters-same longer.filters longer e)
      (record { backup = refl; level = refl; counting = refl; format = refl; more = omega arith })
