-- ===== src/FunctionState/Length.antt =====
-- When `Check` complains of a function, and how loudly.
use native.Mathlib.Nat.{pow-succ', one-le-pow, le-div_iff_mul-le, mul_comm}
use dyod.Prelude.{
  ℕ, zero, suc, ◌*◌, ◌/◌, ◌^◌, ◌≤◌, ◌<◌, true, List, [], ◌≡◌, ◌≢◌, ◌↔◌, refl, arith, All, Text, ltb,
  if_cases, not, ltb→lt,
}
use dyod.Report.{Report}
use dyod.FunctionState.{
  FunctionState, base_trigger, log2, log2_fuel, check, error_level, length_report,
}

-- A number that is not below a power of two has no smaller logarithm.
le-log2_fuel : (fuel v n : ℕ) → n ≤ fuel → 2 ^ v ≤ n → v ≤ log2_fuel fuel n
unfolding log2_fuel
le-log2_fuel zero v n h p = absurd (omega (arith, one-le-pow v 2))
le-log2_fuel (suc fuel) zero n h p = omega arith
le-log2_fuel (suc fuel) (suc v) n h p =
    ground (arith, le-log2_fuel fuel v (n / 2), pow-succ' 2 v, one-le-pow v 2)

base_trigger_pos : (name : Text) → 0 < base_trigger name
base_trigger_pos name = ground arith

le-error_level :
    (v lines base : ℕ)
    → v ≤ 5
    → 0 < base
    → base * 2 ^ v < lines
    → (v ≤ error_level lines base) × (error_level lines base ≤ 5)
unfolding log2
le-error_level v lines base h pos long =
    let enough =
      le-log2_fuel (lines / base) v (lines / base) (omega arith)
        ((le-div_iff_mul-le pos).1 (omega (arith, mul_comm base (2 ^ v)))) in
    ground arith

length_report-confidence :
    (filename : Text) (linenum : ℕ) (s : FunctionState) (base trigger : ℕ)
    → (length_report filename linenum s base trigger).confidence
      ≡ error_level s.lines_in_function base
unfolding length_report
length_report-confidence filename linenum s base trigger = refl

-- `Check` reports a function exactly if its lines exceed the trigger of the verbosity, and up to
-- verbosity 5 the report's confidence is at least the verbosity and at most 5, so that it is not
-- the verbosity that silences it.
pub check_confidence :
    (verbose : ℕ) (filename : Text) (linenum : ℕ) (s : FunctionState)
    → verbose ≤ 5
    → ((check verbose filename linenum s ≢ []) ↔ (
        (s.in_a_function ≡ true)
        × (base_trigger s.current_function * 2 ^ verbose < s.lines_in_function)))
      × All (λ r. (verbose ≤ r.confidence) × (r.confidence ≤ 5)) (check verbose filename linenum s)
unfolding check
check_confidence verbose filename linenum s h =
    let base = base_trigger s.current_function in
    let P = λ (rs : List Report).
      ((rs ≢ []) ↔ ((s.in_a_function ≡ true) × (base * 2 ^ verbose < s.lines_in_function)))
      × All (λ r. (verbose ≤ r.confidence) × (r.confidence ≤ 5)) rs in
    if_cases P (not s.in_a_function) (λ out. ((λ p. absurd (p refl), λ p. ground arith), tt))
      (λ inside.
        if_cases P (ltb (base * 2 ^ verbose) s.lines_in_function)
          (λ long.
            let bounds =
              le-error_level verbose s.lines_in_function base h
                (base_trigger_pos s.current_function) (ltb→lt _ _ long) in
            (
              (λ p. (ground arith, ltb→lt _ _ long), λ p e. cc),
              (rw length_report-confidence bounds, tt),
            ))
          (λ short. ((λ p. absurd (p refl), λ p. ground arith), tt)))
