-- ===== src/Report.antt =====
-- What a check hands to the `error` function, and decimal printing.
use dyod.Prelude.{
  Option, none, some, List, ◌++◌, ℕ, zero, suc, ◌+◌, ◌/◌, ◌%◌, [], ◌∷◌, Text, ltb, if◌then◌else◌,
}

pub record Report : Type 0 where
  pub filename : Text
  pub linenum : ℕ
  pub category : Text
  pub confidence : ℕ
  pub message : Text

-- `error(filename, linenum, category, confidence, message)`
abbrev pub report : Text → ℕ → Text → ℕ → Text → Report
report filename linenum category confidence message = record {
  filename = filename;
  linenum = linenum;
  category = category;
  confidence = confidence;
  message = message;
}

-- `'%d' % n`: every round divides by ten, so that n + 1 rounds are enough.
show_onto : ℕ → ℕ → Text → Text
show_onto zero n acc = acc
show_onto (suc fuel) n acc =
    let digit = n % 10 + b'0' in
    let more = show_onto fuel (n / 10) (digit ∷ acc) in if ltb n 10 then digit ∷ acc else more

unfoldable pub show : ℕ → Text
unfolding show_onto
show n = show_onto (suc n) n []

-- reports in front of those of a result
abbrev pub add_reports {ℓ} :
    {A : Type ℓ} → List Report → Option (A × List Report) → Option (A × List Report)
add_reports reports none = none
add_reports reports (some (a, later)) = some (a, reports ++ later)
