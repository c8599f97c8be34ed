-- ===== src/Nolint/Laws.antt =====
-- What the NOLINT stores promise to `IsErrorSuppressedByNolint`.
use dyod.Prelude.{
  ℕ, ◌+◌, true, ◌||◌, ◌&&◌, Option, none, some, List, [], Text, ◌≡◌, ◌≢◌, refl, arith, text_eq,
  text_mem, ◌==◌, Bool-cases, Option-cases, inl, inr, codes, is_prefix, is_suffix, is_empty, All,
  ◌⊎◌, ap, ◌∙◌,
}
use dyod.Regex.{search, group, or_nil, Cursor}
use dyod.Report.{Report}
use dyod.Nolint.{
  Suppressions, nolint_pattern, suppress, suppress_category, parse_nolint_suppressions, key_eq,
  is_error_suppressed_by_nolint, suppressed_line, add_line, error_categories,
  legacy_error_categories,
}

-- One line added to the store is seen for its category, or for all of them, and for no other line.
add_line-suppressed :
    (key : Option Text) (line : ℕ) (s : Suppressions) (category : Text) (n : ℕ)
    → is_error_suppressed_by_nolint category n (add_line key line s) ≡ (
        is_error_suppressed_by_nolint category n s
        || (key_eq (some category) key || key_eq none key) && n == line)
unfolding is_error_suppressed_by_nolint
add_line-suppressed none line s category n = ground arith
add_line-suppressed (some k) line s category n = ground arith

-- the keys that may be stored: all categories, or a known one
abbrev pub IsKey : Option Text → Type 0
IsKey none = Unit
IsKey (some k) = text_mem k error_categories ≡ true

-- What one NOLINT comment can do: nothing, with or without a report, or one pair more.
data Outcome (s : Suppressions) (line : ℕ) (r : Suppressions × List Report) : Type 0 where
  same : r.0 ≡ s → Outcome s line r
  added : (key : Option Text) → IsKey key → r.0 ≡ add_line key line s → r.1 ≡ [] → Outcome s line r

suppress_category-Outcome :
    (filename : Text) (linenum line : ℕ) (category : Text) (s : Suppressions)
    → Outcome s line (suppress_category filename linenum line category s)
unfolding suppress_category
suppress_category-Outcome filename linenum line category s =
    elim (Bool-cases (text_mem category error_categories)) [
      | inl e ↦ rw e (added (some category) e refl refl)
      | inr e ↦ rw e (elim (Bool-cases (text_mem category legacy_error_categories)) [
        | inl l ↦ rw l (same refl)
        | inr l ↦ rw l (same refl)
      ])
    ]

suppress-Outcome :
    (filename : Text) (linenum line : ℕ) (key : Option Text) (s : Suppressions)
    → Outcome s line (suppress filename linenum line key s)
unfolding suppress
suppress-Outcome filename linenum line none s = added none tt refl refl
suppress-Outcome filename linenum line (some category) s =
    elim (Bool-cases (text_eq category (codes "(*)"))) [
      | inl e ↦ rw e (added none tt refl refl)
      | inr e ↦
          rw e
            (elim (Bool-cases (is_prefix (codes "(") category && is_suffix (codes ")") category)) [
              | inl b ↦ rw b (suppress_category-Outcome filename linenum line _ s)
              | inr b ↦ rw b (same refl)
            ])
    ]

parse_none :
    (filename raw_line : Text) (linenum : ℕ) (s : Suppressions)
    → search nolint_pattern raw_line ≡ none
    → parse_nolint_suppressions filename raw_line linenum s ≡ (s, [])
unfolding parse_nolint_suppressions
parse_none filename raw_line linenum s e = rw (e, parse_nolint_suppressions)

parse_some :
    (filename raw_line : Text) (linenum : ℕ) (s : Suppressions) {i : ℕ} {m : Cursor}
    → search nolint_pattern raw_line ≡ some (i, m)
    → parse_nolint_suppressions filename raw_line linenum s
      ≡ suppress filename linenum (suppressed_line linenum m) (group 2 m) s
unfolding parse_nolint_suppressions
parse_some filename raw_line linenum s e = rw (e, parse_nolint_suppressions)

suppressed_line_near :
    (linenum : ℕ) (m : Cursor)
    → (suppressed_line linenum m ≡ linenum) ⊎ (suppressed_line linenum m ≡ linenum + 1)
suppressed_line_near linenum m = elim (Bool-cases (is_empty (or_nil (group 1 m)))) [
  | inl e ↦ inl (rw e)
  | inr e ↦ inr (rw e)
]

-- The comment speaks of its own line or of the next one.
parse-Outcome :
    (filename raw_line : Text) (linenum : ℕ) (s : Suppressions)
    → (line : ℕ) × ((line ≡ linenum) ⊎ (line ≡ linenum + 1))
      × Outcome s line (parse_nolint_suppressions filename raw_line linenum s)
parse-Outcome filename raw_line linenum s = elim (Option-cases (search nolint_pattern raw_line)) [
  | inl e ↦ (linenum, inl refl, same (ap (λ r. r.0) (parse_none filename raw_line linenum s e)))
  | inr ((i, m), e) ↦ (
    suppressed_line linenum m,
    suppressed_line_near linenum m,
    rw (parse_some filename raw_line linenum s e)
        (suppress-Outcome filename linenum (suppressed_line linenum m) (group 2 m) s),
  )
]

Outcome-suppressed :
    {s : Suppressions} {line : ℕ} (r : Suppressions × List Report) (category : Text) (n : ℕ)
    → Outcome s line r
    → (is_error_suppressed_by_nolint category n s ≡ true
        → is_error_suppressed_by_nolint category n r.0 ≡ true)
      × (n ≢ line
          → is_error_suppressed_by_nolint category n r.0
            ≡ is_error_suppressed_by_nolint category n s)
Outcome-suppressed r category n (same e) = rw e ((λ h. h), λ h. refl)
Outcome-suppressed {s} {line} r category n (added key k e none_reported) =
    let now =
      ap (is_error_suppressed_by_nolint category n) e ∙ add_line-suppressed key line s category n in
    ((λ h. now ∙ rw h), λ h. ground arith)

-- A NOLINT comment never lifts a suppression, and changes nothing on lines other than its own and
-- the next one.
pub parse_nolint_suppressions-suppressed :
    (filename raw_line category : Text) (linenum n : ℕ) (s : Suppressions)
    → let t = (parse_nolint_suppressions filename raw_line linenum s).0 in
      (is_error_suppressed_by_nolint category n s ≡ true
        → is_error_suppressed_by_nolint category n t ≡ true)
      × (n ≢ linenum
          → n ≢ linenum + 1
          → is_error_suppressed_by_nolint category n t ≡ is_error_suppressed_by_nolint category n s)
parse_nolint_suppressions-suppressed filename raw_line category linenum n s =
    let (line, near, o) = parse-Outcome filename raw_line linenum s in
    let both =
      Outcome-suppressed (parse_nolint_suppressions filename raw_line linenum s) category n o in
    (both.0, λ p q. both.1 (ground arith))

abbrev pub KnownKeys : Suppressions → Type 0
KnownKeys s = All (λ p. IsKey p.0) s.lines
