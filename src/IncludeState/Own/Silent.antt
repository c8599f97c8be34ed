-- ===== src/IncludeState/Own/Silent.antt =====
-- When `CheckHeaderFileIncluded` is silent.
use dyod.Prelude.{
  ℕ, Bool, true, false, not, ◌||◌, Option, none, some, List, [], ◌∷◌, ◌≡◌, ◌↔◌, refl, sym, ◌∙◌,
  arith, Text, any, ◌==◌, if◌then◌else◌, Bool-cases, inl, inr,
}
use dyod.Regex.{finds}
use dyod.Report.{Report}
use dyod.Files.{base_name}
use dyod.Files.Modules.{test_file_suffix}
use dyod.IncludeState.{IncludeState}
use dyod.IncludeState.Own.{
  names_match, own_header, own_in_section, then_section, own_in_list, own_reports,
  check_header_file_included,
}

abbrev is_none : Option ℕ → Bool
is_none none = true
is_none (some n) = false

own_in_section-any :
    (h : Text) (n : ℕ) (fs : List (Text × ℕ))
    → is_none (own_in_section h n fs) ≡ any (names_match h) fs
unfolding own_in_section
own_in_section-any h n [] = refl
own_in_section-any h n (f ∷ fs) = elim (Bool-cases (names_match h f)) [
  | inl e ↦ rw e refl
  | inr e ↦ rw e (own_in_section-any h (if n == 0 then f.1 else n) fs)
]

then_section-any :
    (next : ℕ → Option ℕ) (o : Option ℕ) (here later : Bool)
    → is_none o ≡ here
    → ((n : ℕ) → is_none (next n) ≡ later)
    → is_none (then_section next o) ≡ (here || later)
then_section-any next none here later e f = rw (sym e) refl
then_section-any next (some n) here later e f = rw (sym e) (f n)

-- one of the headers of the lists has a name that fits
abbrev pub any_matches : Text → List (List (Text × ℕ)) → Bool
any_matches h lists = any (any (names_match h)) lists

own_in_list-any :
    (h : Text) (n : ℕ) (lists : List (List (Text × ℕ)))
    → is_none (own_in_list h n lists) ≡ any_matches h lists
unfolding own_in_list
own_in_list-any h n [] = refl
own_in_list-any h n (fs ∷ rest) =
    then_section-any (λ k. own_in_list h k rest) (own_in_section h n fs) _ _
      (own_in_section-any h n fs) (λ k. own_in_list-any h k rest)

own_reports_iff :
    (filename repository h : Text) (o : Option ℕ)
    → (own_reports filename repository h o ≡ []) ↔ (is_none o ≡ true)
own_reports_iff filename repository h none = (λ e. refl, λ e. refl)
own_reports_iff filename repository h (some n) = ground arith

silent_iff :
    (test there : Bool) (reports : List Report) {found : Bool}
    → (reports ≡ []) ↔ (found ≡ true)
    → ((if test then [] else if not there then [] else reports) ≡ [])
      ↔ ((test || (not there || found)) ≡ true)
silent_iff true there reports h = (λ e. refl, λ e. refl)
silent_iff false true reports h = h
silent_iff false false reports h = (λ e. refl, λ e. refl)

-- `CheckHeaderFileIncluded` is silent if and only if the file is a test, or there is no header of its
-- name, or one of the headers that it includes, in any of the lists, has a name that is part of the
-- header's or has it as a part.
pub check_header_file_included_iff :
    (exists : Text → Bool) (filename repository headername : Text) (s : IncludeState)
    → (check_header_file_included exists filename repository headername s ≡ []) ↔ (
        (finds test_file_suffix (base_name repository)
          || (not (exists (own_header repository filename))
              || any_matches headername s.include_list))
        ≡ true)
unfolding check_header_file_included
check_header_file_included_iff exists filename repository headername s =
    let listed = own_in_list-any headername 0 s.include_list in
    let reports =
      own_reports_iff filename repository headername (own_in_list headername 0 s.include_list) in
    silent_iff (finds test_file_suffix (base_name repository))
      (exists (own_header repository filename)) _
      (λ e. sym listed ∙ reports.0 e, λ e. reports.1 (listed ∙ e))
