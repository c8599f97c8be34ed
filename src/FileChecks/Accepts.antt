-- ===== src/FileChecks/Accepts.antt =====
-- The files that the checks on a whole file accept.
use mathlib.Core.Option.{some-injective}
use dyod.Prelude.{
  ℕ, zero, suc, ◌-◌, ◌≤◌, ◌<◌, Bool, true, false, not, ◌||◌, some, List, [], ◌∷◌, ◌++◌, ◌≡◌, ◌↔◌,
  refl, sym, ap, ◌∙◌, arith, Text, codes, All, any, char_mem, drop, get_elem?, get_or, is_empty,
  length, length-append, ltb, take, if◌then◌else◌, Bool-cases, inl, inr,
}
use dyod.Report.{Report}
use dyod.FileChecks.{
  marked_lines, start_marker, end_marker, mentions_copyright, check_for_copyright, copyright_report,
  bad_characters, check_for_bad_characters, utf8_report, nul_report, newline_report,
  check_for_newline_at_eof,
}

-- no replacement character and no NUL
abbrev pub Clean : Text → Type 0
Clean line = (char_mem 65533 line ≡ false) × (char_mem 0 line ≡ false)

-- what is reported on a line
line_clean :
    (a b : Bool) (r s : Report) (rs : List Report)
    → (((if a then r ∷ [] else []) ++ (if b then s ∷ [] else [])) ++ rs ≡ [])
      ↔ (((a ≡ false) × (b ≡ false)) × (rs ≡ []))
line_clean a b r s rs = ground arith

bad_characters_iff :
    (filename : Text) (linenum : ℕ) (lines : List Text)
    → (bad_characters filename linenum lines ≡ []) ↔ All Clean lines
unfolding bad_characters
bad_characters_iff filename linenum [] = (λ e. tt, λ h. refl)
bad_characters_iff filename linenum (line ∷ lines) =
    let here =
      line_clean (char_mem 65533 line) (char_mem 0 line) (utf8_report filename linenum)
        (nul_report filename linenum) (bad_characters filename (suc linenum) lines) in
    let there = bad_characters_iff filename (suc linenum) lines in
    (λ e. ((here.0 e).0, there.0 (here.0 e).1), λ h. here.1 (h.0, there.1 h.1))

-- `CheckForBadCharacters` is silent on a file if and only if no line has a replacement character or
-- a NUL in it.
pub check_for_bad_characters_iff :
    (filename : Text) (lines : List Text)
    → (check_for_bad_characters filename lines ≡ []) ↔ All Clean lines
check_for_bad_characters_iff filename lines = bad_characters_iff filename 0 lines

-- the last line of a file, if it has one
abbrev EndsIn : List Text → Type 0
EndsIn lines = (front : List Text) × (lines ≡ front ++ [] ∷ [])

-- the last but one of the marked lines
last_line : List Text → Text → Text
last_line [] d = d
last_line (line ∷ lines) d = last_line lines line

marked-get_or :
    (d : Text) (lines : List Text) (e : Text)
    → get_or (d ∷ (lines ++ e ∷ [])) (length lines) [] ≡ last_line lines d
unfolding last_line
marked-get_or d [] e = refl
marked-get_or d (line ∷ lines) e = marked-get_or line lines e

single-EndsIn : (line : Text) → EndsIn (line ∷ []) → line ≡ []
single-EndsIn line ([], e) = ap (λ xs. get_or xs 0 (codes "x")) e
single-EndsIn line (x ∷ front, e) =
    absurd (omega (arith, ap (length {0}) e, length-append {0} front ([] ∷ [])))

cons-EndsIn :
    (line next : Text) (lines : List Text) → EndsIn (line ∷ next ∷ lines) ↔ EndsIn (next ∷ lines)
cons-EndsIn line next lines = (tail, λ h. (line ∷ h.0, ap (◌∷◌ line) h.1))
  where
    tail : EndsIn (line ∷ next ∷ lines) → EndsIn (next ∷ lines)
    tail ([], e) = absurd (omega (arith, ap (length {0}) e))
    tail (x ∷ front, e) = (front, ap (drop 1) e)

last_line-EndsIn :
    (line : Text) (lines : List Text) → (last_line lines line ≡ []) ↔ EndsIn (line ∷ lines)
unfolding last_line
last_line-EndsIn line [] = (λ e. ([], ap (λ x. x ∷ []) e), single-EndsIn line)
last_line-EndsIn line (next ∷ lines) =
    let later = last_line-EndsIn next lines in
    let cut = cons-EndsIn line next lines in (λ e. cut.1 (later.0 e), λ h. later.1 (cut.0 h))

length-marked : (lines : List Text) → length (marked_lines lines) ≡ suc (suc (length lines))
length-marked lines = omega (arith, length-append {0} lines (end_marker ∷ []))

empty_iff : (t : Text) → (is_empty t ≡ true) ↔ (t ≡ [])
empty_iff [] = (λ e. refl, λ e. refl)
empty_iff (c ∷ t) = ground arith

newline_verdict :
    (n : ℕ) (t : Text) (r : Report)
    → 3 ≤ n
    → ((if ltb n 3 || not (is_empty t) then r ∷ [] else []) ≡ []) ↔ (t ≡ [])
newline_verdict n [] r le = (λ e. refl, λ e. ground arith)
newline_verdict n (c ∷ t) r le = ground arith

-- `CheckForNewlineAtEOF` is silent on the marked lines of a file if and only if the last line of the
-- file is empty, that is, if the file, which was split at its newlines, ends with one.
pub check_for_newline_at_eof_iff :
    (filename : Text) (lines : List Text)
    → (check_for_newline_at_eof filename (marked_lines lines) ≡ []) ↔ EndsIn lines
unfolding check_for_newline_at_eof last_line
check_for_newline_at_eof_iff filename [] = (λ e. cc, none_empty)
  where
    none_empty : {A : Type 0} → EndsIn [] → A
    none_empty (front, e) =
        absurd (omega (arith, ap (length {0}) e, length-append {0} front ([] ∷ [])))
check_for_newline_at_eof_iff filename (line ∷ lines) =
    let marked = marked_lines (line ∷ lines) in
    let at : length marked - 2 ≡ length (line ∷ lines) =
      omega (arith, length-marked (line ∷ lines)) in
    let last =
      ap (λ i. get_or marked i []) at ∙ marked-get_or start_marker (line ∷ lines) end_marker in
    let verdict =
      newline_verdict (length marked) (get_or marked (length marked - 2) [])
        (newline_report filename (length marked - 2)) (omega (arith, length-marked lines)) in
    let ends = last_line-EndsIn line lines in
    (λ e. ends.0 (sym last ∙ verdict.0 e), λ h. verdict.1 (last ∙ ends.1 h))

or_true : (a : Bool) {b : Bool} → b ≡ true → (a || b) ≡ true
or_true true e = refl
or_true false e = e

any_iff :
    (p : Text → Bool) (n : ℕ) (lines : List Text)
    → (any p (take n lines) ≡ true)
      ↔ ((i : ℕ) × (line : Text) × (get_elem? lines i ≡ some line) × (i < n) × (p line ≡ true))
any_iff p n lines = (to n lines, λ h. from n lines h.0 h.2 h.3 h.4)
  where
    to :
        (n : ℕ) (lines : List Text)
        → any p (take n lines) ≡ true
        → (i : ℕ) × (line : Text) × (get_elem? lines i ≡ some line) × (i < n) × (p line ≡ true)
    to zero lines e = cc
    to (suc n) [] e = cc
    to (suc n) (line ∷ lines) e = elim (Bool-cases (p line)) [
      | inl h ↦ (0, line, refl, omega arith, h)
      | inr h ↦ let (i, l, at, lt, k) = to n lines (rw h at e) in (suc i, l, at, omega arith, k)
    ]

    from :
        (n : ℕ) (lines : List Text) (i : ℕ) {line : Text}
        → get_elem? lines i ≡ some line
        → i < n
        → p line ≡ true
        → any p (take n lines) ≡ true
    from zero lines i at lt h = absurd (omega arith)
    from (suc n) [] i at lt h = cc
    from (suc n) (line ∷ lines) zero at lt h = rw (ap p (some-injective _ _ at) ∙ h) refl
    from (suc n) (line ∷ lines) (suc i) at lt h =
        or_true (p line) (from n lines i at (omega arith) h)

silent_iff : (b : Bool) (r : Report) → ((if b then [] else r ∷ []) ≡ []) ↔ (b ≡ true)
silent_iff b r = ground arith

-- `CheckForCopyright` is silent if and only if one of the lines 1 to 10 mentions a copyright.
pub check_for_copyright_iff :
    (filename : Text) (lines : List Text)
    → (check_for_copyright filename lines ≡ []) ↔ (
        (i : ℕ) × (line : Text) × (get_elem? (drop 1 lines) i ≡ some line)
        × (i < 10)
        × (mentions_copyright line ≡ true))
unfolding check_for_copyright
check_for_copyright_iff filename lines =
    let silent =
      silent_iff (any mentions_copyright (take 10 (drop 1 lines))) (copyright_report filename) in
    let found = any_iff mentions_copyright 10 (drop 1 lines) in
    (λ e. found.0 (silent.0 e), λ h. silent.1 (found.1 h))
