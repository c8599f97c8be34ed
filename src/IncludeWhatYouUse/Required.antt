-- ===== src/IncludeWhatYouUse/Required.antt =====
-- Which headers the lines of a file need, and for what.
use dyod.Prelude.{
  ℕ, suc, Bool, Option, none, some, List, [], ◌∷◌, ◌++◌, ◌≡◌, refl, sym, ap, ◌∙◌, arith, Text,
  codes, char_mem, text_eq, text_eq_iff, if◌then◌else◌, Bool-cases, inl, inr,
}
use dyod.Regex.{Re, finds, search}
use dyod.IncludeWhatYouUse.Headers.{
  Entry, string_pattern, patterns_maybe_templates, patterns_templates,
}
use dyod.IncludeWhatYouUse.{
  Requirements, lookup, insert, in_std, require, maybe_loop, template_loop, is_skipped,
  require_line, require_lines,
}

-- what a line needs for the entries that pass a test, in their order
pub needs_for : (Re → Bool) → ℕ → List Entry → Requirements
needs_for test linenum [] = []
needs_for test linenum ((pattern, template, header) ∷ entries) =
    if test pattern
    then (header, (linenum, template)) ∷ needs_for test linenum entries
    else needs_for test linenum entries

abbrev std_needs : ℕ → Text → List Entry → Requirements
std_needs linenum line = needs_for (λ pattern. in_std line (search pattern line)) linenum

abbrev string_needs : ℕ → Text → Requirements
string_needs linenum line =
    std_needs linenum line ((string_pattern, codes "string", codes "<string>") ∷ [])

-- the entries at which a line is looked at: those of `string` and of the template classes are
-- passed over in name spaces other than `std`
pub line_needs : ℕ → Text → Requirements
line_needs linenum line =
    let maybe = needs_for (λ pattern. finds pattern line) linenum patterns_maybe_templates in
    let templates = std_needs linenum line patterns_templates in
    if is_skipped line
    then []
    else string_needs linenum line ++ (maybe ++ (if char_mem b'<' line then templates else []))

pub needs : ℕ → List Text → Requirements
needs linenum [] = []
needs linenum (line ∷ lines) = line_needs linenum line ++ needs (suc linenum) lines

-- the last need of a header in the list, or else what is at hand
pub last_need : Text → Requirements → Option (ℕ × Text) → Option (ℕ × Text)
last_need header [] before = before
last_need header ((h, need) ∷ needs) before =
    last_need header needs (if text_eq header h then some need else before)

unfoldable pub insert_needs : Requirements → Requirements → Requirements
insert_needs [] m = m
insert_needs ((h, need) ∷ needs) m = insert_needs needs (insert h need m)

insert_needs-append :
    (xs ys m : Requirements) → insert_needs (xs ++ ys) m ≡ insert_needs ys (insert_needs xs m)
unfolding insert_needs
insert_needs-append [] ys m = refl
insert_needs-append ((h, need) ∷ xs) ys m = insert_needs-append xs ys (insert h need m)

module _ (linenum : ℕ) (line : Text) where
  maybe_loop-needs :
      (entries : List Entry) (m : Requirements)
      → maybe_loop linenum line entries m
        ≡ insert_needs (needs_for (λ pattern. finds pattern line) linenum entries) m
  unfolding maybe_loop needs_for insert_needs
  maybe_loop-needs [] m = refl
  maybe_loop-needs ((pattern, template, header) ∷ entries) m =
      elim (Bool-cases (finds pattern line)) [
        | inl e ↦ rw e (maybe_loop-needs entries _)
        | inr e ↦ rw e (maybe_loop-needs entries m)
      ]

  template_loop-needs :
      (entries : List Entry) (m : Requirements)
      → template_loop linenum line entries m
        ≡ insert_needs (needs_for (λ pattern. in_std line (search pattern line)) linenum entries) m
  unfolding template_loop needs_for insert_needs
  template_loop-needs [] m = refl
  template_loop-needs ((pattern, template, header) ∷ entries) m =
      elim (Bool-cases (in_std line (search pattern line))) [
        | inl e ↦ rw e (template_loop-needs entries _)
        | inr e ↦ rw e (template_loop-needs entries m)
      ]

  -- the needs of the three steps, one behind the other
  steps-needs :
      (strings maybe templates m : Requirements)
      → insert_needs templates (insert_needs maybe (insert_needs strings m))
        ≡ insert_needs (strings ++ (maybe ++ templates)) m
  steps-needs strings maybe templates m =
      sym (insert_needs-append maybe templates (insert_needs strings m))
      ∙ sym (insert_needs-append strings (maybe ++ templates) m)

  string-needs :
      (m : Requirements)
      → require linenum line
          (in_std line (search string_pattern line))
          (codes "<string>")
          (codes "string")
          m
        ≡ insert_needs (string_needs linenum line) m
  unfolding template_loop
  string-needs m = template_loop-needs ((string_pattern, codes "string", codes "<string>") ∷ []) m

  require_line-needs :
      (m : Requirements) → require_line linenum line m ≡ insert_needs (line_needs linenum line) m
  unfolding require_line line_needs insert_needs
  require_line-needs m =
      let strings = string_needs linenum line in
      let maybe = needs_for (λ pattern. finds pattern line) linenum patterns_maybe_templates in
      let found =
        maybe_loop-needs patterns_maybe_templates _ ∙ ap (insert_needs maybe) (string-needs m) in
      elim (Bool-cases (is_skipped line)) [
        | inl e ↦ rw e
        | inr e ↦ rw e (elim (Bool-cases (char_mem b'<' line)) [
          | inl f ↦ rw f (
              template_loop-needs patterns_templates _
              ∙ ap (insert_needs (std_needs linenum line patterns_templates)) found
              ∙ steps-needs strings maybe (std_needs linenum line patterns_templates) m)
          | inr f ↦ rw f (found ∙ steps-needs strings maybe [] m)
        ])
      ]

pub require_lines-needs :
    (linenum : ℕ) (lines : List Text) (m : Requirements)
    → require_lines linenum lines m ≡ insert_needs (needs linenum lines) m
unfolding require_lines needs insert_needs
require_lines-needs linenum [] m = refl
require_lines-needs linenum (line ∷ lines) m =
    require_lines-needs (suc linenum) lines (require_line linenum line m)
    ∙ ap (insert_needs (needs (suc linenum) lines)) (require_line-needs linenum line m)
    ∙ sym (insert_needs-append (line_needs linenum line) (needs (suc linenum) lines) m)

lookup-insert :
    (h k : Text) (v : ℕ × Text) (m : Requirements)
    → lookup h (insert k v m) ≡ (if text_eq h k then some v else lookup h m)
unfolding lookup insert
lookup-insert h k v [] = refl
lookup-insert h k v ((j, w) ∷ m) =
    ground (arith, text_eq_iff h k, text_eq_iff k j, text_eq_iff h j, lookup-insert h k v m)

lookup-insert_needs :
    (h : Text) (ns m : Requirements) → lookup h (insert_needs ns m) ≡ last_need h ns (lookup h m)
unfolding insert_needs last_need
lookup-insert_needs h [] m = refl
lookup-insert_needs h ((k, v) ∷ ns) m =
    lookup-insert_needs h ns (insert k v m) ∙ ap (last_need h ns) (lookup-insert h k v m)

-- Of all the lines that need a header, and of all the names for which a line needs it, the last
-- line and its last name in the order of the patterns are kept as the reason for the header; a
-- header that no line needs is not required.
pub lookup-require_lines :
    (header : Text) (lines : List Text)
    → lookup header (require_lines 0 lines []) ≡ last_need header (needs 0 lines) none
unfolding lookup
lookup-require_lines header lines =
    ap (lookup header) (require_lines-needs 0 lines [])
    ∙ lookup-insert_needs header (needs 0 lines) []
