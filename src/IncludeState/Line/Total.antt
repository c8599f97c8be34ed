-- ===== src/IncludeState/Line/Total.antt =====
-- `CheckIncludeLine` answers on every line of a file, and keeps what is known of earlier lines.
use dyod.Prelude.{
  length-reverse, ℕ, zero, suc, ◌<◌, Bool, true, not, ◌&&◌, Option, none, some, List, [], ◌++◌, ◌≡◌,
  refl, ap, ◌∙◌, arith, length, get_elem?-some, is_suffix, Text, codes, text_eq, if_both,
}
use mathlib.Core.List.{reverse}
use dyod.Regex.{Cursor, matches, search, group_text}
use dyod.Report.{Report, add_reports}
use dyod.Cleanse.Collapse.{include_line_pattern}
use dyod.Files.Paths.{dirname}
use dyod.IncludeState.{
  HeaderType, Section, IncludeState, find_header, add_header, check_next_include_order,
  enter_section, next_section, is_in_alphabetical_order, previous_line, text_gt,
  canonicalize_alphabetical_order,
}
use dyod.IncludeState.Headers.{HasSection, append_last_ne, find_header-add_header, or_found}
use dyod.IncludeState.Line.{
  classify_include, third_party_headers_pattern, sorted_header, ordered_header, include_header,
  include_match, check_include_line,
}

-- Every header is found where it was found before.
abbrev pub Knows : IncludeState → IncludeState → Type 0
Knows s s' =
    HasSection s' × ((h : Text) (n : ℕ) → find_header h s ≡ some n → find_header h s' ≡ some n)

abbrev Answers : IncludeState → Option (IncludeState × List Report) → Type 0
Answers s o = (s' : IncludeState) × (reports : List Report) × (o ≡ some (s', reports)) × Knows s s'

add_header-HasSection :
    (header : Text) (linenum : ℕ) (s : IncludeState)
    → HasSection s
    → HasSection (add_header header linenum s)
unfolding add_header
add_header-HasSection header linenum s ne = append_last_ne (header, linenum) s.include_list ne

add_header-Knows :
    (header : Text) (linenum : ℕ) (s : IncludeState)
    → HasSection s
    → Knows s (add_header header linenum s)
add_header-Knows header linenum s ne = (
  add_header-HasSection header linenum s ne,
  λ h n e. find_header-add_header h header linenum s ne ∙ ap (or_found h (header, linenum)) e,
)

enter_section-Knows :
    (s t : IncludeState) (type : HeaderType) (o : Option Section)
    → Knows s t
    → Knows s (enter_section type o t).0
unfolding enter_section find_header
enter_section-Knows s t type none k = k
enter_section-Knows s t type (some entered) k = k

order-Knows :
    (s t : IncludeState) (type : HeaderType)
    → Knows s t
    → Knows s (check_next_include_order type t).0
unfolding check_next_include_order
order-Knows s t type k = enter_section-Knows s t type (next_section type t.section) k

previous_line-some :
    (elided : List Text) (linenum : ℕ)
    → linenum < length elided
    → (line : Text) × (previous_line elided linenum ≡ some line)
previous_line-some elided zero lt =
    get_elem?-some (reverse elided) 0 (omega (arith, length-reverse elided))
previous_line-some elided (suc n) lt = get_elem?-some elided n (omega arith)

is_in_alphabetical_order-some :
    (elided : List Text) (linenum : ℕ) (path : Text) (s : IncludeState)
    → linenum < length elided
    → (b : Bool) × (is_in_alphabetical_order elided linenum path s ≡ some b)
unfolding is_in_alphabetical_order
is_in_alphabetical_order-some elided linenum path s lt =
    let (line, e) = previous_line-some elided linenum lt in
    rw e
      (if_both (λ o. (b : Bool) × (o ≡ some b)) (text_gt s.last_header path) (_, refl) (true, refl))

add_reports-Answers :
    (s : IncludeState) (reports : List Report) (o : Option (IncludeState × List Report))
    → Answers s o
    → Answers s (add_reports reports o)
add_reports-Answers s reports o (s', later, e, k) = rw e (s', reports ++ later, refl, k)

module _ (filename repository : Text) (elided : List Text) (linenum : ℕ)
    (inside : linenum < length elided) where
  sorted_header-Answers :
      (include : Text) (s t : IncludeState) (reports : List Report) (o : Option Bool)
      → (b : Bool) × (o ≡ some b)
      → Knows s t
      → Answers s (sorted_header filename repository elided linenum include t reports o)
  unfolding find_header
  sorted_header-Answers include s t reports none (b, e) k = cc
  sorted_header-Answers include s t reports (some sorted) e k = (_, _, refl, k)

  ordered_header-Answers :
      (include : Text) (s : IncludeState) (r : IncludeState × Text)
      → Knows s r.0
      → Answers s (ordered_header filename repository elided linenum include r)
  ordered_header-Answers include s (t, message) k =
      sorted_header-Answers include s t _ _
        (is_in_alphabetical_order-some elided linenum (canonicalize_alphabetical_order include) t
          inside)
        k

  include_header-Answers :
      (include : Text) (is_system : Bool) (s : IncludeState) (o : Option ℕ)
      → HasSection s
      → Answers s (include_header filename repository elided linenum include is_system s o)
  include_header-Answers include is_system s (some duplicate_line) ne =
      (s, _, refl, (ne, λ h n e. e))
  include_header-Answers include is_system s none ne =
      let P = Answers s in
      if_both P
        (is_suffix (codes ".cc") include && not (text_eq (dirname repository) (dirname include)))
        (s, _, refl, (ne, λ h n e. e))
        (if_both P (matches third_party_headers_pattern include) (s, [], refl, (ne, λ h n e. e))
          (ordered_header-Answers include s _ (
            order-Knows s (add_header include linenum s)
              (classify_include repository include is_system)
              (add_header-Knows include linenum s ne))))

  include_match-Answers :
      (s : IncludeState) (o : Option (ℕ × Cursor))
      → HasSection s
      → Answers s (include_match filename repository elided linenum s o)
  include_match-Answers s none ne = (s, [], refl, (ne, λ h n e. e))
  include_match-Answers s (some (start, m)) ne =
      include_header-Answers (group_text 2 m) (text_eq (group_text 1 m) (codes "<")) s
        (find_header (group_text 2 m) s) ne

-- For a line of the file and a state with a list to append to, `CheckIncludeLine` answers, without
-- an index out of range; in the new state there is such a list too, and `FindHeader` still gives the
-- line of the first #include for every header that it found before.
pub check_include_line_total :
    (filename repository : Text) (elided : List Text) (linenum : ℕ) (line : Text) (s : IncludeState)
    → linenum < length elided
    → HasSection s
    → (s' : IncludeState) × (reports : List Report) × (check_include_line filename repository elided
          linenum line s
        ≡ some (s', reports))
      × Knows s s'
unfolding check_include_line
check_include_line_total filename repository elided linenum line s inside ne =
    add_reports-Answers s _ _ (
      include_match-Answers filename repository elided linenum inside s
        (search include_line_pattern line) ne)
