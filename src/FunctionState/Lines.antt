-- ===== src/FunctionState/Lines.antt =====
-- cpplint.py: `CheckForFunctionLengths`, which begins, counts and ends the function at hand.
use dyod.Prelude.{
  ℕ, Bool, false, not, ◌&&◌, ◌||◌, Option, none, some, List, [], ◌∷◌, ◌++◌, Text, codes, drop,
  get_elem?, is_unicode_space, leb, drop_while, lstrip, text_eq, ◌==◌, if◌then◌else◌,
}
use dyod.Regex.{
  Re, Cursor, alts, at_end, at_start, dot, finds, group_text, grp, lit, match, matches, one_of,
  plus, chr, search, seqs, space, star, word,
}
use dyod.Report.{Report, report}
use dyod.HeaderGuard.{words}
use dyod.FunctionState.{FunctionState, begin, check, count_line, end}

-- `(\w(\w|::|\*|\&|\s)*)\(`
abbrev pub function_pattern : Re
function_pattern = seqs (
    grp 1 (
      seqs (
        word
        ∷ star (
            grp 2 (alts (word ∷ lit (codes "::") ∷ lit (codes "*") ∷ lit (codes "&") ∷ space ∷ [])))
        ∷ []))
    ∷ lit (codes "(")
    ∷ [])

-- `[A-Z_]+$`
abbrev macro_pattern : Re
macro_pattern = seqs (plus (chr (λ c. leb b'A' c && leb c b'Z' || c == b'_')) ∷ at_end ∷ [])

-- `((\w|:)*)\(`
abbrev name_pattern : Re
name_pattern =
    seqs (grp 1 (star (grp 2 (alts (word ∷ lit (codes ":") ∷ [])))) ∷ lit (codes "(") ∷ [])

-- `(\(.*\))`
abbrev parameter_pattern : Re
parameter_pattern = grp 1 (seqs (lit (codes "(") ∷ star dot ∷ lit (codes ")") ∷ []))

-- `^\}\s*$` and `^\s*$`
abbrev end_pattern : Re
end_pattern = seqs (at_start ∷ lit (codes "}") ∷ star space ∷ at_end ∷ [])

abbrev pub blank_pattern : Re
blank_pattern = seqs (at_start ∷ star space ∷ at_end ∷ [])

abbrev last : List Text → Text
last [] = []
last (w ∷ []) = w
last (w ∷ v ∷ ws) = last (v ∷ ws)

-- whether the name in front of the parenthesis may be that of a function; there is a word in it
abbrev names_function : Text → Bool
names_function name =
    text_eq name (codes "TEST") || text_eq name (codes "TEST_F") || not (matches macro_pattern name)

abbrev starts_with : Option Cursor → Bool
starts_with none = false
starts_with (some m) = names_function (last (words (group_text 1 m)))

unfoldable pub starting_func : Text → Bool
unfolding match matches
starting_func line = starts_with (match function_pattern line)

-- what is found behind the start of a function: a declaration or a trivial function, a body, with
-- the lines up to it joined, or neither
pub data Found : Type 0 where
  trivial : Found
  body : Text → Found
  no_body : Found

-- the loop over the lines from the start on
unfoldable pub find_body : Text → List Text → Found
unfolding finds drop_while
find_body joined [] = no_body
find_body joined (line ∷ lines) =
    let joined' = joined ++ codes " " ++ lstrip is_unicode_space line in
    let later = find_body joined' lines in
    if finds (grp 1 (one_of (codes ";}"))) line
    then trivial
    else if finds (lit (codes "{")) line
    then body joined'
    else later

abbrev text_of : Option (ℕ × Cursor) → Text
text_of none = []
text_of (some (start, m)) = group_text 1 m

-- The name under which the function begins. The line has a parenthesis, so that the first pattern
-- is found.
unfoldable pub body_name : Text → Text → Text
unfolding search matches
body_name line joined =
    let function = text_of (search name_pattern line) in
    if matches (lit (codes "TEST")) function
    then function ++ text_of (search parameter_pattern joined)
    else function ++ codes "()"

abbrev pub no_body_report : Text → ℕ → Report
no_body_report filename linenum =
    report filename linenum (codes "readability/fn_size") 5
      (codes "Lint failed to find start of function body.")

abbrev begin_found : Text → ℕ → Text → Found → FunctionState → FunctionState × List Report
begin_found filename linenum line trivial s = (s, [])
begin_found filename linenum line (body joined) s = (begin (body_name line joined) s, [])
begin_found filename linenum line no_body s = (s, no_body_report filename linenum ∷ [])

abbrev at_line :
    ℕ → Text → ℕ → List Text → Option Text → FunctionState → Option (FunctionState × List Report)
at_line verbose filename linenum lines none s = none
at_line verbose filename linenum lines (some line) s = some (
    if starting_func line
    then begin_found filename linenum line (find_body [] (drop linenum lines)) s
    else if matches end_pattern line
    then (end s, check verbose filename linenum s)
    else if matches blank_pattern line
    then (s, [])
    else (count_line s, []))

-- `CheckForFunctionLengths`, over `clean_lines.lines`; `none` is an index out of range.
unfoldable pub check_for_function_lengths :
    ℕ → Text → List Text → ℕ → FunctionState → Option (FunctionState × List Report)
unfolding starting_func find_body body_name matches
check_for_function_lengths verbose filename lines linenum s =
    at_line verbose filename linenum lines (get_elem? lines linenum) s
