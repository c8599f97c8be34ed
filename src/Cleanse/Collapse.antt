-- ===== src/Cleanse/Collapse.antt =====
-- cpplint.py: `CleansedLines._CollapseStrings`.
pub mod Laws
use dyod.Prelude.{
  ℕ, zero, suc, Bool, ◌&&◌, ◌||◌, Option, none, some, [], ◌∷◌, ◌++◌, length, drop, Text, codes,
  find, replace, text_eq, if◌then◌else◌, leb,
}
use dyod.Regex.{
  Re, chr, alt, seq, star, grp, word_edge, at_start, at_end, lit, seqs, alts, none_of, one_of, opt,
  plus, space, digit, dot, match, matches, finds, sub, group_text, Cursor, is_digit, is_word,
}

-- `_RE_PATTERN_INCLUDE`: `^\s*#\s*include\s*([<"])([^>"]*)[>"].*$`
abbrev pub include_line_pattern : Re
include_line_pattern = seqs (
    at_start
    ∷ star space
    ∷ lit (codes "#")
    ∷ star space
    ∷ lit (codes "include")
    ∷ star space
    ∷ grp 1 (one_of (codes "<\""))
    ∷ grp 2 (star (none_of (codes ">\"")))
    ∷ one_of (codes ">\"")
    ∷ star dot
    ∷ at_end
    ∷ [])

abbrev is_hex_digit : ℕ → Bool
is_hex_digit c = is_digit c || leb b'a' c && leb c b'f' || leb b'A' c && leb c b'F'

-- `_RE_PATTERN_CLEANSE_LINE_ESCAPES`: `\\([abfnrtv?"\\\']|\d+|x[0-9a-fA-F]+)`
abbrev pub cleanse_line_escapes_pattern : Re
cleanse_line_escapes_pattern = seq (lit (codes "\\")) (
    grp 1 (
      alts (
        one_of (codes "abfnrtv?\"\\'")
        ∷ plus digit
        ∷ seq (lit (codes "x")) (plus (chr is_hex_digit))
        ∷ [])))

-- `^([^'"]*)(['"])(.*)$`
abbrev pub first_quote_pattern : Re
first_quote_pattern = seqs (
    at_start
    ∷ grp 1 (star (none_of (codes "'\"")))
    ∷ grp 2 (one_of (codes "'\""))
    ∷ grp 3 (star dot)
    ∷ at_end
    ∷ [])

-- `\b(?:0[bBxX]?|[1-9])[0-9a-fA-F]*$`
abbrev pub number_end_pattern : Re
number_end_pattern = seqs (
    word_edge
    ∷ alt (seq (lit (codes "0")) (opt (one_of (codes "bBxX"))))
        (chr (λ c. leb b'1' c && leb c b'9'))
    ∷ star (chr is_hex_digit)
    ∷ at_end
    ∷ [])

-- `^((?:'?[0-9a-zA-Z_])*)(.*)$`
abbrev pub number_rest_pattern : Re
number_rest_pattern = seqs (
    at_start
    ∷ grp 1 (star (seq (opt (lit (codes "'"))) (chr is_word)))
    ∷ grp 2 (star dot)
    ∷ at_end
    ∷ [])

-- What the loop holds: what is collapsed, and what is still to be looked at; or the text returned.
pub data Round : Type 0 where
  again : Text → Text → Round
  stop : Text → Round

-- behind `head`, a quoted text that ends at the given place of `tail`
abbrev pub close_quote : Text → Text → Text → Text → Text → Option ℕ → Round
close_quote collapsed elided head pair tail none = stop (collapsed ++ elided)
close_quote collapsed elided head pair tail (some i) =
    again (collapsed ++ (head ++ pair)) (drop (suc i) tail)

-- a digit separator; the pattern matches every text that has no newline
abbrev pub join_number : Text → Text → Text → Option Cursor → Round
join_number collapsed elided head none = stop (collapsed ++ elided)
join_number collapsed elided head (some m) =
    again (collapsed ++ (head ++ replace (codes "'") [] (group_text 1 m))) (group_text 2 m)

-- the body of the loop, by the first quote
abbrev pub collapse_round : Text → Text → Option Cursor → Round
collapse_round collapsed elided none = stop (collapsed ++ elided)
collapse_round collapsed elided (some m) =
    let head = group_text 1 m in
    let tail = group_text 3 m in
    if text_eq (group_text 2 m) (codes "\"")
    then close_quote collapsed elided head (codes "\"\"") tail (find (codes "\"") tail)
    else if finds number_end_pattern head
    then join_number collapsed elided head (match number_rest_pattern (b'\'' ∷ tail))
    else close_quote collapsed elided head (codes "''") tail (find (codes "'") tail)

abbrev pub collapse_on : (Text → Text → Option Text) → Round → Option Text
collapse_on next (again collapsed elided) = next collapsed elided
collapse_on next (stop text) = some text

-- `while True`, on fuel: every round leaves a shorter text to be looked at, so that the length of
-- the line is enough.
unfoldable pub collapse_loop : ℕ → Text → Text → Option Text
collapse_loop zero collapsed elided = none
collapse_loop (suc fuel) collapsed elided =
    collapse_on (collapse_loop fuel)
      (collapse_round collapsed elided (match first_quote_pattern elided))

abbrev pub no_escape : Cursor → Text
no_escape m = []

abbrev pub without_escapes : Text → Text
without_escapes line = sub cleanse_line_escapes_pattern no_escape line

-- `_CollapseStrings`; `none` is fuel used up.
unfoldable pub collapse_strings : Text → Option Text
collapse_strings line =
    if matches include_line_pattern line
    then some line
    else collapse_loop (suc (length (without_escapes line))) [] (without_escapes line)
