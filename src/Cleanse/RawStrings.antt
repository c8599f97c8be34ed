-- ===== src/Cleanse/RawStrings.antt =====
-- cpplint.py: `CleanseRawStrings`.
pub mod Laws
use dyod.Prelude.{
  ℕ, zero, suc, ◌+◌, not, ◌||◌, Option, none, some, List, [], ◌∷◌, ◌++◌, length, drop, Text, codes,
  find, if◌then◌else◌, ◌==◌, is_space,
}
use dyod.Regex.{
  Re, chr, alt, seq, star, lazy_star, grp, word_edge, at_start, at_end, lit, seqs, alts, none_of,
  space, non_space, dot, match, matches, group_text, Cursor,
}

abbrev pub quotes : Text
quotes = codes "\"\""

-- `^(.*?)\b(?:R|u8R|uR|UR|LR)"([^\s\\()]*)\((.*)$`
abbrev pub raw_string_pattern : Re
raw_string_pattern = seqs (
    at_start
    ∷ grp 1 (lazy_star dot)
    ∷ word_edge
    ∷ alts (
        lit (codes "R")
        ∷ lit (codes "u8R")
        ∷ lit (codes "uR")
        ∷ lit (codes "UR")
        ∷ lit (codes "LR")
        ∷ [])
    ∷ lit (codes "\"")
    ∷ grp 2 (star (chr (λ c. not (is_space c || c == b'\\' || c == b'(' || c == b')'))))
    ∷ lit (codes "(")
    ∷ grp 3 (star dot)
    ∷ at_end
    ∷ [])

-- `^([^'"]|'(\\.|[^'])*'|"(\\.|[^"])*")*//`; its groups are not read.
abbrev pub single_line_comment_pattern : Re
single_line_comment_pattern = seqs (
    at_start
    ∷ star (
        alts (
          none_of (codes "'\"")
          ∷ seqs (
              lit (codes "'")
              ∷ star (alt (seq (lit (codes "\\")) dot) (none_of (codes "'")))
              ∷ lit (codes "'")
              ∷ [])
          ∷ seqs (
              lit (codes "\"")
              ∷ star (alt (seq (lit (codes "\\")) dot) (none_of (codes "\"")))
              ∷ lit (codes "\"")
              ∷ [])
          ∷ []))
    ∷ lit (codes "//")
    ∷ [])

-- `^(\s*)\S`
abbrev pub leading_space_pattern : Re
leading_space_pattern = seqs (at_start ∷ grp 1 (star space) ∷ non_space ∷ [])

abbrev pub matched_text : Option Cursor → Text
matched_text none = []
matched_text (some m) = group_text 1 m

-- `match.group(1)` of the leading space. The line holds the delimiter, so that there is a match.
abbrev pub leading_space : Text → Text
leading_space line = matched_text (match leading_space_pattern line)

abbrev pub delimiter_of : Cursor → Text
delimiter_of m = codes ")" ++ group_text 2 m ++ codes "\""

-- what the body of the loop does with one match: the line that is left, and the delimiter that is
-- still looked for
unfoldable pub replace_raw : Cursor → Option ℕ → Text × Option Text
replace_raw m (some end) =
    (group_text 1 m ++ quotes ++ drop (end + length (delimiter_of m)) (group_text 3 m), none)
replace_raw m none = (group_text 1 m ++ quotes, some (delimiter_of m))

-- a match counts if it does not stand in a comment
abbrev pub unless_comment : Option Cursor → Option Cursor
unless_comment none = none
unless_comment (some m) =
    if matches single_line_comment_pattern (group_text 1 m) then none else some m

-- the match that is replaced, if there is one
unfoldable pub raw_string : Text → Option Cursor
raw_string line = unless_comment (match raw_string_pattern line)

-- the next round, if no delimiter is pending
abbrev pub loop_on :
    (Text → Option (Text × Option Text)) → Text × Option Text → Option (Text × Option Text)
loop_on next (line, none) = next line
loop_on next (line, some d) = some (line, some d)

abbrev pub loop_at :
    (Text → Option (Text × Option Text)) → Text → Option Cursor → Option (Text × Option Text)
loop_at next line none = some (line, none)
loop_at next line (some m) = loop_on next (replace_raw m (find (delimiter_of m) (group_text 3 m)))

-- `while delimiter is None`, on fuel: every round leaves a shorter line, so that its length is
-- enough.
unfoldable pub begin_loop : ℕ → Text → Option (Text × Option Text)
begin_loop zero line = none
begin_loop (suc fuel) line = loop_at (begin_loop fuel) line (raw_string line)

abbrev pub begin_raw : Text → Option (Text × Option Text)
begin_raw line = begin_loop (suc (length line)) line

-- a line inside a raw string, by the place of its end
abbrev pub end_raw : Text → Text → Option ℕ → Option (Text × Option Text)
end_raw d line (some end) = begin_raw (leading_space line ++ quotes ++ drop (end + length d) line)
end_raw d line none = some (quotes, some d)

-- the body of the loop over the lines
unfoldable pub cleanse_line : Option Text → Text → Option (Text × Option Text)
cleanse_line none line = begin_raw line
cleanse_line (some d) line = end_raw d line (find d line)

abbrev pub cons_line : Text → Option (List Text) → Option (List Text)
cons_line line none = none
cons_line line (some ls) = some (line ∷ ls)

unfoldable pub cleanse_from : Option Text → List Text → Option (List Text)
cleanse_from d [] = some []
cleanse_from d (line ∷ lines) = elim (cleanse_line d line) [
  | none ↦ none
  | some (line', d') ↦ cons_line line' (cleanse_from d' lines)
]

-- `CleanseRawStrings`; `none` is fuel used up.
unfoldable pub cleanse_raw_strings : List Text → Option (List Text)
cleanse_raw_strings lines = cleanse_from none lines
