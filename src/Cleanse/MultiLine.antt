-- ===== src/Cleanse/MultiLine.antt =====
-- cpplint.py: `RemoveMultiLineComments` and its helpers. The loops walk the lines from `lineix` on,
-- so that a position counts from there.
pub mod Laws
use dyod.Prelude.{
  ℕ, zero, suc, ◌+◌, Bool, true, false, ◌&&◌, Option, none, some, List, [], ◌∷◌, ◌++◌, length, take,
  drop, Text, codes, find, is_prefix, is_suffix, strip, is_unicode_space, if◌then◌else◌, leb,
}
use dyod.Report.{Report}

abbrev is_none : Option ℕ → Bool
is_none none = true
is_none (some i) = false

-- the line begins a comment that goes beyond it
unfoldable pub starts_comment : Text → Bool
starts_comment line =
    is_prefix (codes "/*") (strip is_unicode_space line)
    && is_none (find (codes "*/") (drop 2 (strip is_unicode_space line)))

unfoldable pub ends_comment : Text → Bool
ends_comment line = is_suffix (codes "*/") (strip is_unicode_space line)

-- `FindNextMultiLineCommentStart` and `FindNextMultiLineCommentEnd`: the number of lines in front of
-- the marker, or of all lines
unfoldable pub find_next_multi_line_comment_start : List Text → ℕ
find_next_multi_line_comment_start [] = 0
find_next_multi_line_comment_start (line ∷ lines) =
    if starts_comment line then 0 else suc (find_next_multi_line_comment_start lines)

unfoldable pub find_next_multi_line_comment_end : List Text → ℕ
find_next_multi_line_comment_end [] = 0
find_next_multi_line_comment_end (line ∷ lines) =
    if ends_comment line then 0 else suc (find_next_multi_line_comment_end lines)

-- `RemoveMultiLineCommentsFromRange`, for as many lines from the start of the list on
unfoldable pub remove_multi_line_comments_from_range : ℕ → List Text → List Text
remove_multi_line_comments_from_range zero lines = lines
remove_multi_line_comments_from_range (suc n) [] = []
remove_multi_line_comments_from_range (suc n) (line ∷ lines) =
    codes "/**/" ∷ remove_multi_line_comments_from_range n lines

pub unfinished_report : Text → ℕ → Report
unfinished_report filename linenum = record {
  filename = filename;
  linenum = linenum;
  category = codes "readability/multiline_comment";
  confidence = 5;
  message = codes "Could not find end of multi-line comment";
}

-- the lines in front of what the rest of the loop makes
abbrev pub onto_lines : List Text → List Text × List Report → List Text × List Report
onto_lines lines (rest, reports) = (lines ++ rest, reports)

-- the comment lines, given the number of lines up to the end of the comment
abbrev blank_lines : ℕ → List Text → List Text
blank_lines n lines = take n (remove_multi_line_comments_from_range n lines)

-- The loop, on fuel: every round passes at least one line, so that the number of lines is enough.
unfoldable pub remove_loop : ℕ → Text → ℕ → List Text → List Text × List Report
remove_loop zero filename lineix lines = (lines, [])
remove_loop (suc fuel) filename lineix lines =
    let begin = find_next_multi_line_comment_start lines in
    let comment = drop begin lines in
    let end = find_next_multi_line_comment_end comment in
    let rest = remove_loop fuel filename (lineix + begin + end + 1) (drop (end + 1) comment) in
    if leb (length lines) begin
    then (lines, [])
    else if leb (length comment) end
    then (lines, unfinished_report filename (lineix + begin + 1) ∷ [])
    else onto_lines (take begin lines ++ blank_lines (end + 1) comment) rest

unfoldable pub remove_multi_line_comments : Text → List Text → List Text × List Report
remove_multi_line_comments filename lines = remove_loop (suc (length lines)) filename 0 lines
