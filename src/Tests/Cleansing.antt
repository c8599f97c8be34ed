-- ===== src/Tests/Cleansing.antt =====
-- Raw strings, comments and strings.
use dyod.Prelude.{
  ◌≡◌, ◌≤◌, refl, none, some, List, [], ◌∷◌, Text, codes, length, text_eq, find, is_prefix,
  is_suffix, rstrip, drop_while, replace_from, count_from, count_char,
}
use dyod.Regex.{match, matches, finds, sub_from, lookup_group}
use dyod.Cleanse.{CleansedLines, cleanse_lines}
use dyod.Cleanse.RawStrings.{
  cleanse_raw_strings, cleanse_from, cleanse_line, begin_loop, raw_string, replace_raw,
}
use dyod.Cleanse.RawStrings.Laws.{cleanse_raw_strings_total, cleanse_line_closed}
use dyod.Cleanse.MultiLine.{
  remove_multi_line_comments, remove_loop, starts_comment, ends_comment,
  find_next_multi_line_comment_start, find_next_multi_line_comment_end,
  remove_multi_line_comments_from_range,
}
use dyod.Cleanse.MultiLine.Laws.{Removes, remove_multi_line_comments-Removes}
use dyod.Cleanse.Comments.{cleanse_comments, is_cpp_string}
use dyod.Cleanse.Collapse.{collapse_strings, collapse_loop}
use dyod.Cleanse.Collapse.Laws.{collapse_strings_total}
use dyod.Cleanse.Lines.{SameLength, cleanse_lines_total}

abbrev raw_lines : List Text
raw_lines = codes "f(R\"(a \"b" ∷ codes "  c)\" + R\"x(d)x\");" ∷ []

raw_removed : cleanse_raw_strings raw_lines ≡ some (codes "f(\"\"" ∷ codes "  \"\" + \"\");" ∷ [])
unfolding cleanse_raw_strings cleanse_from cleanse_line begin_loop raw_string replace_raw match
    matches lookup_group find is_prefix
raw_removed = refl

cleanse_raw_strings_total_example :
    (out : List Text) × (cleanse_raw_strings raw_lines ≡ some out) × (length out ≡ length raw_lines)
cleanse_raw_strings_total_example = cleanse_raw_strings_total raw_lines

line_closed :
    cleanse_line (some (codes ")\"")) (codes "  c)\" + R\"x(d)x\");")
    ≡ some (codes "  \"\" + \"\");", none)
unfolding cleanse_line begin_loop raw_string replace_raw match matches lookup_group find is_prefix
line_closed = refl

cleanse_line_closed_example : raw_string (codes "  \"\" + \"\");") ≡ none
cleanse_line_closed_example =
    cleanse_line_closed (some (codes ")\"")) (codes "  c)\" + R\"x(d)x\");") line_closed

abbrev comment_lines : List Text
comment_lines = codes "a" ∷ codes " /* b" ∷ codes "c */" ∷ codes "d" ∷ []

remove_multi_line_comments-Removes_example :
    Removes comment_lines (remove_multi_line_comments (codes "a.cc") comment_lines)
remove_multi_line_comments-Removes_example =
    remove_multi_line_comments-Removes (codes "a.cc") comment_lines

comments_removed :
    remove_multi_line_comments [] comment_lines
    ≡ (codes "a" ∷ codes "/**/" ∷ codes "/**/" ∷ codes "d" ∷ [], [])
unfolding remove_multi_line_comments remove_loop starts_comment ends_comment
    find_next_multi_line_comment_start find_next_multi_line_comment_end
    remove_multi_line_comments_from_range is_prefix is_suffix find rstrip drop_while
comments_removed = refl

comment_cut : cleanse_comments (codes "f(\"//\", /* x */ 1);  // y") ≡ codes "f(\"//\", 1);  // y"
unfolding cleanse_comments is_cpp_string sub_from find is_prefix rstrip drop_while replace_from
    count_from count_char
comment_cut = refl

strings_collapsed :
    collapse_strings (codes "f(\"a\\\"b\", 'c', 1'000);") ≡ some (codes "f(\"\", '', 1000);")
unfolding collapse_strings collapse_loop matches match finds sub_from lookup_group find is_prefix
    text_eq replace_from
strings_collapsed = refl

collapse_strings_total_example :
    (text : Text) × (collapse_strings (codes "f(\"a\");") ≡ some text)
    × (length text ≤ length (codes "f(\"a\");"))
collapse_strings_total_example = collapse_strings_total (codes "f(\"a\");")

cleanse_lines_total_example :
    (c : CleansedLines) × (cleanse_lines raw_lines ≡ some c)
    × (c.raw_lines ≡ raw_lines)
    × SameLength c (length raw_lines)
cleanse_lines_total_example = cleanse_lines_total raw_lines
