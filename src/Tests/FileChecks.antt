-- ===== src/Tests/FileChecks.antt =====
-- The checks on a whole file.
use mathlib.Core.List.{reverse}
use dyod.Prelude.{
  ◌≡◌, refl, some, List, [], ◌∷◌, Text, codes, find, is_prefix, take, replace_from, count_from,
  count_char,
}
use dyod.FileChecks.{
  mentions_copyright, check_for_copyright, marked_lines, check_for_multiline_comments_and_strings,
  previous_non_blank, get_previous_non_blank_line,
}
use dyod.FileChecks.BlankLines.{Nearest, get_previous_non_blank_line-Nearest}

abbrev two_lines : List Text
two_lines = codes "// COPYRIGHT 2015" ∷ codes "" ∷ []

copyright_found : check_for_copyright (codes "a.cc") (marked_lines two_lines) ≡ []
unfolding check_for_copyright mentions_copyright find is_prefix
copyright_found = refl

strings_closed :
    check_for_multiline_comments_and_strings (codes "a.cc") 1 (codes "f(\"a\\\"\"); /* b */") ≡ []
unfolding check_for_multiline_comments_and_strings count_from count_char replace_from is_prefix
strings_closed = refl

get_previous_non_blank_line-Nearest_example :
    Nearest
      (reverse (take 3 (codes "a" ∷ codes " " ∷ codes "" ∷ codes "b" ∷ [])))
      (get_previous_non_blank_line (codes "a" ∷ codes " " ∷ codes "" ∷ codes "b" ∷ []) 3)
get_previous_non_blank_line-Nearest_example =
    get_previous_non_blank_line-Nearest (codes "a" ∷ codes " " ∷ codes "" ∷ codes "b" ∷ []) 3

line_found :
    get_previous_non_blank_line (codes "a" ∷ codes " " ∷ codes "" ∷ codes "b" ∷ []) 3
    ≡ some (codes "a", 0)
unfolding get_previous_non_blank_line previous_non_blank
line_found = refl
