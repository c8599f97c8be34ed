-- ===== src/Tests/HeaderGuard.antt =====
-- Header guards.
use dyod.Prelude.{◌≡◌, refl, none, List, [], ◌∷◌, Text, codes, is_prefix, text_eq, replace_from}
use dyod.Regex.{finds, match, matches, search, sub_from, lookup_group}
use dyod.HeaderGuard.{
  guard_filename, header_guard_variable, new_scan, scan_lines, words_onto, guard_actions,
  check_for_header_guard, parse_nolint,
}
use dyod.HeaderGuard.Scan.{found, scan_lines-found}

abbrev some_header : List Text
some_header =
    codes "// Copyright"
    ∷ codes "#ifndef SRC_A_H_"
    ∷ codes "#define SRC_A_H_"
    ∷ codes "#endif  // SRC_A_H_"
    ∷ codes ""
    ∷ []

some_variable : header_guard_variable none (codes "src/a.h") ≡ codes "SRC_A_H_"
unfolding header_guard_variable
some_variable = refl

original_name : guard_filename (codes "c++/.flymake/a_flymake.h") ≡ codes "cpp/a.h"
unfolding guard_filename sub_from replace_from lookup_group is_prefix
original_name = refl

header_accepted :
    check_for_header_guard (codes "src/a.h") (codes "SRC_A_H_") some_header
    ≡ parse_nolint (codes "#endif  // SRC_A_H_") 3 ∷ []
unfolding check_for_header_guard guard_actions scan_lines words_onto finds match matches search
    lookup_group is_prefix text_eq
header_accepted = refl

scan_lines-found_example : scan_lines 0 some_header new_scan ≡ found some_header
scan_lines-found_example = scan_lines-found some_header
