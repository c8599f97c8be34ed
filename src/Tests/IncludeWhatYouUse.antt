-- ===== src/Tests/IncludeWhatYouUse.antt =====
-- The headers that the lines of a file need.
use dyod.Prelude.{
  ℕ, ◌≡◌, refl, true, ◌&&◌, ◌||◌, Option, none, some, List, [], ◌∷◌, Text, codes, any, all,
  is_empty, is_suffix, text_eq, if◌then◌else◌, find, rstrip, replace_from, text_mem, drop_while,
}
use dyod.Report.{report}
use dyod.Files.{split_name}
use dyod.Regex.{sub_from, lookup_group}
use dyod.IncludeWhatYouUse.Headers.{patterns_maybe_templates, patterns_templates}
use dyod.Files.Modules.{source_module, header_module}
use dyod.Files.Paths.{splitext, path_head}
use dyod.IncludeWhatYouUse.{
  lookup, has, bare, flat_dict, own_name, require_lines, check_for_include_what_you_use,
}
use dyod.IncludeWhatYouUse.Required.{needs, last_need, lookup-require_lines}
use dyod.IncludeWhatYouUse.Known.{mentions, own_headers, check_for_include_what_you_use-empty}

abbrev some_lines : List Text
some_lines =
    codes ""
    ∷ codes "std::vector<int> f(absl::vector<int> v) {"
    ∷ codes "  return std::max(v, g);"
    ∷ codes "} // string"
    ∷ []

abbrev read_lines : Text → Option (List Text)
read_lines path =
    if text_eq path (codes "/p/a.h") then some (codes "#include <algorithm>\n" ∷ []) else none

abbrev some_includes : List (List (Text × ℕ))
some_includes = ((codes "a.h", 1) ∷ (codes "string", 2) ∷ []) ∷ []

some_reports :
    check_for_include_what_you_use read_lines
      (codes "p/a.cc")
      (codes "/p/a.cc")
      (codes "a.cc")
      some_lines
      some_includes
    ≡ report
        (codes "a.cc")
        1
        (codes "build/include_what_you_use")
        4
        (codes "Add #include <vector> for vector<>")
      ∷ []
unfolding check_for_include_what_you_use source_module text_mem split_name splitext drop_while
    path_head header_module replace_from sub_from patterns_maybe_templates patterns_templates find
    lookup_group rstrip
some_reports = refl

lookup-require_lines_example :
    lookup (codes "<vector>") (require_lines 0 some_lines [])
    ≡ last_need (codes "<vector>") (needs 0 some_lines) none
lookup-require_lines_example = lookup-require_lines (codes "<vector>") some_lines

check_for_include_what_you_use-empty_example :
    is_empty (
      check_for_include_what_you_use read_lines
        (codes "p/a.cc")
        (codes "/p/a.cc")
        (codes "a.cc")
        some_lines
        some_includes)
    ≡ (true
          && is_empty (
              own_headers read_lines
                (codes "p/a.cc")
                (own_name (codes "/p/a.cc"))
                (flat_dict some_includes []))
        || all
            (λ need.
              has (bare need.0) (flat_dict some_includes [])
              || any (mentions (bare need.0)) (
                  own_headers read_lines
                    (codes "p/a.cc")
                    (own_name (codes "/p/a.cc"))
                    (flat_dict some_includes [])))
            (needs 0 some_lines))
unfolding is_suffix
check_for_include_what_you_use-empty_example =
    check_for_include_what_you_use-empty read_lines (codes "p/a.cc") (codes "/p/a.cc")
      (codes "a.cc") some_lines some_includes
