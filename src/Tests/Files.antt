-- ===== src/Tests/Files.antt =====
-- Names of files, and #include lines.
use dyod.Prelude.{
  not, ◌||◌, true, is_prefix-append, ◌↔◌, ◌≡◌, refl, arith, false, Bool, none, some, List, [], ◌∷◌,
  ◌++◌, Text, codes, text_eq, text_mem, is_prefix, is_suffix, drop_while, rstrip, split_onto, ap,
  if_both, is_empty,
}
use mathlib.Core.List.{reverse, reverse-append}
use dyod.Regex.{finds}
use dyod.Files.{base_name}
use dyod.Files.Modules.{test_file_suffix}
use dyod.IncludeState.Own.{check_header_file_included}
use dyod.IncludeState.Own.Silent.{any_matches, check_header_file_included_iff}
use dyod.Report.{Report}
use dyod.Files.{
  has_svn, svn_loop, checkout_loop, repository_name_of, repository_name, full_name, split_name,
}
use dyod.Files.Paths.{dirname, path_head, splitext, common_prefix, normpath, normal_components}
use dyod.Files.Repository.{repository_name_total, svn_loop-stuck}
use dyod.IncludeState.{likely_my_header, IncludeState, new_include_state}
use dyod.IncludeState.Headers.{new_include_state-HasSection}
use dyod.IncludeState.Line.{check_include_line, classify_include, drop_suffix, first_component}
use dyod.IncludeState.Line.Total.{Knows, check_include_line_total}

-- a checkout at `/w`, with one file
abbrev some_exists : Text → Bool
some_exists p =
    text_mem p (codes "/w/.git" ∷ codes "/w/src/a.cc" ∷ codes "/w/src" ∷ codes "/w" ∷ [])

abbrev same : Text → Text
same p = p

name_in_checkout : repository_name same some_exists (codes "/w/src/a.cc") ≡ some (codes "src/a.cc")
unfolding repository_name_of full_name checkout_loop dirname path_head common_prefix rstrip
    drop_while text_eq text_mem is_suffix is_prefix
name_in_checkout = refl

parts : split_name (codes "src/a.b.cc") ≡ (codes "src", codes "a.b", codes ".cc")
unfolding split_name dirname path_head splitext rstrip drop_while
parts = refl

public_path : normpath (codes "a/b/../public") ≡ codes "a/public"
unfolding normpath normal_components split_onto is_prefix text_eq
public_path = refl

-- everything exists but what ends in `.svn`
abbrev git_everywhere : Text → Bool
git_everywhere p = not (is_suffix (codes ".svn") p)

is_suffix-append : (s p : Text) → is_suffix p (s ++ p) ≡ true
unfolding is_suffix
is_suffix-append s p = rw (reverse-append s p) (is_prefix-append (reverse p) (reverse s))

no_svn : (d : Text) → dirname d ≡ d → has_svn git_everywhere d ≡ false
no_svn d e =
    if_both (λ p. git_everywhere p ≡ false) (is_empty d || is_suffix (codes "/") d)
      (ap not (is_suffix-append d (codes ".svn")))
      (ap not (is_suffix-append (d ++ codes "/") (codes ".svn")))

repository_name_total_example :
    (name : Text) × (cut : Text) × (repository_name same git_everywhere (codes "/w/src/a.cc")
      ≡ some name)
    × (cut ++ name ≡ full_name same (codes "/w/src/a.cc"))
repository_name_total_example =
    repository_name_total git_everywhere same (codes "/w/src/a.cc") no_svn

-- every directory has a `.svn`
abbrev svn_everywhere : Text → Bool
svn_everywhere p = is_suffix (codes "/.svn") p

root_is_top : dirname (codes "/") ≡ codes "/"
unfolding dirname path_head drop_while
root_is_top = refl

root_has_svn : has_svn svn_everywhere (codes "/") ≡ true
unfolding is_suffix is_prefix
root_has_svn = refl

svn_loop-stuck_example : svn_loop svn_everywhere 100 (codes "/") (codes "/") ≡ none
svn_loop-stuck_example =
    svn_loop-stuck svn_everywhere 100 (codes "/") (codes "/") root_is_top root_has_svn

own_header :
    classify_include (codes "foo/foo_test.cc") (codes "foo/foo-inl.h") false ≡ likely_my_header
unfolding classify_include drop_suffix dirname path_head splitext normpath normal_components
    first_component is_suffix is_prefix drop_while rstrip text_eq text_mem split_onto
own_header = refl

check_include_line_total_example :
    (s' : IncludeState) × (reports : List Report) × (check_include_line
        (codes "a.cc")
        (codes "a.cc")
        (codes "" ∷ codes "#include <b>" ∷ [])
        1
        (codes "#include <b>")
        new_include_state
      ≡ some (s', reports))
    × Knows new_include_state s'
check_include_line_total_example =
    check_include_line_total (codes "a.cc") (codes "a.cc") (codes "" ∷ codes "#include <b>" ∷ []) 1
      (codes "#include <b>") new_include_state (omega arith) new_include_state-HasSection

-- Below the root itself one character too many is cut off.
name_below_root :
    repository_name same (λ p. text_mem p (codes "/.git" ∷ codes "/a.cc" ∷ [])) (codes "/a.cc")
    ≡ some (codes ".cc")
unfolding repository_name_of full_name checkout_loop dirname path_head common_prefix rstrip
    drop_while text_eq text_mem is_suffix is_prefix
name_below_root = refl

abbrev a_included : IncludeState
a_included = record new_include_state { include_list = ((codes "base/a.h", 3) ∷ []) ∷ [] }

check_header_file_included_iff_example :
    (check_header_file_included
        (λ p. true)
        (codes "/x/base/a.cc")
        (codes "base/a.cc")
        (codes "base/a.h")
        a_included
      ≡ [])
    ↔ ((finds test_file_suffix (base_name (codes "base/a.cc"))
          || (not true || any_matches (codes "base/a.h") a_included.include_list))
        ≡ true)
check_header_file_included_iff_example =
    check_header_file_included_iff (λ p. true) (codes "/x/base/a.cc") (codes "base/a.cc")
      (codes "base/a.h") a_included
