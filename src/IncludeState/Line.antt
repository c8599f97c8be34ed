-- ===== src/IncludeState/Line.antt =====
-- cpplint.py: `_CPP_HEADERS`, `_DropCommonSuffixes`, `_ClassifyInclude` and `CheckIncludeLine`. The
-- current file is known by its `RepositoryName`.
pub mod Total
use dyod.Prelude.{
  ℕ, ◌-◌, Bool, not, ◌&&◌, ◌||◌, Option, none, some, List, [], ◌∷◌, ◌++◌, Text, codes, length, take,
  char_mem, is_empty, is_suffix, leb, text_eq, text_mem, if◌then◌else◌,
}
use dyod.Regex.{
  Re, Cursor, alts, at_end, at_start, chr, grp, lit, match, matches, none_of, plus, search, seq,
  seqs, space, star, group_text,
}
use dyod.Report.{Report, report, show, add_reports}
use dyod.Cleanse.Collapse.{include_line_pattern}
use dyod.Files.{base_name}
use dyod.Files.Paths.{split_path, splitext, dirname, normpath}
use dyod.IncludeState.{
  HeaderType, c_sys_header, cpp_sys_header, likely_my_header, possible_my_header, other_header,
  IncludeState, find_header, add_header, set_last_header, canonicalize_alphabetical_order,
  is_in_alphabetical_order, check_next_include_order,
}

abbrev pub cpp_headers : List Text
cpp_headers =
    codes "algobase.h"
    ∷ codes "algo.h"
    ∷ codes "alloc.h"
    ∷ codes "builtinbuf.h"
    ∷ codes "bvector.h"
    ∷ codes "complex.h"
    ∷ codes "defalloc.h"
    ∷ codes "deque.h"
    ∷ codes "editbuf.h"
    ∷ codes "fstream.h"
    ∷ codes "function.h"
    ∷ codes "hash_map"
    ∷ codes "hash_map.h"
    ∷ codes "hash_set"
    ∷ codes "hash_set.h"
    ∷ codes "hashtable.h"
    ∷ codes "heap.h"
    ∷ codes "indstream.h"
    ∷ codes "iomanip.h"
    ∷ codes "iostream.h"
    ∷ codes "istream.h"
    ∷ codes "iterator.h"
    ∷ codes "list.h"
    ∷ codes "map.h"
    ∷ codes "multimap.h"
    ∷ codes "multiset.h"
    ∷ codes "ostream.h"
    ∷ codes "pair.h"
    ∷ codes "parsestream.h"
    ∷ codes "pfstream.h"
    ∷ codes "procbuf.h"
    ∷ codes "pthread_alloc"
    ∷ codes "pthread_alloc.h"
    ∷ codes "rope"
    ∷ codes "rope.h"
    ∷ codes "ropeimpl.h"
    ∷ codes "set.h"
    ∷ codes "slist"
    ∷ codes "slist.h"
    ∷ codes "stack.h"
    ∷ codes "stdiostream.h"
    ∷ codes "stl_alloc.h"
    ∷ codes "stl_relops.h"
    ∷ codes "streambuf.h"
    ∷ codes "stream.h"
    ∷ codes "strfile.h"
    ∷ codes "strstream.h"
    ∷ codes "tempbuf.h"
    ∷ codes "tree.h"
    ∷ codes "type_traits.h"
    ∷ codes "vector.h"
    ∷ codes "algorithm"
    ∷ codes "array"
    ∷ codes "atomic"
    ∷ codes "bitset"
    ∷ codes "chrono"
    ∷ codes "codecvt"
    ∷ codes "complex"
    ∷ codes "condition_variable"
    ∷ codes "deque"
    ∷ codes "exception"
    ∷ codes "forward_list"
    ∷ codes "fstream"
    ∷ codes "functional"
    ∷ codes "future"
    ∷ codes "initializer_list"
    ∷ codes "iomanip"
    ∷ codes "ios"
    ∷ codes "iosfwd"
    ∷ codes "iostream"
    ∷ codes "istream"
    ∷ codes "iterator"
    ∷ codes "limits"
    ∷ codes "list"
    ∷ codes "locale"
    ∷ codes "map"
    ∷ codes "memory"
    ∷ codes "mutex"
    ∷ codes "new"
    ∷ codes "numeric"
    ∷ codes "optional"
    ∷ codes "ostream"
    ∷ codes "queue"
    ∷ codes "random"
    ∷ codes "ratio"
    ∷ codes "regex"
    ∷ codes "scoped_allocator"
    ∷ codes "set"
    ∷ codes "sstream"
    ∷ codes "stack"
    ∷ codes "stdexcept"
    ∷ codes "streambuf"
    ∷ codes "string"
    ∷ codes "strstream"
    ∷ codes "system_error"
    ∷ codes "thread"
    ∷ codes "tuple"
    ∷ codes "typeindex"
    ∷ codes "typeinfo"
    ∷ codes "type_traits"
    ∷ codes "unordered_map"
    ∷ codes "unordered_set"
    ∷ codes "utility"
    ∷ codes "valarray"
    ∷ codes "vector"
    ∷ codes "cassert"
    ∷ codes "ccomplex"
    ∷ codes "cctype"
    ∷ codes "cerrno"
    ∷ codes "cfenv"
    ∷ codes "cfloat"
    ∷ codes "cinttypes"
    ∷ codes "ciso646"
    ∷ codes "climits"
    ∷ codes "clocale"
    ∷ codes "cmath"
    ∷ codes "csetjmp"
    ∷ codes "csignal"
    ∷ codes "cstdalign"
    ∷ codes "cstdarg"
    ∷ codes "cstdbool"
    ∷ codes "cstddef"
    ∷ codes "cstdint"
    ∷ codes "cstdio"
    ∷ codes "cstdlib"
    ∷ codes "cstring"
    ∷ codes "ctgmath"
    ∷ codes "ctime"
    ∷ codes "cuchar"
    ∷ codes "cwchar"
    ∷ codes "cwctype"
    ∷ []

abbrev common_suffixes : List Text
common_suffixes =
    codes "test.cc"
    ∷ codes "regtest.cc"
    ∷ codes "unittest.cc"
    ∷ codes "inl.h"
    ∷ codes "impl.h"
    ∷ codes "internal.h"
    ∷ []

-- the character in front of the suffix is `-` or `_`
abbrev has_suffix : Text → Text → Bool
has_suffix filename suffix =
    is_suffix suffix filename
    && (is_suffix (codes "-" ++ suffix) filename || is_suffix (codes "_" ++ suffix) filename)

-- `os.path.splitext(filename)[0]` of a path: the extension is that of its last component
abbrev pub without_extension : Text → Text
without_extension filename =
    take (length filename - length (splitext (split_path filename).1).1) filename

unfoldable pub drop_suffix : Text → List Text → Text
drop_suffix filename [] = without_extension filename
drop_suffix filename (suffix ∷ suffixes) =
    let later = drop_suffix filename suffixes in
    if has_suffix filename suffix
    then take (length filename - length suffix - 1) filename
    else later

abbrev pub drop_common_suffixes : Text → Text
drop_common_suffixes filename = drop_suffix filename common_suffixes

-- `_RE_FIRST_COMPONENT`: the match of `^[^-_.]+`, empty if there is none
unfoldable pub first_component : Text → Text
first_component [] = []
first_component (c ∷ s) = if char_mem c (codes "-_.") then [] else c ∷ first_component s

unfoldable pub classify_include : Text → Text → Bool → HeaderType
classify_include repository include is_system =
    let (target_dir, target_base) = split_path (drop_common_suffixes repository) in
    let (include_dir, include_base) = split_path (drop_common_suffixes include) in
    let first = first_component target_base in
    if is_system
    then (if text_mem include cpp_headers then cpp_sys_header else c_sys_header)
    else if text_eq target_base include_base
        && (text_eq include_dir target_dir
            || text_eq include_dir (normpath (target_dir ++ codes "/../public")))
    then likely_my_header
    else if not (is_empty first) && text_eq first (first_component include_base)
    then possible_my_header
    else other_header

-- `#include\s*"([^/]+\.h)"`
abbrev pub bare_include_pattern : Re
bare_include_pattern = seqs (
    lit (codes "#include")
    ∷ star space
    ∷ lit (codes "\"")
    ∷ grp 1 (seq (plus (none_of (codes "/"))) (lit (codes ".h")))
    ∷ lit (codes "\"")
    ∷ [])

abbrev is_upper : ℕ → Bool
is_upper c = leb b'A' c && leb c b'Z'

-- `_THIRD_PARTY_HEADERS_PATTERN`: `^(?:[^/]*[A-Z][^/]*\.h|lua\.h|lauxlib\.h|lualib\.h)$`
abbrev pub third_party_headers_pattern : Re
third_party_headers_pattern = seqs (
    at_start
    ∷ alts (
        seqs (
          star (none_of (codes "/"))
          ∷ chr is_upper
          ∷ star (none_of (codes "/"))
          ∷ lit (codes ".h")
          ∷ [])
        ∷ lit (codes "lua.h")
        ∷ lit (codes "lauxlib.h")
        ∷ lit (codes "lualib.h")
        ∷ [])
    ∷ at_end
    ∷ [])

module _ (filename repository : Text) (elided : List Text) (linenum : ℕ) where
  pub include_report : Text → Text → Report
  include_report category message = report filename linenum category 4 message

  abbrev naming_reports : Option Cursor → List Report
  naming_reports none = []
  naming_reports (some m) =
      if matches third_party_headers_pattern (group_text 1 m)
      then []
      else include_report (codes "build/include")
          (codes "Include the directory when naming .h files")
        ∷ []

  pub duplicate_report : Text → ℕ → Report
  duplicate_report include duplicate_line = include_report (codes "build/include") (
      codes "\""
      ++ include
      ++ codes "\" already included at "
      ++ filename
      ++ codes ":"
      ++ show duplicate_line)

  pub package_report : Report
  package_report =
      include_report (codes "build/include") (codes "Do not include .cc files from other packages")

  abbrev order_reports : Text → List Report
  order_reports error_message =
      if is_empty error_message
      then []
      else include_report (codes "build/include_order") (
          error_message
          ++ codes ". Should be: "
          ++ base_name repository
          ++ codes ".h, c system, c++ system, other.")
        ∷ []

  abbrev alphabet_reports : Text → Bool → List Report
  alphabet_reports include sorted =
      if sorted
      then []
      else include_report (codes "build/include_alpha")
          (codes "Include \"" ++ include ++ codes "\" not in alphabetical order")
        ∷ []

  abbrev pub sorted_header :
      Text → IncludeState → List Report → Option Bool → Option (IncludeState × List Report)
  sorted_header include s reports none = none
  sorted_header include s reports (some sorted) = some (
    set_last_header (canonicalize_alphabetical_order include) s,
    reports ++ alphabet_reports include sorted,
  )

  abbrev pub ordered_header : Text → IncludeState × Text → Option (IncludeState × List Report)
  ordered_header include (s, error_message) =
      sorted_header include s (order_reports error_message)
        (is_in_alphabetical_order elided linenum (canonicalize_alphabetical_order include) s)

  -- a header that is taken into the list
  abbrev pub new_header : Text → Bool → IncludeState → Option (IncludeState × List Report)
  new_header include is_system s = ordered_header include (
      check_next_include_order (classify_include repository include is_system)
        (add_header include linenum s))

  abbrev pub include_header :
      Text → Bool → IncludeState → Option ℕ → Option (IncludeState × List Report)
  include_header include is_system s (some duplicate_line) =
      some (s, duplicate_report include duplicate_line ∷ [])
  include_header include is_system s none =
      if is_suffix (codes ".cc") include && not (text_eq (dirname repository) (dirname include))
      then some (s, package_report ∷ [])
      else if matches third_party_headers_pattern include
      then some (s, [])
      else new_header include is_system s

  abbrev pub include_match :
      IncludeState → Option (ℕ × Cursor) → Option (IncludeState × List Report)
  include_match s none = some (s, [])
  include_match s (some (start, m)) =
      include_header (group_text 2 m) (text_eq (group_text 1 m) (codes "<")) s
        (find_header (group_text 2 m) s)

  -- `CheckIncludeLine`, at the given line of `lines`; `none` is an index out of range.
  unfoldable pub check_include_line : Text → IncludeState → Option (IncludeState × List Report)
  check_include_line line s =
      add_reports (naming_reports (match bare_include_pattern line))
        (include_match s (search include_line_pattern line))
