-- ===== src/Nesting/Blocks.antt =====
-- cpplint.py: the constructors and the checks of `_ClassInfo` and `_NamespaceInfo`, and
-- `CheckCompletedBlocks`. The lists of a `CleansedLines` have one length, so that a line that the
-- one has is in the others too. A class's name consists of word characters and colons, so that the
-- pattern it is put into takes it literally.
pub mod Reports
pub mod ClassEnd
use dyod.Prelude.{
  ℕ, suc, ◌+◌, Bool, true, false, not, ◌&&◌, Option, none, some, List, [], ◌∷◌, ◌++◌, Text, codes,
  get_or, length, take, drop, count_char, text_eq, ltb, ◌==◌, if◌then◌else◌, ℤ, pos, ◌⊖◌, ◌+ℤ◌,
  is_pos, is_empty,
}
use mathlib.Core.List.{reverse}
use dyod.Regex.{
  Re, Cursor, alt, star, grp, word_edge, at_start, at_end, lit, seqs, none_of, one_of, plus, space,
  non_space, dot, blank, match, matches, finds, search, group_text,
}
use dyod.Report.{Report, report}
use dyod.Cleanse.{CleansedLines}
use dyod.Nesting.{
  ClassInfo, BlockKind, plain_block, extern_c, class_block, namespace_block, BlockInfo, new_block,
  NestingState,
}

-- `^( *)\S`
abbrev pub indent_pattern : Re
indent_pattern = seqs (at_start ∷ grp 1 (star blank) ∷ non_space ∷ [])

abbrev indent_of : Option Cursor → ℕ
indent_of none = 0
indent_of (some m) = length (group_text 1 m)

unfoldable pub get_indent_level : Text → ℕ
get_indent_level line = indent_of (match indent_pattern line)

-- the braces that a line opens, less those that it closes
abbrev pub brace_change : Text → ℤ
brace_change line = count_char b'{' line ⊖ count_char b'}' line

-- the loop of `_ClassInfo.__init__`, at line `i`, over it and the lines behind
unfoldable pub find_class_end : ℤ → ℕ → List Text → ℕ
find_class_end depth i [] = 0
find_class_end depth i (line ∷ lines) =
    let later = find_class_end (depth +ℤ brace_change line) (suc i) lines in
    if is_pos 0 (depth +ℤ brace_change line) then i else later

unfoldable pub new_class : Text → Text → CleansedLines → ℕ → ClassInfo
new_class name class_or_struct clean_lines linenum =
    let is_struct = text_eq class_or_struct (codes "struct") in
    record {
      name = name;
      is_derived = false;
      access = if is_struct then codes "public" else codes "private";
      is_struct = is_struct;
      class_indent = get_indent_level (get_or clean_lines.raw_lines linenum []);
      last_line = find_class_end (pos 0) linenum (drop linenum clean_lines.elided);
    }

abbrev pub new_class_block : Text → Text → CleansedLines → ℕ → BlockInfo
new_class_block name class_or_struct clean_lines linenum =
    new_block linenum false (class_block (new_class name class_or_struct clean_lines linenum))

abbrev pub or_empty : Option Text → Text
or_empty none = []
or_empty (some name) = name

abbrev pub new_namespace_block : Option Text → ℕ → BlockInfo
new_namespace_block name linenum = new_block linenum false (namespace_block (or_empty name))

-- `(^|[^:]):($|[^:])`
abbrev pub bare_colon_pattern : Re
bare_colon_pattern =
    seqs
      (alt at_start (none_of (codes ":")) ∷ lit (codes ":") ∷ alt at_end (none_of (codes ":")) ∷ [])

abbrev pub begin_kind : Text → BlockKind → BlockKind
begin_kind line (class_block c) =
    class_block (if finds bare_colon_pattern line then record c { is_derived = true } else c)
begin_kind line kind = kind

-- `CheckBegin`, at a line of `elided`
abbrev pub check_begin : Text → BlockInfo → BlockInfo
check_begin line b = record b { kind = begin_kind line b.kind }

-- `'class ' + name` or `'struct ' + name`
abbrev pub parent_name : ClassInfo → Text
parent_name c = (if c.is_struct then codes "struct " else codes "class ") ++ c.name

-- `\b(DISALLOW_COPY_AND_ASSIGN|DISALLOW_IMPLICIT_CONSTRUCTORS)\(name\)`
abbrev pub disallow_pattern : Text → Re
disallow_pattern name = seqs (
    word_edge
    ∷ grp 1 (
        alt (lit (codes "DISALLOW_COPY_AND_ASSIGN")) (lit (codes "DISALLOW_IMPLICIT_CONSTRUCTORS")))
    ∷ lit (codes "(" ++ name ++ codes ")")
    ∷ [])

pub disallow_report : Text → ℕ → Text → Report
disallow_report filename i macro =
    report filename i (codes "readability/constructors") 3
      (macro ++ codes " should be the last thing in the class")

-- `^\s*$`
abbrev pub blank_pattern : Re
blank_pattern = seqs (at_start ∷ star space ∷ at_end ∷ [])

abbrev disallow_on : Text → ℕ → Bool → Option (ℕ × Cursor) → List Report → List Report
disallow_on filename i seen none rest = rest
disallow_on filename i seen (some (start, m)) rest =
    if seen then disallow_report filename i (group_text 1 m) ∷ [] else []

-- The loop of `_ClassInfo.CheckEnd` over the lines of the class, the last one first; the class
-- starts at line `start`. Only its first match is reported, and only behind something else.
unfoldable pub check_disallow : Text → ℕ → Text → Bool → List Text → List Report
check_disallow filename start name seen [] = []
check_disallow filename start name seen (line ∷ lines) =
    let rest =
      check_disallow filename start name (if matches blank_pattern line then seen else true)
        lines in
    disallow_on filename (start + suc (length lines)) seen (search (disallow_pattern name) line)
      rest

-- `^( *)\}`
abbrev pub closing_brace_pattern : Re
closing_brace_pattern = seqs (at_start ∷ grp 1 (star blank) ∷ lit (codes "}") ∷ [])

pub alignment_report : Text → ℕ → ClassInfo → Report
alignment_report filename linenum c =
    report filename linenum (codes "whitespace/indent") 3
      (codes "Closing brace should be aligned with beginning of " ++ parent_name c)

abbrev alignment : Text → ℕ → ClassInfo → Option Cursor → List Report
alignment filename linenum c none = []
alignment filename linenum c (some m) =
    if length (group_text 1 m) == c.class_indent
    then []
    else alignment_report filename linenum c ∷ []

-- `_ClassInfo.CheckEnd`, of the class that starts at line `start`
unfoldable pub check_end_class : Text → CleansedLines → ℕ → ℕ → ClassInfo → List Report
check_end_class filename clean_lines linenum start c =
    check_disallow filename start c.name false
      (reverse (drop (suc start) (take linenum clean_lines.elided)))
    ++ alignment filename linenum c
        (match closing_brace_pattern (get_or clean_lines.elided linenum []))

-- `^\s*};*\s*(//|/\*).*\bnamespace`, followed by a pattern
abbrev pub namespace_comment : List Re → Re
namespace_comment rs = seqs (
    at_start
    ∷ star space
    ∷ lit (codes "}")
    ∷ star (lit (codes ";"))
    ∷ star space
    ∷ grp 1 (alt (lit (codes "//")) (lit (codes "/*")))
    ∷ star dot
    ∷ word_edge
    ∷ lit (codes "namespace")
    ∷ rs)

-- `[\*/\.\\\s]*$`
abbrev pub comment_end : List Re
comment_end = star (alt (one_of (codes "*/.\\")) space) ∷ at_end ∷ []

-- `^\s*}.*\b(namespace anonymous|anonymous namespace)\b`
abbrev pub anonymous_pattern : Re
anonymous_pattern = seqs (
    at_start
    ∷ star space
    ∷ lit (codes "}")
    ∷ star dot
    ∷ word_edge
    ∷ grp 1 (alt (lit (codes "namespace anonymous")) (lit (codes "anonymous namespace")))
    ∷ word_edge
    ∷ [])

pub namespace_report : Text → ℕ → Text → Report
namespace_report filename linenum message =
    report filename linenum (codes "readability/namespace") 5 message

pub named_message : Text → Text
named_message name =
    codes "Namespace should be terminated with \"// namespace " ++ name ++ codes "\""

pub unnamed_message : Bool → Text
unnamed_message mentions =
    codes "Anonymous namespace should be terminated with \"// namespace\""
    ++ (if mentions then codes " or \"// anonymous namespace\"" else [])

unfoldable pub check_end_namespace : Text → CleansedLines → ℕ → ℕ → Text → List Report
check_end_namespace filename clean_lines linenum start name =
    let line = get_or clean_lines.raw_lines linenum [] in
    if ltb linenum (start + 10) && not (matches (namespace_comment (word_edge ∷ [])) line)
    then []
    else if is_empty name
    then (if matches (namespace_comment comment_end) line
        then []
        else namespace_report filename linenum (unnamed_message (matches anonymous_pattern line))
          ∷ [])
    else if matches (namespace_comment (plus space ∷ lit name ∷ comment_end)) line
    then []
    else namespace_report filename linenum (named_message name) ∷ []

-- `CheckEnd` of a block that starts at line `start`, by its class
abbrev pub check_end_kind : Text → CleansedLines → ℕ → ℕ → BlockKind → List Report
check_end_kind filename clean_lines linenum start plain_block = []
check_end_kind filename clean_lines linenum start extern_c = []
check_end_kind filename clean_lines linenum start (class_block c) =
    check_end_class filename clean_lines linenum start c
check_end_kind filename clean_lines linenum start (namespace_block name) =
    check_end_namespace filename clean_lines linenum start name

abbrev pub check_end : Text → CleansedLines → ℕ → BlockInfo → List Report
check_end filename clean_lines linenum b =
    check_end_kind filename clean_lines linenum b.starting_linenum b.kind

pub incomplete_report : Text → ℕ → Text → Text → Text → Report
incomplete_report filename linenum category what name =
    report filename linenum category 5
      (codes "Failed to find complete declaration of " ++ what ++ name)

abbrev pub incomplete_kind : Text → ℕ → BlockKind → List Report
incomplete_kind filename start plain_block = []
incomplete_kind filename start extern_c = []
incomplete_kind filename start (class_block c) =
    incomplete_report filename start (codes "build/class") (codes "class ") c.name ∷ []
incomplete_kind filename start (namespace_block name) =
    incomplete_report filename start (codes "build/namespaces") (codes "namespace ") name ∷ []

abbrev pub incomplete : Text → BlockInfo → List Report
incomplete filename b = incomplete_kind filename b.starting_linenum b.kind

-- `CheckCompletedBlocks`: the loop goes from the bottom of the stack, which is its end here
abbrev pub incomplete_blocks : Text → List BlockInfo → List Report
incomplete_blocks filename [] = []
incomplete_blocks filename (b ∷ bs) = incomplete_blocks filename bs ++ incomplete filename b

unfoldable pub check_completed_blocks : Text → NestingState → List Report
check_completed_blocks filename s = incomplete_blocks filename s.stack
