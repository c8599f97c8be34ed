-- ===== src/Nesting/Update.antt =====
-- cpplint.py: `NestingState.Update`.
pub mod Total
use dyod.Prelude.{
  ℕ, suc, ◌+◌, Bool, true, false, not, ◌&&◌, Option, none, some, List, [], ◌∷◌, ◌++◌, Text, codes,
  get_elem?, get_or, length, count_char, ◌==◌, if◌then◌else◌, ℤ, ◌⊖◌, ◌+ℤ◌, is_pos,
}
use dyod.Regex.{
  Re, Cursor, alt, alts, at_end, at_start, dot, grp, lit, match, matches, none_of, one_of, opt,
  plus, seq, seqs, space, star, word, word_edge, group, group_text,
}
use dyod.Report.{Report, report, add_reports}
use dyod.Cleanse.{CleansedLines}
use dyod.Nesting.{
  AsmState, no_asm, inside_asm, end_asm, block_asm, ClassInfo, BlockKind, class_block, BlockInfo,
  NestingState, top,
}
use dyod.Nesting.Blocks.{new_class_block, check_begin, parent_name, blank_pattern, or_empty}
use dyod.Nesting.Preprocessor.{update_preprocessor}
use dyod.Nesting.Template.{in_template_argument_list}
use dyod.Nesting.Braces.{asm_pattern, Rest, rest_of, namespace_loop, brace_loop}

-- `line.count('(') - line.count(')')`
abbrev pub depth_change : Text → ℤ
depth_change line = count_char b'(' line ⊖ count_char b')' line

-- the assembly state, with the change of the parentheses and their number after the line
abbrev pub next_asm : Text → ℤ → ℤ → AsmState → AsmState
next_asm line change opened inside_asm = if is_pos 0 opened then end_asm else inside_asm
next_asm line change opened block_asm = block_asm
next_asm line change opened no_asm =
    if not (is_pos 0 change) && is_pos 1 opened && matches asm_pattern line
    then inside_asm
    else no_asm
next_asm line change opened end_asm =
    if not (is_pos 0 change) && is_pos 1 opened && matches asm_pattern line
    then inside_asm
    else no_asm

-- the parentheses of a line
abbrev pub count_parentheses : Text → List BlockInfo → List BlockInfo
count_parentheses line [] = []
count_parentheses line (b ∷ st) =
    let opened = b.open_parentheses +ℤ depth_change line in
    record b {
      open_parentheses = opened;
      inline_asm = next_asm line (depth_change line) opened b.inline_asm;
    }
    ∷ st

-- `^(\s*(?:template\s*<[\w\s<>,:]*>\s*)?(class|struct)\s+(?:[A-Z_]+\s+)*(\w+(?:::\w+)*))(.*)$`
abbrev pub class_pattern : Re
class_pattern = seqs (
    at_start
    ∷ grp 1 (
        seqs (
          star space
          ∷ opt (
              seqs (
                lit (codes "template")
                ∷ star space
                ∷ lit (codes "<")
                ∷ star (alts (word ∷ space ∷ one_of (codes "<>,:") ∷ []))
                ∷ lit (codes ">")
                ∷ star space
                ∷ []))
          ∷ grp 2 (alt (lit (codes "class")) (lit (codes "struct")))
          ∷ plus space
          ∷ star (seq (plus (one_of (codes "ABCDEFGHIJKLMNOPQRSTUVWXYZ_"))) (plus space))
          ∷ grp 3 (seq (plus word) (star (seq (lit (codes "::")) (plus word))))
          ∷ []))
    ∷ grp 4 (star dot)
    ∷ at_end
    ∷ [])

-- no parenthesis is open in the innermost block
abbrev pub no_parentheses : List BlockInfo → Bool
no_parentheses [] = true
no_parentheses (b ∷ st) = is_pos 0 b.open_parentheses

abbrev pub class_on : CleansedLines → ℕ → Text → List BlockInfo → Cursor → Option Bool → Option Rest
class_on clean_lines linenum line st m none = none
class_on clean_lines linenum line st m (some true) = some (rest_of line st)
class_on clean_lines linenum line st m (some false) = some (
    rest_of (group_text 4 m)
      (new_class_block (group_text 3 m) (group_text 2 m) clean_lines linenum ∷ st))

-- The declaration of a class in what is left of the line. The position is one in what is left of
-- the line, but it is looked at in the whole line, as in the source.
abbrev pub class_match : CleansedLines → ℕ → Text → List BlockInfo → Option Cursor → Option Rest
class_match clean_lines linenum line st none = some (rest_of line st)
class_match clean_lines linenum line st (some m) =
    if no_parentheses st
    then class_on clean_lines linenum line st m
        (in_template_argument_list clean_lines.elided linenum (length (group_text 1 m)))
    else some (rest_of line st)

abbrev pub declare_class : CleansedLines → ℕ → Rest → Option Rest
declare_class clean_lines linenum (rest_of line st) =
    class_match clean_lines linenum line st (match class_pattern line)

-- `CheckBegin` of the innermost block, while its brace has not been seen
abbrev pub check_begin_top : Text → List BlockInfo → List BlockInfo
check_begin_top line [] = []
check_begin_top line (b ∷ st) = (if b.seen_open_brace then b else check_begin line b) ∷ st

-- `^(.*)\b(public|private|protected|signals)(\s+(?:slots\s*)?)?:(?:[^:]|$)`
abbrev pub access_pattern : Re
access_pattern = seqs (
    at_start
    ∷ grp 1 (star dot)
    ∷ word_edge
    ∷ grp 2 (
        alts (
          lit (codes "public")
          ∷ lit (codes "private")
          ∷ lit (codes "protected")
          ∷ lit (codes "signals")
          ∷ []))
    ∷ opt (grp 3 (seq (plus space) (opt (seq (lit (codes "slots")) (star space)))))
    ∷ lit (codes ":")
    ∷ alt (none_of (codes ":")) at_end
    ∷ [])

pub access_report : Text → ℕ → Text → Text → Text → Report
access_report filename linenum access slots parent =
    report filename linenum (codes "whitespace/indent") 3
      (access ++ slots ++ codes ": should be indented +1 space inside " ++ parent)

-- the report on an access specifier of a class
abbrev pub access_reports : Text → ℕ → ClassInfo → Cursor → List Report
access_reports filename linenum c m =
    if length (group_text 1 m) == c.class_indent + 1
    then []
    else if matches blank_pattern (group_text 1 m)
    then access_report filename linenum (group_text 2 m) (or_empty (group 3 m)) (parent_name c) ∷ []
    else []

abbrev pub access_class :
    Text → ℕ → BlockInfo → List BlockInfo → ClassInfo → Option Cursor → List BlockInfo × List Report
access_class filename linenum b st c none = (b ∷ st, [])
access_class filename linenum b st c (some m) = (
  record b { kind = class_block (record c { access = group_text 2 m }) } ∷ st,
  access_reports filename linenum c m,
)

abbrev pub access_on :
    Text → ℕ → Text → BlockInfo → List BlockInfo → BlockKind → List BlockInfo × List Report
access_on filename linenum line b st (class_block c) =
    access_class filename linenum b st c (match access_pattern line)
access_on filename linenum line b st kind = (b ∷ st, [])

-- the access control of the innermost block, if this is a class
unfoldable pub update_access : Text → ℕ → Text → List BlockInfo → List BlockInfo × List Report
update_access filename linenum line [] = ([], [])
update_access filename linenum line (b ∷ st) = access_on filename linenum line b st b.kind

-- the braces and semicolons of what is left of the line
abbrev pub finish_line :
    Text
    → CleansedLines
    → ℕ
    → Text
    → List BlockInfo × List Report
    → Option (List BlockInfo × List Report)
finish_line filename clean_lines linenum line (st, reports) =
    add_reports reports (brace_loop (suc (length line)) filename clean_lines linenum line st)

abbrev pub after_class :
    Text → CleansedLines → ℕ → Option Rest → Option (List BlockInfo × List Report)
after_class filename clean_lines linenum none = none
after_class filename clean_lines linenum (some (rest_of line st)) =
    finish_line filename clean_lines linenum line (
      update_access filename linenum line
        (check_begin_top (get_or clean_lines.elided linenum []) st))

abbrev pub after_namespaces :
    Text → CleansedLines → ℕ → Option Rest → Option (List BlockInfo × List Report)
after_namespaces filename clean_lines linenum none = none
after_namespaces filename clean_lines linenum (some r) =
    after_class filename clean_lines linenum (declare_class clean_lines linenum r)

-- what `Update` does to the stack behind `UpdatePreprocessor`
unfoldable pub update_stack :
    Text → CleansedLines → ℕ → Text → List BlockInfo → Option (List BlockInfo × List Report)
update_stack filename clean_lines linenum line st =
    after_namespaces filename clean_lines linenum
      (namespace_loop (suc (length line)) linenum line (count_parentheses line st))

abbrev pub with_stack :
    NestingState → Option (List BlockInfo × List Report) → Option (NestingState × List Report)
with_stack s none = none
with_stack s (some (st, reports)) = some (record s { stack = st }, reports)

abbrev pub update_line :
    Text → CleansedLines → ℕ → NestingState → Option Text → Option (NestingState × List Report)
update_line filename clean_lines linenum s none = none
update_line filename clean_lines linenum s (some line) =
    let s' = update_preprocessor line (record s { previous_stack_top = top s.stack }) in
    with_stack s' (update_stack filename clean_lines linenum line s'.stack)

-- `Update`; `none` is a line number out of range.
unfoldable pub update :
    Text → CleansedLines → ℕ → NestingState → Option (NestingState × List Report)
update filename clean_lines linenum s =
    update_line filename clean_lines linenum s (get_elem? clean_lines.elided linenum)
