-- ===== src/Nesting/Braces.antt =====
-- cpplint.py: the loops of `NestingState.Update` over the namespaces at the start of a line and over
-- its braces and semicolons.
pub mod Total
pub mod Depth
use dyod.Prelude.{
  ℕ, zero, suc, true, Option, none, some, List, [], ◌∷◌, Text, codes, drop, find, text_eq,
  if◌then◌else◌,
}
use dyod.Regex.{
  Re, Cursor, alts, opt, plus, seqs, star, grp, word_edge, at_start, at_end, lit, none_of, one_of,
  seq, alt, chr, space, dot, is_word, match, matches, group, group_text,
}
use dyod.Prelude.{◌==◌, ◌||◌}
use dyod.Report.{Report, add_reports}
use dyod.Cleanse.{CleansedLines}
use dyod.Nesting.{no_asm, block_asm, BlockInfo, new_block, plain_block, extern_c, seen_brace}
use dyod.Nesting.Blocks.{new_namespace_block, check_end}

-- `_MATCH_ASM`: `^\s*(?:asm|_asm|__asm|__asm__)(?:\s+(volatile|__volatile__))?\s*[{(]`
abbrev pub asm_pattern : Re
asm_pattern = seqs (
    at_start
    ∷ star space
    ∷ alts
        (lit (codes "asm") ∷ lit (codes "_asm") ∷ lit (codes "__asm") ∷ lit (codes "__asm__") ∷ [])
    ∷ opt (seq (plus space) (grp 1 (alt (lit (codes "volatile")) (lit (codes "__volatile__")))))
    ∷ star space
    ∷ one_of (codes "{(")
    ∷ [])

-- `^\s*namespace\b\s*([:\w]+)?(.*)$`
abbrev pub namespace_pattern : Re
namespace_pattern = seqs (
    at_start
    ∷ star space
    ∷ lit (codes "namespace")
    ∷ word_edge
    ∷ star space
    ∷ opt (grp 1 (plus (chr (λ c. c == b':' || is_word c))))
    ∷ grp 2 (star dot)
    ∷ at_end
    ∷ [])

-- What a loop leaves: the rest of the line, and the stack.
pub data Rest : Type 0 where
  rest_of : Text → List BlockInfo → Rest

-- a namespace, by the place of the brace in the text behind its name
abbrev pub namespace_on : BlockInfo → Text → Option ℕ → List BlockInfo → Rest
namespace_on b line none st = rest_of line (b ∷ st)
namespace_on b line (some i) st =
    rest_of (drop (suc i) line) (record b { seen_open_brace = true } ∷ st)

abbrev pub next_rest : (Text → List BlockInfo → Option Rest) → Rest → Option Rest
next_rest next (rest_of line st) = next line st

abbrev pub next_namespace :
    (Text → List BlockInfo → Option Rest) → ℕ → Text → List BlockInfo → Option Cursor → Option Rest
next_namespace next linenum line st none = some (rest_of line st)
next_namespace next linenum line st (some m) = next_rest next (
    namespace_on (new_namespace_block (group 1 m) linenum) (group_text 2 m)
      (find (codes "{") (group_text 2 m)) st)

-- `while True`, on fuel: every round leaves a shorter line.
unfoldable pub namespace_loop : ℕ → ℕ → Text → List BlockInfo → Option Rest
namespace_loop zero linenum line st = none
namespace_loop (suc fuel) linenum line st =
    next_namespace (namespace_loop fuel linenum) linenum line st (match namespace_pattern line)

-- `^[^{;)}]*([{;)}])(.*)$`
abbrev pub brace_pattern : Re
brace_pattern = seqs (
    at_start
    ∷ star (none_of (codes "{;)}"))
    ∷ grp 1 (one_of (codes "{;)}"))
    ∷ grp 2 (star dot)
    ∷ at_end
    ∷ [])

-- `^extern\s*"[^"]*"\s*\{`
abbrev pub extern_c_pattern : Re
extern_c_pattern = seqs (
    at_start
    ∷ lit (codes "extern")
    ∷ star space
    ∷ lit (codes "\"")
    ∷ star (none_of (codes "\""))
    ∷ lit (codes "\"")
    ∷ star space
    ∷ lit (codes "{")
    ∷ [])

-- the block that a brace opens
abbrev pub opened_block : ℕ → Text → BlockInfo
opened_block linenum line =
    if matches extern_c_pattern line
    then new_block linenum true extern_c
    else record (new_block linenum true plain_block) {
      inline_asm = if matches asm_pattern line then block_asm else no_asm;
    }

abbrev pub mark_top : List BlockInfo → List BlockInfo
mark_top [] = []
mark_top (b ∷ st) = record b { seen_open_brace = true } ∷ st

abbrev pub pop : List BlockInfo → List BlockInfo
pop [] = []
pop (b ∷ st) = st

-- what the token does to the stack
unfoldable pub brace_stack : ℕ → Text → Text → List BlockInfo → List BlockInfo
brace_stack linenum line token st =
    if text_eq token (codes "{")
    then (if seen_brace st then opened_block linenum line ∷ st else mark_top st)
    else if text_eq token (codes ";") || text_eq token (codes ")")
    then (if seen_brace st then st else pop st)
    else pop st

abbrev pub check_end_top : Text → CleansedLines → ℕ → List BlockInfo → List Report
check_end_top filename clean_lines linenum [] = []
check_end_top filename clean_lines linenum (b ∷ st) = check_end filename clean_lines linenum b

-- what it reports
unfoldable pub brace_reports : Text → CleansedLines → ℕ → Text → List BlockInfo → List Report
brace_reports filename clean_lines linenum token st =
    if text_eq token (codes "{") || text_eq token (codes ";") || text_eq token (codes ")")
    then []
    else check_end_top filename clean_lines linenum st

abbrev pub next_brace :
    (Text → List BlockInfo → Option (List BlockInfo × List Report))
    → Text
    → CleansedLines
    → ℕ
    → Text
    → List BlockInfo
    → Option Cursor
    → Option (List BlockInfo × List Report)
next_brace next filename clean_lines linenum line st none = some (st, [])
next_brace next filename clean_lines linenum line st (some m) =
    add_reports (brace_reports filename clean_lines linenum (group_text 1 m) st)
      (next (group_text 2 m) (brace_stack linenum line (group_text 1 m) st))

-- `while True`, on fuel: every round leaves a shorter line.
unfoldable pub brace_loop :
    ℕ → Text → CleansedLines → ℕ → Text → List BlockInfo → Option (List BlockInfo × List Report)
brace_loop zero filename clean_lines linenum line st = none
brace_loop (suc fuel) filename clean_lines linenum line st =
    next_brace (brace_loop fuel filename clean_lines linenum) filename clean_lines linenum line st
      (match brace_pattern line)
