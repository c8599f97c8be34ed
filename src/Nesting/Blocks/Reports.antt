-- ===== src/Nesting/Blocks/Reports.antt =====
-- The lines that the checks of blocks report on.
use dyod.Prelude.{
  length-reverse, ℕ, suc, ◌+◌, ◌≤◌, Bool, true, not, ◌&&◌, Option, none, some, List, [], ◌∷◌, ◌++◌,
  arith, length, length-take, length-drop, take, drop, get_or, All, Text, if_both, ltb, ◌==◌,
  is_empty, false, if◌then◌else◌,
}
use mathlib.Core.List.{reverse}
use dyod.Regex.{Cursor, match, matches, group_text, lit, plus, space, word_edge}
use dyod.Report.{Report}
use dyod.Cleanse.{CleansedLines}
use dyod.Nesting.{
  NestingState, BlockInfo, BlockKind, ClassInfo, plain_block, extern_c, class_block,
  namespace_block,
}
use dyod.Nesting.Starts.{Starts, Starts-le}
use dyod.Nesting.Blocks.{
  incomplete_kind, incomplete_report, incomplete, incomplete_blocks, check_completed_blocks,
  check_disallow, disallow_on, disallow_report, blank_pattern, alignment, alignment_report,
  closing_brace_pattern, check_end_class, check_end_namespace, check_end, check_end_kind,
  namespace_comment, comment_end, namespace_report, unnamed_message, named_message,
  anonymous_pattern,
}

abbrev pub AtMost : ℕ → Report → Type 0
AtMost n r = r.linenum ≤ n

pub AtMost-append :
    (n : ℕ) (xs ys : List Report)
    → All (AtMost n) xs
    → All (AtMost n) ys
    → All (AtMost n) (xs ++ ys)
AtMost-append n [] ys h k = k
AtMost-append n (x ∷ xs) ys (h, hs) k = (h, AtMost-append n xs ys hs k)

pub AtMost-le : (n m : ℕ) (xs : List Report) → n ≤ m → All (AtMost n) xs → All (AtMost m) xs
AtMost-le n m [] le h = tt
AtMost-le n m (x ∷ xs) le (h, hs) = (omega arith, AtMost-le n m xs le hs)

disallow_on-AtMost :
    (filename : Text) (i m : ℕ) (seen : Bool) (o : Option (ℕ × Cursor)) (rest : List Report)
    → i ≤ m
    → All (AtMost m) rest
    → All (AtMost m) (disallow_on filename i seen o rest)
unfolding disallow_report
disallow_on-AtMost filename i m seen none rest le h = h
disallow_on-AtMost filename i m seen (some (start, c)) rest le h =
    if_both (All (AtMost m)) seen (le, tt) tt

check_disallow-AtMost :
    (filename : Text) (start : ℕ) (name : Text) (seen : Bool) (lines : List Text)
    → All (AtMost (start + length lines)) (check_disallow filename start name seen lines)
unfolding check_disallow
check_disallow-AtMost filename start name seen [] = tt
check_disallow-AtMost filename start name seen (line ∷ lines) =
    disallow_on-AtMost filename (start + suc (length lines)) (start + suc (length lines)) seen _ _
      (omega arith)
      (AtMost-le (start + length lines) (start + suc (length lines)) _ (omega arith) (
        check_disallow-AtMost filename start name
          (if matches blank_pattern line then seen else true) lines))

alignment-AtMost :
    (filename : Text) (linenum : ℕ) (c : ClassInfo) (o : Option Cursor)
    → All (AtMost linenum) (alignment filename linenum c o)
unfolding alignment_report
alignment-AtMost filename linenum c none = tt
alignment-AtMost filename linenum c (some m) =
    if_both (All (AtMost linenum)) (length (group_text 1 m) == c.class_indent) tt (omega arith, tt)

-- the lines of a class between its start and its end
class_lines-length :
    (elided : List Text) (start linenum : ℕ)
    → start ≤ linenum
    → start + length (reverse (drop (suc start) (take linenum elided))) ≤ linenum
class_lines-length elided start linenum le = omega (
  arith,
  length-reverse (drop (suc start) (take linenum elided)),
  length-drop {0} (suc start) (take linenum elided),
  length-take {0} linenum elided,
)

check_end_class-AtMost :
    (filename : Text) (clean_lines : CleansedLines) (linenum start : ℕ) (c : ClassInfo)
    → start ≤ linenum
    → All (AtMost linenum) (check_end_class filename clean_lines linenum start c)
unfolding check_end_class
check_end_class-AtMost filename clean_lines linenum start c le =
    let lines = reverse (drop (suc start) (take linenum clean_lines.elided)) in
    AtMost-append linenum (check_disallow filename start c.name false lines) _
      (AtMost-le (start + length lines) linenum _
        (class_lines-length clean_lines.elided start linenum le)
        (check_disallow-AtMost filename start c.name false lines))
      (alignment-AtMost filename linenum c
        (match closing_brace_pattern (get_or clean_lines.elided linenum [])))

namespace_report-AtMost :
    (filename : Text) (linenum : ℕ) (message : Text)
    → All (AtMost linenum) (namespace_report filename linenum message ∷ [])
unfolding namespace_report
namespace_report-AtMost filename linenum message = (omega arith, tt)

check_end_namespace-AtMost :
    (filename : Text) (clean_lines : CleansedLines) (linenum start : ℕ) (name : Text)
    → All (AtMost linenum) (check_end_namespace filename clean_lines linenum start name)
unfolding check_end_namespace
check_end_namespace-AtMost filename clean_lines linenum start name =
    let line = get_or clean_lines.raw_lines linenum [] in
    let P = All (AtMost linenum) in
    let one = namespace_report-AtMost filename linenum in
    if_both P (ltb linenum (start + 10) && not (matches (namespace_comment (word_edge ∷ [])) line))
      tt
      (if_both P (is_empty name)
        (if_both P (matches (namespace_comment comment_end) line) tt
          (one (unnamed_message (matches anonymous_pattern line))))
        (if_both P (matches (namespace_comment (plus space ∷ lit name ∷ comment_end)) line) tt
          (one (named_message name))))

check_end_kind-AtMost :
    (filename : Text) (clean_lines : CleansedLines) (linenum start : ℕ) (kind : BlockKind)
    → start ≤ linenum
    → All (AtMost linenum) (check_end_kind filename clean_lines linenum start kind)
check_end_kind-AtMost filename clean_lines linenum start plain_block le = tt
check_end_kind-AtMost filename clean_lines linenum start extern_c le = tt
check_end_kind-AtMost filename clean_lines linenum start (class_block c) le =
    check_end_class-AtMost filename clean_lines linenum start c le
check_end_kind-AtMost filename clean_lines linenum start (namespace_block name) le =
    check_end_namespace-AtMost filename clean_lines linenum start name

-- The end of a block is reported on at its last line or before.
pub check_end-AtMost :
    (filename : Text) (clean_lines : CleansedLines) (linenum : ℕ) (b : BlockInfo)
    → b.starting_linenum ≤ linenum
    → All (AtMost linenum) (check_end filename clean_lines linenum b)
check_end-AtMost filename clean_lines linenum b le =
    check_end_kind-AtMost filename clean_lines linenum b.starting_linenum b.kind le

incomplete_kind-AtMost :
    (filename : Text) (n start : ℕ) (kind : BlockKind)
    → start ≤ n
    → All (AtMost n) (incomplete_kind filename start kind)
unfolding incomplete_report
incomplete_kind-AtMost filename n start plain_block le = tt
incomplete_kind-AtMost filename n start extern_c le = tt
incomplete_kind-AtMost filename n start (class_block c) le = (le, tt)
incomplete_kind-AtMost filename n start (namespace_block name) le = (le, tt)

incomplete_blocks-AtMost :
    (filename : Text) (n : ℕ) (st : List BlockInfo)
    → Starts n st
    → All (AtMost n) (incomplete_blocks filename st)
incomplete_blocks-AtMost filename n [] h = tt
incomplete_blocks-AtMost filename n (b ∷ st) (h, hs) =
    AtMost-append n (incomplete_blocks filename st) (incomplete filename b)
      (incomplete_blocks-AtMost filename n st (Starts-le b.starting_linenum n st h hs))
      (incomplete_kind-AtMost filename n b.starting_linenum b.kind h)

-- A block that is not complete is reported on at the line where it starts.
pub check_completed_blocks-AtMost :
    (filename : Text) (n : ℕ) (s : NestingState)
    → Starts n s.stack
    → All (AtMost n) (check_completed_blocks filename s)
unfolding check_completed_blocks
check_completed_blocks-AtMost filename n s h = incomplete_blocks-AtMost filename n s.stack h
