-- ===== src/Nesting/Update/Total.antt =====
-- `Update` ends on every line of a file, its blocks stay in order, and it reports on no later line.
use dyod.Prelude.{
  ◌≤◌, ℕ, suc, ◌+◌, ◌<◌, Bool, true, false, Option, none, some, List, [], ◌∷◌, ◌≡◌, refl, arith,
  length, get_or, get_elem?-some, All, Text, if_both, ◌==◌,
}
use dyod.Regex.{Cursor, match, matches, group_text}
use dyod.Report.{Report}
use dyod.Cleanse.{CleansedLines}
use dyod.Nesting.{
  BlockInfo, BlockKind, ClassInfo, plain_block, extern_c, class_block, namespace_block,
  PreprocessorInfo, NestingState, top,
}
use dyod.Nesting.Blocks.{blank_pattern}
use dyod.Nesting.Starts.{Starts, Starts-le}
use dyod.Nesting.Blocks.Reports.{AtMost}
use dyod.Nesting.Preprocessor.{
  update_preprocessor, at_if, at_else, at_endif, see_else, else_on, endif_on, if_pattern,
  else_pattern, endif_pattern,
}
use dyod.Nesting.Template.Laws.{in_template_argument_list_total}
use dyod.Nesting.Braces.{Rest, rest_of}
use dyod.Nesting.Braces.Total.{
  RestStarts, namespace_loop-RestStarts, Sorted, add_reports-Sorted, brace_loop-Sorted,
}
use dyod.Nesting.Update.{
  count_parentheses, class_on, class_match, class_pattern, no_parentheses, declare_class,
  check_begin_top, access_pattern, access_report, access_reports, access_class, access_on,
  update_access, finish_line, after_class, after_namespaces, update_stack, with_stack, update,
}

-- the stacks that a conditional keeps
abbrev Kept : ℕ → PreprocessorInfo → Type 0
Kept n p = Starts n p.stack_before_if × Starts n p.stack_before_else

see_else-Kept :
    (n : ℕ) (st : List BlockInfo) (p : PreprocessorInfo)
    → Starts n st
    → Kept n p
    → Kept n (see_else st p)
see_else-Kept n st p h q = if_both (Kept n) p.seen_else q (q.0, h)

-- The blocks of the stack, and of the stacks that are kept for `#else` and `#endif`, are in order.
abbrev pub InOrder : ℕ → NestingState → Type 0
InOrder n s = Starts n s.stack × All (Kept n) s.pp_stack

else_on-InOrder :
    (n : ℕ) (s : NestingState) (ps : List PreprocessorInfo)
    → Starts n s.stack
    → All (Kept n) ps
    → InOrder n s
    → InOrder n (else_on s ps)
else_on-InOrder n s [] h ps k = k
else_on-InOrder n s (p ∷ ps) h (q, qs) k = (q.0, (see_else-Kept n s.stack p h q, qs))

endif_on-InOrder :
    (n : ℕ) (s : NestingState) (ps : List PreprocessorInfo)
    → Starts n s.stack
    → All (Kept n) ps
    → InOrder n s
    → InOrder n (endif_on s ps)
endif_on-InOrder n s [] h ps k = k
endif_on-InOrder n s (p ∷ ps) h (q, qs) k = (if_both (Starts n) p.seen_else q.1 h, qs)

update_preprocessor-InOrder :
    (n : ℕ) (line : Text) (s : NestingState) → InOrder n s → InOrder n (update_preprocessor line s)
unfolding update_preprocessor at_if at_else at_endif
update_preprocessor-InOrder n line s h =
    let P = InOrder n in
    if_both P (matches if_pattern line) (h.0, ((h.0, tt), h.1))
      (if_both P (matches else_pattern line) (else_on-InOrder n s s.pp_stack h.0 h.1 h)
        (if_both P (matches endif_pattern line) (endif_on-InOrder n s s.pp_stack h.0 h.1 h) h))

count_parentheses-Starts :
    (n : ℕ) (line : Text) (st : List BlockInfo) → Starts n st → Starts n (count_parentheses line st)
count_parentheses-Starts n line [] h = h
count_parentheses-Starts n line (b ∷ st) h = h

check_begin_top-Starts :
    (n : ℕ) (line : Text) (st : List BlockInfo) → Starts n st → Starts n (check_begin_top line st)
check_begin_top-Starts n line [] h = h
check_begin_top-Starts n line (b ∷ st) h = if_both (λ c. Starts n (c ∷ st)) b.seen_open_brace h h

class_on-RestStarts :
    (c : CleansedLines) (n : ℕ) (line : Text) (st : List BlockInfo) (m : Cursor) (b : Bool)
    → Starts n st
    → RestStarts n (class_on c n line st m (some b))
class_on-RestStarts c n line st m true h = h
class_on-RestStarts c n line st m false h = (omega arith, h)

class_match-RestStarts :
    (c : CleansedLines) (n : ℕ) (line : Text) (st : List BlockInfo) (o : Option Cursor)
    → Starts n st
    → RestStarts n (class_match c n line st o)
class_match-RestStarts c n line st none h = h
class_match-RestStarts c n line st (some m) h =
    let (b, e) = in_template_argument_list_total c.elided n (length (group_text 1 m)) in
    if_both (RestStarts n) (no_parentheses st) (rw e (class_on-RestStarts c n line st m b h)) h

declare_class-RestStarts :
    (c : CleansedLines) (n : ℕ) (r : Rest)
    → RestStarts n (some r)
    → RestStarts n (declare_class c n r)
declare_class-RestStarts c n (rest_of line st) h =
    class_match-RestStarts c n line st (match class_pattern line) h

access_reports-AtMost :
    (filename : Text) (n : ℕ) (c : ClassInfo) (m : Cursor)
    → All (AtMost n) (access_reports filename n c m)
unfolding access_report
access_reports-AtMost filename n c m =
    let P = All (AtMost n) in
    if_both P (length (group_text 1 m) == c.class_indent + 1) tt
      (if_both P (matches blank_pattern (group_text 1 m)) (omega arith, tt) tt)

access_class-Sorted :
    (filename : Text) (n : ℕ) (b : BlockInfo) (st : List BlockInfo) (c : ClassInfo)
    (o : Option Cursor)
    → Starts n (b ∷ st)
    → Sorted n (some (access_class filename n b st c o))
access_class-Sorted filename n b st c none h = (h, tt)
access_class-Sorted filename n b st c (some m) h = (h, access_reports-AtMost filename n c m)

access_on-Sorted :
    (filename : Text) (n : ℕ) (line : Text) (b : BlockInfo) (st : List BlockInfo) (k : BlockKind)
    → Starts n (b ∷ st)
    → Sorted n (some (access_on filename n line b st k))
access_on-Sorted filename n line b st plain_block h = (h, tt)
access_on-Sorted filename n line b st extern_c h = (h, tt)
access_on-Sorted filename n line b st (namespace_block name) h = (h, tt)
access_on-Sorted filename n line b st (class_block c) h =
    access_class-Sorted filename n b st c (match access_pattern line) h

update_access-Sorted :
    (filename : Text) (n : ℕ) (line : Text) (st : List BlockInfo)
    → Starts n st
    → Sorted n (some (update_access filename n line st))
unfolding update_access
update_access-Sorted filename n line [] h = (tt, tt)
update_access-Sorted filename n line (b ∷ st) h = access_on-Sorted filename n line b st b.kind h

finish_line-Sorted :
    (filename : Text) (c : CleansedLines) (n : ℕ) (line : Text) (r : List BlockInfo × List Report)
    → Sorted n (some r)
    → Sorted n (finish_line filename c n line r)
finish_line-Sorted filename c n line (st, reports) (h, k) =
    add_reports-Sorted n reports _ k
      (brace_loop-Sorted (suc (length line)) filename c n line st (omega arith) h)

after_class-Sorted :
    (filename : Text) (c : CleansedLines) (n : ℕ) (r : Option Rest)
    → RestStarts n r
    → Sorted n (after_class filename c n r)
after_class-Sorted filename c n none h = h
after_class-Sorted filename c n (some (rest_of line st)) h =
    finish_line-Sorted filename c n line _ (
      update_access-Sorted filename n line _ (check_begin_top-Starts n (get_or c.elided n []) st h))

after_namespaces-Sorted :
    (filename : Text) (c : CleansedLines) (n : ℕ) (r : Option Rest)
    → RestStarts n r
    → Sorted n (after_namespaces filename c n r)
after_namespaces-Sorted filename c n none h = h
after_namespaces-Sorted filename c n (some r) h =
    after_class-Sorted filename c n _ (declare_class-RestStarts c n r h)

pub update_stack-Sorted :
    (filename : Text) (c : CleansedLines) (n : ℕ) (line : Text) (st : List BlockInfo)
    → Starts n st
    → Sorted n (update_stack filename c n line st)
unfolding update_stack
update_stack-Sorted filename c n line st h = after_namespaces-Sorted filename c n _ (
    namespace_loop-RestStarts (suc (length line)) n line (count_parentheses line st) (omega arith)
      (count_parentheses-Starts n line st h))

-- a state in order, and reports on line `n` or before
abbrev Updates : ℕ → Option (NestingState × List Report) → Type 0
Updates n o =
    (s : NestingState) × (reports : List Report) × (o ≡ some (s, reports))
    × InOrder n s
    × All (AtMost n) reports

with_stack-Updates :
    (n : ℕ) (s : NestingState) (o : Option (List BlockInfo × List Report))
    → InOrder n s
    → Sorted n o
    → Updates n (with_stack s o)
with_stack-Updates n s none h k = absurd k
with_stack-Updates n s (some (st, reports)) h (k, ks) =
    (record s { stack = st }, reports, refl, (k, h.1), ks)

-- For a line of the file and a state in which no block starts behind this line or before the block
-- around it, `Update` ends, without an index out of range; the same holds of the blocks of the new
-- state, those that are kept for `#else` and `#endif` included, and all reports are on this line
-- or on lines before it.
pub update_total :
    (filename : Text) (clean_lines : CleansedLines) (linenum : ℕ) (s : NestingState)
    → linenum < length clean_lines.elided
    → InOrder linenum s
    → (s' : NestingState) × (reports : List Report) × (update filename clean_lines linenum s
        ≡ some (s', reports))
      × InOrder linenum s'
      × All (AtMost linenum) reports
unfolding update
update_total filename clean_lines linenum s lt h =
    let (line, e) = get_elem?-some clean_lines.elided linenum lt in
    let s' = update_preprocessor line (record s { previous_stack_top = top s.stack }) in
    let h' =
      update_preprocessor-InOrder linenum line (record s { previous_stack_top = top s.stack }) h in
    rw e (
      with_stack-Updates linenum s' _ h'
        (update_stack-Sorted filename clean_lines linenum line s'.stack h'.0))

Kept-le : (n m : ℕ) (ps : List PreprocessorInfo) → n ≤ m → All (Kept n) ps → All (Kept m) ps
Kept-le n m [] le h = tt
Kept-le n m (p ∷ ps) le ((h, k), hs) = (
  (Starts-le n m p.stack_before_if le h, Starts-le n m p.stack_before_else le k),
  Kept-le n m ps le hs,
)

pub InOrder-le : (n m : ℕ) (s : NestingState) → n ≤ m → InOrder n s → InOrder m s
InOrder-le n m s le (h, hs) = (Starts-le n m s.stack le h, Kept-le n m s.pp_stack le hs)
