-- ===== src/Nesting/Braces/Total.antt =====
-- The loops over namespaces and braces end; the blocks stay in order.
use dyod.Prelude.{
  ℕ, zero, suc, ◌≤◌, ◌<◌, Bool, ◌||◌, Option, none, some, List, [], ◌∷◌, ◌≡◌, refl, arith, length,
  length-drop, find, All, Text, codes, text_eq, if_both, ◌==◌,
}
use dyod.Regex.{Cursor, match, matches, group, group_text}
use dyod.Regex.Weight.{match-Under, group-held}
use dyod.Report.{Report, add_reports}
use dyod.Cleanse.{CleansedLines}
use dyod.Nesting.{BlockInfo, seen_brace}
use dyod.Nesting.Blocks.{new_namespace_block}
use dyod.Nesting.Starts.{Starts, Starts-le}
use dyod.Nesting.Blocks.Reports.{AtMost, AtMost-append, check_end-AtMost}
use dyod.Nesting.Braces.{
  Rest, rest_of, namespace_pattern, namespace_on, next_rest, next_namespace, namespace_loop,
  brace_pattern, opened_block, extern_c_pattern, mark_top, pop, brace_stack, check_end_top,
  brace_reports, next_brace, brace_loop,
}

abbrev second : ℕ → Bool
second n = n == 2

-- The rest of the line gets shorter from round to round.
namespace-length :
    (line : Text) {m : Cursor}
    → match namespace_pattern line ≡ some m
    → length (group_text 2 m) < length line
namespace-length line {m} e =
    omega
      (arith, match-Under second namespace_pattern line refl e, group-held second 2 m.groups refl)

brace-length :
    (line : Text) {m : Cursor}
    → match brace_pattern line ≡ some m
    → length (group_text 2 m) < length line
brace-length line {m} e =
    omega (arith, match-Under second brace_pattern line refl e, group-held second 2 m.groups refl)

-- A loop's result.
abbrev pub RestStarts : ℕ → Option Rest → Type 0
RestStarts n none = ⊥
RestStarts n (some (rest_of line st)) = Starts n st

-- a stack in order, and a line of at most the given length
abbrev Fits : ℕ → ℕ → Rest → Type 0
Fits n k (rest_of line st) = (length line ≤ k) × Starts n st

namespace_on-Fits :
    (n : ℕ) (name : Option Text) (line : Text) (o : Option ℕ) (st : List BlockInfo)
    → Starts n st
    → Fits n (length line) (namespace_on (new_namespace_block name n) line o st)
namespace_on-Fits n name line none st h = (omega arith, (omega arith, h))
namespace_on-Fits n name line (some i) st h =
    (omega (arith, length-drop {0} (suc i) line), (omega arith, h))

next_rest-RestStarts :
    (n k : ℕ) (next : Text → List BlockInfo → Option Rest) (r : Rest)
    → ((line : Text) (st : List BlockInfo)
        → length line ≤ k
        → Starts n st
        → RestStarts n (next line st))
    → Fits n k r
    → RestStarts n (next_rest next r)
next_rest-RestStarts n k next (rest_of line st) f (le, h) = f line st le h

next_namespace-RestStarts :
    (n fuel : ℕ) (next : Text → List BlockInfo → Option Rest)
    → ((line : Text) (st : List BlockInfo)
        → length line < fuel
        → Starts n st
        → RestStarts n (next line st))
    → (line : Text) (st : List BlockInfo) (o : Option Cursor) → match namespace_pattern line ≡ o
    → length line < suc fuel
    → Starts n st
    → RestStarts n (next_namespace next n line st o)
next_namespace-RestStarts n fuel next f line st none e lt h = h
next_namespace-RestStarts n fuel next f line st (some m) e lt h =
    next_rest-RestStarts n (length (group_text 2 m)) next _
      (λ line' st' le h'. f line' st' (omega (arith, namespace-length line e)) h')
      (namespace_on-Fits n (group 1 m) (group_text 2 m) (find (codes "{") (group_text 2 m)) st h)

pub namespace_loop-RestStarts :
    (fuel n : ℕ) (line : Text) (st : List BlockInfo)
    → length line < fuel
    → Starts n st
    → RestStarts n (namespace_loop fuel n line st)
unfolding namespace_loop
namespace_loop-RestStarts zero n line st lt h = absurd (omega arith)
namespace_loop-RestStarts (suc fuel) n line st lt h =
    next_namespace-RestStarts n fuel (namespace_loop fuel n) (namespace_loop-RestStarts fuel n) line
      st (match namespace_pattern line) refl lt h

abbrev pub Sorted : ℕ → Option (List BlockInfo × List Report) → Type 0
Sorted n none = ⊥
Sorted n (some (st, reports)) = Starts n st × All (AtMost n) reports

mark_top-Starts : (n : ℕ) (st : List BlockInfo) → Starts n st → Starts n (mark_top st)
mark_top-Starts n [] h = h
mark_top-Starts n (b ∷ st) h = h

pop-Starts : (n : ℕ) (st : List BlockInfo) → Starts n st → Starts n (pop st)
pop-Starts n [] h = h
pop-Starts n (b ∷ st) (h, hs) = Starts-le b.starting_linenum n st h hs

opened-Starts :
    (n : ℕ) (line : Text) (st : List BlockInfo) → Starts n st → Starts n (opened_block n line ∷ st)
opened-Starts n line st h =
    if_both (λ b. Starts n (b ∷ st)) (matches extern_c_pattern line) (omega arith, h)
      (omega arith, h)

brace_stack-Starts :
    (n : ℕ) (line token : Text) (st : List BlockInfo)
    → Starts n st
    → Starts n (brace_stack n line token st)
unfolding brace_stack
brace_stack-Starts n line token st h =
    let P = Starts n in
    if_both P (text_eq token (codes "{"))
      (if_both P (seen_brace st) (opened-Starts n line st h) (mark_top-Starts n st h))
      (if_both P (text_eq token (codes ";") || text_eq token (codes ")"))
        (if_both P (seen_brace st) h (pop-Starts n st h)) (pop-Starts n st h))

check_end_top-AtMost :
    (filename : Text) (c : CleansedLines) (n : ℕ) (st : List BlockInfo)
    → Starts n st
    → All (AtMost n) (check_end_top filename c n st)
check_end_top-AtMost filename c n [] h = tt
check_end_top-AtMost filename c n (b ∷ st) (h, hs) = check_end-AtMost filename c n b h

brace_reports-AtMost :
    (filename : Text) (c : CleansedLines) (n : ℕ) (token : Text) (st : List BlockInfo)
    → Starts n st
    → All (AtMost n) (brace_reports filename c n token st)
unfolding brace_reports
brace_reports-AtMost filename c n token st h =
    if_both (All (AtMost n))
      (text_eq token (codes "{") || text_eq token (codes ";") || text_eq token (codes ")")) tt
      (check_end_top-AtMost filename c n st h)

pub add_reports-Sorted :
    (n : ℕ) (reports : List Report) (o : Option (List BlockInfo × List Report))
    → All (AtMost n) reports
    → Sorted n o
    → Sorted n (add_reports reports o)
add_reports-Sorted n reports none h k = k
add_reports-Sorted n reports (some (st, later)) h (k, ks) = (k, AtMost-append n reports later h ks)

next_brace-Sorted :
    (n fuel : ℕ) (next : Text → List BlockInfo → Option (List BlockInfo × List Report))
    → ((line : Text) (st : List BlockInfo)
        → length line < fuel
        → Starts n st
        → Sorted n (next line st))
    → (filename : Text) (c : CleansedLines) (line : Text) (st : List BlockInfo) (o : Option Cursor)
    → match brace_pattern line ≡ o
    → length line < suc fuel
    → Starts n st
    → Sorted n (next_brace next filename c n line st o)
next_brace-Sorted n fuel next f filename c line st none e lt h = (h, tt)
next_brace-Sorted n fuel next f filename c line st (some m) e lt h =
    add_reports-Sorted n _ _ (brace_reports-AtMost filename c n (group_text 1 m) st h) (
      f (group_text 2 m) _ (omega (arith, brace-length line e))
        (brace_stack-Starts n line (group_text 1 m) st h))

pub brace_loop-Sorted :
    (fuel : ℕ) (filename : Text) (c : CleansedLines) (n : ℕ) (line : Text) (st : List BlockInfo)
    → length line < fuel
    → Starts n st
    → Sorted n (brace_loop fuel filename c n line st)
unfolding brace_loop
brace_loop-Sorted zero filename c n line st lt h = absurd (omega arith)
brace_loop-Sorted (suc fuel) filename c n line st lt h =
    next_brace-Sorted n fuel (brace_loop fuel filename c n) (brace_loop-Sorted fuel filename c n)
      filename c line st (match brace_pattern line) refl lt h
