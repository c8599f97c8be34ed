-- ===== src/FileData/Total.antt =====
-- The blocks of a whole file.
use dyod.Prelude.{
  ℕ, zero, suc, ◌+◌, ◌≤◌, Option, some, List, [], ◌∷◌, ◌++◌, ◌≡◌, refl, arith, length,
  length-append, All, Text, subst,
}
use dyod.Report.{Report, add_reports}
use dyod.Cleanse.{CleansedLines}
use dyod.Cleanse.Lines.{SameLength, cleanse_lines_total}
use dyod.Cleanse.MultiLine.{remove_multi_line_comments}
use dyod.Cleanse.MultiLine.Laws.{remove_multi_line_comments-Removes}
use dyod.FileChecks.{marked_lines, end_marker}
use dyod.Nesting.{NestingState, new_nesting_state}
use dyod.Nesting.Blocks.{check_completed_blocks}
use dyod.Nesting.Blocks.Reports.{AtMost, AtMost-append, AtMost-le, check_completed_blocks-AtMost}
use dyod.Nesting.Update.Total.{InOrder, InOrder-le, update_total}
use dyod.FileData.{update_lines, complete, nest_lines, prepare}

-- a state in order, and reports, both up to line `m`
abbrev UpTo : ℕ → Option (NestingState × List Report) → Type 0
UpTo m o =
    (s : NestingState) × (reports : List Report) × (o ≡ some (s, reports))
    × InOrder m s
    × All (AtMost m) reports

add_reports-UpTo :
    (m : ℕ) (reports : List Report) (o : Option (NestingState × List Report))
    → All (AtMost m) reports
    → UpTo m o
    → UpTo m (add_reports reports o)
add_reports-UpTo m reports o h (s, later, e, k, l) =
    rw e (s, reports ++ later, refl, k, AtMost-append m reports later h l)

update_lines-UpTo :
    (filename : Text) (c : CleansedLines) (m count linenum p : ℕ) (s : NestingState)
    → count + linenum ≤ length c.elided
    → length c.elided ≤ suc m
    → p ≤ linenum
    → p ≤ m
    → InOrder p s
    → UpTo m (update_lines filename c count linenum s)
unfolding update_lines
update_lines-UpTo filename c m zero linenum p s inside bound le low h =
    (s, [], refl, InOrder-le p m s low h, tt)
update_lines-UpTo filename c m (suc count) linenum p s inside bound le low h =
    let (s', reports, e, k, l) =
      update_total filename c linenum s (omega arith) (InOrder-le p linenum s le h) in
    rw e (
      add_reports-UpTo m reports _ (AtMost-le linenum m reports (omega arith) l) (
        update_lines-UpTo filename c m count (suc linenum) linenum s' (omega arith) bound
          (omega arith) (omega arith) k))

complete-some :
    (filename : Text) (m : ℕ) (o : Option (NestingState × List Report))
    → UpTo m o
    → (reports : List Report) × (complete filename o ≡ some reports) × All (AtMost m) reports
complete-some filename m o (s, reports, e, h, k) = rw e (
  reports ++ check_completed_blocks filename s,
  refl,
  AtMost-append m reports (check_completed_blocks filename s) k
      (check_completed_blocks-AtMost filename m s h.0),
)

nest_lines-some :
    (filename : Text) (c : CleansedLines) (m : ℕ)
    → SameLength c (suc m)
    → (reports : List Report) × (nest_lines filename c ≡ some reports) × All (AtMost m) reports
unfolding nest_lines
nest_lines-some filename c m same = complete-some filename m _ (
    update_lines-UpTo filename c m c.num_lines 0 0 new_nesting_state
      (omega (arith, same.number, same.elided)) (omega (arith, same.elided)) (omega arith)
      (omega arith) (tt, tt))

-- For every file, the lines are prepared, and `NestingState` follows its blocks from the first line
-- to the last one without an index out of range or a loop that does not end; all that is reported on
-- blocks is on lines of the file or on the two lines that are put around it.
pub nest_file_total :
    (filename : Text) (lines : List Text)
    → (c : CleansedLines) × (reports : List Report) × (prepare filename lines ≡ some c)
      × (nest_lines filename c ≡ some reports)
      × All (AtMost (suc (length lines))) reports
unfolding prepare
nest_file_total filename lines =
    let removed = remove_multi_line_comments filename (marked_lines lines) in
    let (c, e, raw, same) = cleanse_lines_total removed.0 in
    let size : length removed.0 ≡ suc (suc (length lines)) = omega (
      arith,
      (remove_multi_line_comments-Removes filename (marked_lines lines)).0,
      length-append {0} lines (end_marker ∷ []),
    ) in
    let (reports, f, h) =
      nest_lines-some filename c (suc (length lines)) (subst (SameLength c) size same) in
    (c, reports, e, f, h)
