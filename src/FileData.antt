-- ===== src/FileData.antt =====
-- cpplint.py: the part of `ProcessFileData` and `ProcessLine` that prepares the lines of a file and
-- follows its blocks: the comments over several lines are removed, the lines are cleansed,
-- `NestingState.Update` is called for each line, and `CheckCompletedBlocks` at the end.
pub mod Total
use dyod.Prelude.{ℕ, zero, suc, Option, none, some, List, [], ◌++◌, Text}
use dyod.Report.{Report, add_reports}
use dyod.Cleanse.{CleansedLines, cleanse_lines}
use dyod.Cleanse.MultiLine.{remove_multi_line_comments}
use dyod.FileChecks.{marked_lines}
use dyod.Nesting.{NestingState, new_nesting_state}
use dyod.Nesting.Blocks.{check_completed_blocks}
use dyod.Nesting.Update.{update}

abbrev pub next_update :
    (NestingState → Option (NestingState × List Report))
    → Option (NestingState × List Report)
    → Option (NestingState × List Report)
next_update next none = none
next_update next (some (s, reports)) = add_reports reports (next s)

-- the loop over the lines, for as many lines from line `linenum` on
unfoldable pub update_lines :
    Text → CleansedLines → ℕ → ℕ → NestingState → Option (NestingState × List Report)
update_lines filename clean_lines zero linenum s = some (s, [])
update_lines filename clean_lines (suc count) linenum s =
    next_update (update_lines filename clean_lines count (suc linenum))
      (update filename clean_lines linenum s)

abbrev pub complete : Text → Option (NestingState × List Report) → Option (List Report)
complete filename none = none
complete filename (some (s, reports)) = some (reports ++ check_completed_blocks filename s)

unfoldable pub nest_lines : Text → CleansedLines → Option (List Report)
nest_lines filename clean_lines =
    complete filename (update_lines filename clean_lines clean_lines.num_lines 0 new_nesting_state)

-- the lines of a file, prepared
unfoldable pub prepare : Text → List Text → Option CleansedLines
prepare filename lines = cleanse_lines (remove_multi_line_comments filename (marked_lines lines)).0
