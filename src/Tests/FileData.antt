-- ===== src/Tests/FileData.antt =====
-- The blocks of a whole file.
use dyod.Prelude.{suc, ◌≡◌, some, List, [], ◌∷◌, All, Text, codes, length}
use dyod.Report.{Report}
use dyod.Cleanse.{CleansedLines}
use dyod.Nesting.Blocks.Reports.{AtMost}
use dyod.FileData.{nest_lines, prepare}
use dyod.FileData.Total.{nest_file_total}

abbrev some_file : List Text
some_file =
    codes "namespace a {  /* one"
    ∷ codes "two */ class B {"
    ∷ codes "  const char* s = \"}\";"
    ∷ codes "}; }"
    ∷ codes ""
    ∷ []

nest_file_total_example :
    (c : CleansedLines) × (reports : List Report) × (prepare (codes "a.h") some_file ≡ some c)
    × (nest_lines (codes "a.h") c ≡ some reports)
    × All (AtMost (suc (length some_file))) reports
nest_file_total_example = nest_file_total (codes "a.h") some_file
