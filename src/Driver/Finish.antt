-- ===== src/Driver/Finish.antt =====
-- `ProcessFile` over `ProcessFileData`: when a file does not end by an exception.
use dyod.Prelude.{Option, none, some, List, [], Text}
use dyod.Config.{Settings}
use dyod.Config.Run.{Findings}
use dyod.Driver.{FileState, OtherChecks, Surroundings, Calls, process_file_data}

abbrev found : Option (FileState × Calls) → Findings
found none = none
found (some (s, calls)) = some (calls, s.suppressions)

-- What `ProcessFile` has of `ProcessFileData`. The suppressions that the file before has left do not
-- matter, so that there are none.
abbrev pub find_errors :
    OtherChecks → (Settings → Text → Surroundings) → Settings → Text → Text → List Text → Findings
find_errors other around s filename extension lines = found (
    process_file_data other (around s filename) filename extension lines
      (record { lines = []; global = [] }))
