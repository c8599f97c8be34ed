-- ===== src/Driver/Total.antt =====
-- `ProcessFileData` comes to its end.
use dyod.Prelude.{ℕ, Option, some, ◌≡◌}
use dyod.Report.{Report}
use dyod.IncludeState.Headers.{HasSection}
use dyod.Nesting.Update.Total.{InOrder}
use dyod.Driver.{FileState, Calls}

-- the state in the middle of a file, with no block behind line `n`
abbrev Good : ℕ → FileState → Type 0
Good n s = InOrder n s.nesting_state × HasSection s.include_state

-- an end in such a state
abbrev Ends : ℕ → Option (FileState × Calls) → Type 0
Ends n o = (s : FileState) × (calls : Calls) × (o ≡ some (s, calls)) × Good n s
