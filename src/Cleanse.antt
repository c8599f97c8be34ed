-- ===== src/Cleanse.antt =====
-- cpplint.py: from `IsCppString` to `CleansedLines`: raw strings, comments and strings are cut out
-- of the lines. The parts stand in the children, and `CleansedLines` here.
pub mod RawStrings
pub mod MultiLine
pub mod Comments
pub mod Collapse
pub mod Lines
use dyod.Prelude.{ℕ, Option, none, some, List, [], ◌∷◌, length, Text, map}
use Comments.{cleanse_comments}
use Collapse.{collapse_strings}
use RawStrings.{cleanse_raw_strings}

pub record CleansedLines : Type 0 where
  pub elided : List Text
  pub lines : List Text
  pub raw_lines : List Text
  pub num_lines : ℕ
  pub lines_without_raw_strings : List Text

abbrev pub cons_elided : Option Text → Option (List Text) → Option (List Text)
cons_elided none rest = none
cons_elided (some line) none = none
cons_elided (some line) (some rest) = some (cleanse_comments line ∷ rest)

-- the lines without strings and comments
unfoldable pub elide : List Text → Option (List Text)
elide [] = some []
elide (line ∷ lines) = cons_elided (collapse_strings line) (elide lines)

abbrev pub cleansed : List Text → List Text → Option (List Text) → Option CleansedLines
cleansed raw without none = none
cleansed raw without (some elided) = some (record {
  elided = elided;
  lines = map cleanse_comments without;
  raw_lines = raw;
  num_lines = length raw;
  lines_without_raw_strings = without;
})

abbrev pub cleansed_without : List Text → Option (List Text) → Option CleansedLines
cleansed_without raw none = none
cleansed_without raw (some without) = cleansed raw without (elide without)

-- `__init__`; `none` is fuel used up.
unfoldable pub cleanse_lines : List Text → Option CleansedLines
cleanse_lines raw = cleansed_without raw (cleanse_raw_strings raw)
