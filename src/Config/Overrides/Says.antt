-- ===== src/Config/Overrides/Says.antt =====
-- What the lines of configuration files say, and which lines count for a file.
use dyod.Prelude.{
  Bool, false, ◌||◌, Option, none, some, List, [], ◌∷◌, ◌++◌, ℕ, zero, suc, Text, codes, before,
  is_empty, text_eq, ℤ, if◌then◌else◌,
}
use dyod.Config.{parse_int}
use dyod.Files.Paths.{split_path}
use dyod.Config.Overrides.{option_of, config_path, is_blank}

-- What lines say: the values of `linelength`, `root` and `filter`, in their order, and whether one
-- is `set noparent`.
pub record Sayings : Type 0 where
  pub lengths : List Text
  pub roots : List Text
  pub filters : List Text
  pub noparent : Bool

abbrev pub nothing : Sayings
nothing = record { lengths = []; roots = []; filters = []; noparent = false }

abbrev pub join : Sayings → Sayings → Sayings
join a b = record {
  lengths = a.lengths ++ b.lengths;
  roots = a.roots ++ b.roots;
  filters = a.filters ++ b.filters;
  noparent = a.noparent || b.noparent;
}

abbrev pub pick : Text → Text × Text → List Text
pick key (name, val) = if text_eq name key then val ∷ [] else []

abbrev pub option_says : Text × Text → Sayings
option_says o = record {
  lengths = pick (codes "linelength") o;
  roots = pick (codes "root") o;
  filters = pick (codes "filter") o;
  noparent = text_eq o.0 (codes "set noparent");
}

abbrev pub line_says : Text → Sayings
line_says line = if is_blank line then nothing else option_says (option_of (before b'#' line))

unfoldable pub says : List Text → Sayings
says [] = nothing
says (line ∷ lines) = join (line_says line) (says lines)

-- the last value that is a number, or else the one at hand
abbrev pub last_number : List Text → ℤ → ℤ
last_number [] n = n
last_number (v ∷ vs) n = last_number vs (elim (parse_int v) [ none ↦ n | some m ↦ m ])

abbrev pub last_root : List Text → Option Text → Option Text
last_root [] r = r
last_root (v ∷ vs) r = last_root vs (some v)

abbrev pub and_above : List Text → Option (List Text) → List Text
and_above above none = []
and_above above (some lines) = lines ++ (if (says lines).noparent then [] else above)

-- The lines of the configuration files that count for a path, from the nearest file on: up to the
-- first file that says `set noparent`, or that cannot be read. The fuel is the number of directories.
module _ (isfile : Text → Bool) (read_config : Text → Option (List Text)) where
  unfoldable pub lines_for : ℕ → Text → List Text
  lines_for zero path = []
  lines_for (suc fuel) path =
      let (dir, name) = split_path path in
      let above = lines_for fuel dir in
      let both = and_above above (read_config (config_path dir)) in
      if is_empty name then [] else if isfile (config_path dir) then both else above
