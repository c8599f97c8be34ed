-- ===== src/Config/Overrides.antt =====
-- cpplint.py: `ProcessConfigOverrides`, which reads the files CPPLINT.cfg from the directory of a
-- file up to the root. What the file system decides is a parameter: `abspath` stands for
-- `os.path.abspath`, `isfile` for `os.path.isfile`, and `read_config` gives the lines of a
-- configuration file, or `none` where opening it raises an `IOError`. The patterns of
-- `exclude_files` are those of `re`: `excludes` tells whether `re.compile(pattern).match(name)` is
-- a match, and is `none` where the pattern does not compile.
pub mod Says
pub mod Follows
pub mod Values
use dyod.Prelude.{
  Bool, true, false, Option, none, some, List, [], ◌∷◌, ◌++◌, ℕ, zero, suc, Text, codes, before,
  drop, find, is_empty, is_space, length, rstrip, strip, text_eq, ℤ, if◌then◌else◌,
}
use mathlib.Core.List.{reverse}
use dyod.LintState.{CppLintState, Result, ok, value_error, add_filters}
use dyod.Config.{Settings, parse_int}
use dyod.Files.Paths.{split_path, join_path}

-- the variables of the walk, and what is written to stderr
pub record Walk : Type 0 where
  pub settings : Settings
  pub cfg_filters : List Text
  pub keep_looking : Bool
  pub written : List Text

-- How a line, a file or the walk ends: the file to lint is excluded, or the pattern raises.
pub data Step : Type 0 where
  go : Walk → Step
  excluded : Walk → Step
  bad_pattern : Text → Step

abbrev pub write : Text → Walk → Walk
write t w = record w { written = w.written ++ t ∷ [] }

-- `s.partition('=')[2]`
abbrev behind_equals : Option ℕ → Text → Text
behind_equals none s = []
behind_equals (some i) s = drop (suc i) s

-- the name and the value of a line without its comment
abbrev pub option_of : Text → Text × Text
option_of line =
    (strip is_space (before b'=' line), strip is_space (behind_equals (find (codes "=") line) line))

-- whether a line holds nothing but a comment
abbrev pub is_blank : Text → Bool
is_blank line = is_empty (strip is_space (before b'#' line))

abbrev pub config_path : Text → Text
config_path dir = join_path dir (codes "CPPLINT.cfg")

set_line_length : Option ℤ → Walk → Walk
set_line_length none w = write (codes "Line length must be numeric.") w
set_line_length (some n) w =
    let settings : Settings = record w.settings { line_length = n } in
    record w { settings = settings }

exclude : Option Bool → Text → Text → Walk → Step
exclude none pattern message w = bad_pattern pattern
exclude (some false) pattern message w = go w
exclude (some true) pattern message w = excluded (write message w)

abbrev next_step : (Walk → Step) → Step → Step
next_step next (go w) = next w
next_step next (excluded w) = excluded w
next_step next (bad_pattern p) = bad_pattern p

abbrev next_walk : (Walk → Option Step) → Step → Option Step
next_walk next (go w) = next w
next_walk next (excluded w) = some (excluded w)
next_walk next (bad_pattern p) = some (bad_pattern p)

unfoldable pub excluded_message : Text → Text → Text → Text → Text
excluded_message filename cfg_file base_name val =
    codes "Ignoring \""
    ++ filename
    ++ codes "\": file excluded by \""
    ++ cfg_file
    ++ codes "\". File path component \""
    ++ base_name
    ++ codes "\" matches pattern \""
    ++ val
    ++ codes "\"\n"

unfoldable pub invalid_message : Text → Text → Text
invalid_message cfg_file name =
    codes "Invalid configuration option (" ++ name ++ codes ") in file " ++ cfg_file ++ codes "\n"

module _ (excludes : Text → Text → Option Bool) (filename : Text) where
  -- One option. The name of the component that is matched is not empty where this is called.
  unfoldable pub config_option : Text → Text → Text × Text → Walk → Step
  unfolding exclude set_line_length text_eq parse_int
  config_option cfg_file base_name (name, val) w =
      let rooted : Settings = record w.settings { root = some val } in
      if text_eq name (codes "set noparent")
      then go (record w { keep_looking = false })
      else if text_eq name (codes "filter")
      then go (record w { cfg_filters = w.cfg_filters ++ val ∷ [] })
      else if text_eq name (codes "exclude_files")
      then exclude (excludes val base_name) val (excluded_message filename cfg_file base_name val) w
      else if text_eq name (codes "linelength")
      then go (set_line_length (parse_int val) w)
      else if text_eq name (codes "root")
      then go (record w { settings = rooted })
      else go (write (invalid_message cfg_file name) w)

  unfoldable pub config_line : Text → Text → Text → Walk → Step
  unfolding config_option rstrip before
  config_line cfg_file base_name line w =
      if is_blank line
      then go w
      else config_option cfg_file base_name (option_of (before b'#' line)) w

  unfoldable pub config_lines : Text → Text → List Text → Walk → Step
  unfolding config_line
  config_lines cfg_file base_name [] w = go w
  config_lines cfg_file base_name (line ∷ lines) w =
      next_step (config_lines cfg_file base_name lines) (config_line cfg_file base_name line w)

  unfoldable pub config_file : Text → Text → Option (List Text) → Walk → Step
  unfolding config_lines
  config_file cfg_file base_name none w = go (
      write (codes "Skipping config file '" ++ cfg_file ++ codes "': Can't open for reading\n")
        (record w { keep_looking = false }))
  config_file cfg_file base_name (some lines) w = config_lines cfg_file base_name lines w

  module _ (isfile : Text → Bool) (read_config : Text → Option (List Text)) where
    -- The walk from a file or directory to the root, on fuel, whose end is `none`.
    unfoldable pub walk : ℕ → Text → Walk → Option Step
    unfolding config_file
    walk zero abs_filename w = none
    walk (suc fuel) abs_filename w =
        let (dir, base_name) = split_path abs_filename in
        let cfg_file = config_path dir in
        let up = walk fuel dir w in
        let read =
          next_walk (walk fuel dir) (config_file cfg_file base_name (read_config cfg_file) w) in
        if w.keep_looking
        then (if is_empty base_name then some (go w) else if isfile cfg_file then read else up)
        else some (go w)

-- How `ProcessConfigOverrides` ends: the file is to be linted, or is not, with what was written;
-- or a pattern or a filter raises an exception that is not caught.
pub data Overridden : Type 0 where
  proceed skip : Settings → List Text → Overridden
  pattern_raised filter_raised : Text → Overridden

abbrev next_filters :
    (CppLintState → Result CppLintState) → Result CppLintState → Result CppLintState
next_filters next (ok s) = next s
next_filters next (value_error f) = value_error f

unfoldable pub add_all : List Text → CppLintState → Result CppLintState
unfolding add_filters
add_all [] s = ok s
add_all (f ∷ fs) s = next_filters (add_all fs) (add_filters f s)

with_filters : Walk → Result CppLintState → Overridden
with_filters w (ok s) = proceed (record w.settings { state = s }) w.written
with_filters w (value_error f) = filter_raised f

-- what follows the walk
unfoldable pub apply_filters : Step → Overridden
unfolding with_filters add_all
apply_filters (go w) = with_filters w (add_all (reverse w.cfg_filters) w.settings.state)
apply_filters (excluded w) = skip w.settings w.written
apply_filters (bad_pattern p) = pattern_raised p

abbrev after_walk : Option Step → Option Overridden
after_walk none = none
after_walk (some step) = some (apply_filters step)

abbrev start : Settings → Walk
start s = record { settings = s; cfg_filters = []; keep_looking = true; written = [] }

module _ (abspath : Text → Text) (isfile : Text → Bool) (read_config : Text → Option (List Text))
    (excludes : Text → Text → Option Bool) where
  -- `ProcessConfigOverrides`: the walk has as many rounds as the path has characters, and one more.
  unfoldable pub process_config_overrides : Text → Settings → Option Overridden
  unfolding walk apply_filters
  process_config_overrides filename s = after_walk (
      walk excludes filename isfile read_config (suc (length (abspath filename))) (abspath filename)
        (start s))
