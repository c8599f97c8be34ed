-- ===== src/Config/Arguments/RoundTrip.antt =====
-- What `getopt` reads back of options that are written out.
use dyod.Prelude.{Bool, true, not, some, List, [], ◌∷◌, ◌++◌, ◌≡◌, Text, codes}
use dyod.Config.Arguments.{LongOption, is_option, getopt}

-- the options that take an argument, by their names
pub data Name : Type 0 where
  output verbose counting filter root line_length extensions : Name

abbrev pub name_of : Name → Text
name_of output = codes "--output"
name_of verbose = codes "--verbose"
name_of counting = codes "--counting"
name_of filter = codes "--filter"
name_of root = codes "--root"
name_of line_length = codes "--linelength"
name_of extensions = codes "--extensions"

-- An option on the command line: `--help`, `--name=value` in one argument, or `--name value` in two.
pub data Flag : Type 0 where
  help : Flag
  joined apart : Name → Text → Flag

abbrev pub arguments : Flag → List Text
arguments help = codes "--help" ∷ []
arguments (joined n v) = (name_of n ++ codes "=" ++ v) ∷ []
arguments (apart n v) = name_of n ∷ v ∷ []

-- the option as `getopt` gives it
abbrev pub long_option : Flag → LongOption
long_option help = (codes "--help", [])
long_option (joined n v) = (name_of n, v)
long_option (apart n v) = (name_of n, v)

abbrev pub command_line : List Flag → List Text → List Text
command_line [] files = files
command_line (f ∷ fs) files = arguments f ++ command_line fs files

abbrev Reads : List Text → List LongOption → List Text → Type 0
Reads args opts files = getopt args ≡ some (opts, files)

-- the first of the files is not taken for an option
abbrev pub starts_files : List Text → Bool
starts_files [] = true
starts_files (f ∷ fs) = not (is_option f)
