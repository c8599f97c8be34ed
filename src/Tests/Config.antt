-- ===== src/Tests/Config.antt =====
-- The command line, the configuration files and the run over the files.
use dyod.Prelude.{
  Bool, false, ◌||◌, ◌≤◌, Option, some, List, [], ◌∷◌, ◌++◌, ◌≡◌, refl, Text, codes, if◌then◌else◌,
  split_onto, rstrip, pos, text_eq, is_empty, is_prefix, find, is_suffix,
}
use dyod.Nolint.{default_filters, is_error_suppressed_by_nolint}
use dyod.Report.{show}
use dyod.LintState.{
  CppLintState, initial_state, errors, should_print_error, increment_error_count, format_report,
}
use dyod.LintState.Filters.{ValidFilters}
use dyod.Files.Paths.{dirname, path_head}
use dyod.Config.{Settings, initial_settings}
use dyod.Config.Arguments.{parsed, usage, uncaught, parse_arguments, getopt}
use dyod.Config.Arguments.RoundTrip.{Flag, help, joined, apart, Name}
use dyod.Config.Arguments.Valid.{parse_arguments-returned}
use dyod.Config.Overrides.{invalid_message, Overridden, process_config_overrides}
use dyod.Config.Overrides.Says.{lines_for}
use dyod.Config.Overrides.Values.{Agrees, process_config_overrides-Agrees}
use dyod.Config.Run.{done_message, process_file, finished, Findings}
use dyod.Config.Run.Restore.{process_file-Restored}

abbrev some_arguments : List Text
some_arguments =
    codes "--filter=-build" ∷ codes "--verb" ∷ codes "-3" ∷ codes "a.cc" ∷ codes "--x" ∷ []

getopt_runs :
    getopt some_arguments
    ≡ some (
      (codes "--filter", codes "-build") ∷ (codes "--verbose", codes "-3") ∷ [],
      codes "a.cc" ∷ codes "--x" ∷ [],
    )
unfolding getopt
getopt_runs = refl

no_files :
    parse_arguments (codes "--root=x" ∷ []) initial_settings
    ≡ usage (some (codes "No files were specified."))
unfolding parse_arguments
no_files = refl

bad_level :
    parse_arguments (codes "--verbose=x" ∷ codes "a" ∷ []) initial_settings ≡ uncaught (codes "x")
unfolding parse_arguments
bad_level = refl

unsigned_filter :
    parse_arguments (codes "--filter=whitespace" ∷ codes "a" ∷ []) initial_settings
    ≡ uncaught (codes "whitespace")
unfolding parse_arguments split_onto rstrip
unsigned_filter = refl

abbrev some_flags : List Flag
some_flags = joined Name.root (codes "a=b") ∷ help ∷ apart Name.filter (codes "-build") ∷ []

abbrev some_files : List Text
some_files = codes "a.cc" ∷ codes "-" ∷ []

abbrev chosen : Settings
chosen =
    let state : CppLintState = record initial_state {
      filters = default_filters ++ codes "-build" ∷ [];
    } in
    record initial_settings { state = state }

chosen_lem :
    parse_arguments (codes "--filter=-build" ∷ codes "a.cc" ∷ []) initial_settings
    ≡ parsed (codes "a.cc" ∷ [], chosen)
unfolding parse_arguments split_onto rstrip
chosen_lem = refl

parse_arguments-returned_example :
    (is_empty (codes "a.cc" ∷ []) ≡ false)
    × ((front : List Text) × (front ++ codes "a.cc" ∷ []
          ≡ codes "--filter=-build" ∷ codes "a.cc" ∷ []))
    × ValidFilters chosen.state
unfolding is_prefix
parse_arguments-returned_example =
    parse_arguments-returned (codes "--filter=-build" ∷ codes "a.cc" ∷ []) initial_settings
      (codes "a.cc" ∷ []) chosen refl chosen_lem

-- two configuration files: that of `/p` and that of the root
abbrev isfile : Text → Bool
isfile path = text_eq path (codes "/p/CPPLINT.cfg") || text_eq path (codes "/CPPLINT.cfg")

abbrev read_config : Text → Option (List Text)
read_config path =
    if text_eq path (codes "/p/CPPLINT.cfg")
    then some (codes "# nested\n" ∷ codes "linelength=100\n" ∷ codes "filter = -build # x\n" ∷ [])
    else some (codes "linelength=60\n" ∷ codes "x=1\n" ∷ [])

abbrev excludes : Text → Text → Option Bool
excludes pattern name = some (text_eq pattern name)

abbrev same_path : Text → Text
same_path path = path

abbrev find_nothing : Settings → Text → Text → List Text → Findings
find_nothing s filename extension lines = some ([], record { lines = []; global = [] })

abbrev read_file : Text → Option Text
read_file path = some (codes "int a;\r\nint b;\n")

-- The line length of the outer file wins.
abbrev overridden_begun : Settings
overridden_begun =
    let state : CppLintState = record initial_state {
      filters = default_filters ++ codes "-build" ∷ [];
      filters_backup = default_filters;
    } in
    record initial_settings { state = state; line_length = pos 60 }

-- The filters are as before, the line length is not.
abbrev after_file : Settings
after_file =
    let state : CppLintState = record initial_state { error_count = 1 } in
    record initial_settings { state = state; line_length = pos 60 }

abbrev file_written : List Text
file_written =
    codes "Invalid configuration option (x) in file /CPPLINT.cfg\n"
    ∷ codes
        "/p/a.cc:1:  Unexpected \\r (^M) found; better to use only \\n  [whitespace/newline] [1]\n"
    ∷ codes "Done processing /p/a.cc\n"
    ∷ []

after_file_lem :
    process_file find_nothing read_file
      (process_config_overrides same_path isfile read_config excludes)
      (codes "/p/a.cc")
      (pos 1)
      initial_settings
    ≡ finished after_file file_written
unfolding process_file process_config_overrides path_head dirname is_suffix find split_onto rstrip
    invalid_message done_message errors show should_print_error is_error_suppressed_by_nolint
    increment_error_count format_report
after_file_lem = refl

process_config_overrides-Agrees_example :
    (r : Overridden) × (process_config_overrides same_path isfile read_config excludes
        (codes "/p/a.cc")
        initial_settings
      ≡ some r)
    × Agrees initial_settings (lines_for isfile read_config 8 (codes "/p/a.cc")) r
process_config_overrides-Agrees_example =
    process_config_overrides-Agrees same_path isfile read_config excludes (codes "/p/a.cc")
      initial_settings

process_file-Restored_example :
    (after_file.state.filters ≡ initial_settings.state.filters)
    × (after_file.state.filters_backup ≡ initial_settings.state.filters)
    × (after_file.state.verbose_level ≡ pos 1)
    × (after_file.state.counting ≡ initial_settings.state.counting)
    × (after_file.state.output_format ≡ initial_settings.state.output_format)
    × (after_file.valid_extensions ≡ initial_settings.valid_extensions)
    × (initial_settings.state.error_count ≤ after_file.state.error_count)
process_file-Restored_example =
    process_file-Restored find_nothing read_file same_path isfile read_config excludes
      (codes "/p/a.cc") (pos 1) initial_settings after_file file_written after_file_lem
