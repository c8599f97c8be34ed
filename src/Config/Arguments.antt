-- ===== src/Config/Arguments.antt =====
-- cpplint.py: `ParseArguments`, with the part of Python's `getopt` that it uses. The program ends
-- in `PrintUsage` and `PrintCategories`, and with a traceback where an exception is not caught.
pub mod RoundTrip
pub mod Valid
use dyod.Prelude.{
  Bool, true, false, not, ◌&&◌, suc, Option, none, some, List, [], ◌∷◌, ◌++◌, Text, codes, ℕ, ◌-◌,
  before, drop, find, is_empty, is_prefix, is_suffix, length, split, take, text_eq, text_mem, ℤ,
  if◌then◌else◌,
}
use dyod.LintState.{
  CppLintState, Counting, OutputFormat, Result, ok, value_error, set_counting_style, set_filters,
  set_output_format, set_verbose_level,
}
use dyod.Config.{Settings, parse_int}

abbrev long_options : List Text
long_options =
    codes "help"
    ∷ codes "output="
    ∷ codes "verbose="
    ∷ codes "counting="
    ∷ codes "filter="
    ∷ codes "root="
    ∷ codes "linelength="
    ∷ codes "extensions="
    ∷ []

abbrev candidates : Text → List Text → List Text
candidates opt [] = []
candidates opt (o ∷ os) = if is_prefix opt o then o ∷ candidates opt os else candidates opt os

abbrev single : List Text → Option (Bool × Text)
single (o ∷ []) =
    some (is_suffix (codes "=") o, if is_suffix (codes "=") o then take (length o - 1) o else o)
single _ = none

-- `long_has_args`: whether the option takes an argument, and its whole name; `none` is a
-- `GetoptError`.
unfoldable pub long_has_args : Text → List Text → Option (Bool × Text)
unfolding is_prefix is_suffix text_mem
long_has_args opt options =
    let possible = candidates opt options in
    if text_mem opt possible
    then some (false, opt)
    else if text_mem (opt ++ codes "=") possible
    then some (true, opt)
    else single possible

abbrev pub LongOption : Type 0
LongOption = Text × Text

-- the name of an option, and its argument if `=` stands in the text
unfoldable pub split_option : Text → Text × Option Text
unfolding find before
split_option opt = elim (find (codes "=") opt) [
  | none ↦ (opt, none)
  | some i ↦ (take i opt, some (drop (suc i) opt))
]

abbrev with_option :
    Text → Text → Option (List LongOption × List Text) → Option (List LongOption × List Text)
with_option name value none = none
with_option name value (some (opts, rest)) = some ((codes "--" ++ name, value) ∷ opts, rest)

-- `do_longs`, and what follows it: `next` is the loop over the arguments behind this one, and
-- `skip` that over those behind the next one, where there is one.
abbrev do_longs :
    Option (List LongOption × List Text)
    → Option (Text × Option (List LongOption × List Text))
    → Option Text
    → Option (Bool × Text)
    → Option (List LongOption × List Text)
do_longs next skip arg none = none
do_longs next skip none (some (false, name)) = with_option name [] next
do_longs next skip (some arg) (some (false, name)) = none
do_longs next skip (some arg) (some (true, name)) = with_option name arg next
do_longs next none none (some (true, name)) = none
do_longs next (some (arg, behind)) none (some (true, name)) = with_option name arg behind

-- whether `getopt` takes an argument for an option
abbrev pub is_option : Text → Bool
is_option arg = is_prefix (codes "-") arg && not (text_eq arg (codes "-"))

-- `getopt` with no short options: the options and the arguments behind them.
unfoldable pub getopt : List Text → Option (List LongOption × List Text)
unfolding is_prefix text_eq long_has_args split_option
getopt [] = some ([], [])
getopt (arg ∷ []) =
    let (opt, value) = split_option (drop 2 arg) in
    let long = do_longs (some ([], [])) none value (long_has_args opt long_options) in
    if not (is_option arg)
    then some ([], arg ∷ [])
    else if text_eq arg (codes "--")
    then some ([], [])
    else if is_prefix (codes "--") arg
    then long
    else none
getopt (arg ∷ second ∷ args) =
    let (opt, value) = split_option (drop 2 arg) in
    let long =
      do_longs (getopt (second ∷ args)) (some (second, getopt args)) value
        (long_has_args opt long_options) in
    if not (is_option arg)
    then some ([], arg ∷ second ∷ args)
    else if text_eq arg (codes "--")
    then some ([], second ∷ args)
    else if is_prefix (codes "--") arg
    then long
    else none

-- How `ParseArguments` may end: by its return, in `PrintUsage` with or without a message, in
-- `PrintCategories`, or with an uncaught `ValueError` about a text.
pub data Parsed (A : Type 0) : Type 0 where
  parsed : A → Parsed A
  usage : Option Text → Parsed A
  categories : Parsed A
  uncaught : Text → Parsed A

infixl 5 ◌>>=◌
abbrev pub ◌>>=◌ : {A B : Type 0} → Parsed A → (A → Parsed B) → Parsed B
parsed a >>= f = f a
usage m >>= f = usage m
categories >>= f = categories
uncaught t >>= f = uncaught t

-- The exit status of the program, where it ends here.
unfoldable pub exit_status : {A : Type 0} → Parsed A → Option ℕ
exit_status (parsed a) = none
exit_status (usage m) = some 1
exit_status categories = some 0
exit_status (uncaught t) = some 1

-- the local variables of the loop over the options, and the globals that it writes
pub record Choices : Type 0 where
  pub verbosity : ℤ
  pub output_format : OutputFormat
  pub filters : Text
  pub counting_style : Counting
  pub settings : Settings

abbrev output_format_of : Text → Option OutputFormat
output_format_of val =
    if text_eq val (codes "emacs")
    then some OutputFormat.emacs
    else if text_eq val (codes "vs7")
    then some OutputFormat.vs7
    else if text_eq val (codes "eclipse")
    then some OutputFormat.eclipse
    else none

abbrev counting_of : Text → Option Counting
counting_of val =
    if text_eq val (codes "total")
    then some Counting.total
    else if text_eq val (codes "toplevel")
    then some Counting.toplevel
    else if text_eq val (codes "detailed")
    then some Counting.detailed
    else none

choose_output : Option OutputFormat → Choices → Parsed Choices
choose_output none c =
    usage (some (codes "The only allowed output formats are emacs, vs7 and eclipse."))
choose_output (some f) c = parsed (record c { output_format = f })

choose_counting : Option Counting → Choices → Parsed Choices
choose_counting none c =
    usage (some (codes "Valid counting options are total, toplevel, and detailed"))
choose_counting (some s) c = parsed (record c { counting_style = s })

choose_verbosity : Text → Option ℤ → Choices → Parsed Choices
choose_verbosity val none c = uncaught val
choose_verbosity val (some v) c = parsed (record c { verbosity = v })

choose_line_length : Option ℤ → Choices → Parsed Choices
choose_line_length none c = usage (some (codes "Line length must be digits."))
choose_line_length (some n) c =
    let settings : Settings = record c.settings { line_length = n } in
    parsed (record c { settings = settings })

-- one round of the loop over the options
unfoldable pub choose : LongOption → Choices → Parsed Choices
unfolding choose_output choose_counting choose_verbosity choose_line_length text_eq parse_int
choose (opt, val) c =
    let rooted : Settings = record c.settings { root = some val } in
    let extended : Settings = record c.settings { valid_extensions = split b',' val } in
    if text_eq opt (codes "--help")
    then usage none
    else if text_eq opt (codes "--output")
    then choose_output (output_format_of val) c
    else if text_eq opt (codes "--verbose")
    then choose_verbosity val (parse_int val) c
    else if text_eq opt (codes "--filter")
    then (if is_empty val then categories else parsed (record c { filters = val }))
    else if text_eq opt (codes "--counting")
    then choose_counting (counting_of val) c
    else if text_eq opt (codes "--root")
    then parsed (record c { settings = rooted })
    else if text_eq opt (codes "--linelength")
    then choose_line_length (parse_int val) c
    else if text_eq opt (codes "--extensions")
    then parsed (record c { settings = extended })
    else parsed c

unfoldable pub choose_all : List LongOption → Choices → Parsed Choices
unfolding choose
choose_all [] c = parsed c
choose_all (o ∷ os) c = choose o c >>= choose_all os

abbrev started : Settings → Choices
started s = record {
  verbosity = s.state.verbose_level;
  output_format = s.state.output_format;
  filters = [];
  counting_style = Counting.total;
  settings = s;
}

filtered : List Text → Settings → Result CppLintState → Parsed (List Text × Settings)
filtered filenames s (ok t) = parsed (filenames, record s { state = t })
filtered filenames s (value_error f) = uncaught f

abbrev chosen_state : Choices → CppLintState
chosen_state c =
    set_counting_style c.counting_style
      (set_verbose_level c.verbosity (set_output_format c.output_format c.settings.state)).0

-- What follows the loop. In the source the filters are set before
-- the style of counting. The styles `''` and
-- `'total'` count alike.
unfoldable pub conclude : List Text → Choices → Parsed (List Text × Settings)
unfolding filtered set_filters
conclude filenames c =
    if is_empty filenames
    then usage (some (codes "No files were specified."))
    else filtered filenames c.settings (set_filters c.filters (chosen_state c))

parse_options : Settings → Option (List LongOption × List Text) → Parsed (List Text × Settings)
parse_options s none = usage (some (codes "Invalid arguments."))
parse_options s (some (opts, filenames)) = choose_all opts (started s) >>= conclude filenames

-- `ParseArguments`: the names of the files, and the settings behind it.
unfoldable pub parse_arguments : List Text → Settings → Parsed (List Text × Settings)
unfolding getopt choose_all conclude parse_options
parse_arguments args s = parse_options s (getopt args)
