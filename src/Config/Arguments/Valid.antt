-- ===== src/Config/Arguments/Valid.antt =====
-- What `ParseArguments` leaves where it returns.
use dyod.Prelude.{
  Bool, true, false, Option, none, some, List, [], ◌∷◌, ◌++◌, ◌≡◌, refl, ap, Text, codes, ℤ, subst,
  ◌∙◌, Bool-cases, inl, inr, is_empty, if_both, not, if◌then◌else◌, text_eq, drop,
}
use dyod.LintState.{CppLintState, Result, ok, value_error, OutputFormat, Counting}
use dyod.LintState.Filters.{Signed, ValidFilters, set_filters-ValidFilters}
use dyod.Config.{Settings, parse_int}
use dyod.Config.Arguments.{
  LongOption, Parsed, parsed, usage, categories, uncaught, ◌>>=◌, Choices, choose, choose_all,
  choose_output, choose_counting, choose_verbosity, choose_line_length, conclude, parse_arguments,
  parse_options, getopt, filtered, is_option, long_has_args, split_option, long_options,
  with_option, do_longs, started, output_format_of, counting_of, chosen_state,
}

-- the arguments behind the options end the list
abbrev Ends : List Text → Option (List LongOption × List Text) → Type 0
Ends args none = Unit
Ends args (some (opts, files)) = (front : List Text) × (front ++ files ≡ args)

abbrev Outcome : Type 0
Outcome = Option (List LongOption × List Text)

Ends-cons : (arg : Text) (args : List Text) (r : Outcome) → Ends args r → Ends (arg ∷ args) r
Ends-cons arg args none h = tt
Ends-cons arg args (some (opts, files)) (front, e) = (arg ∷ front, ap (◌∷◌ arg) e)

with_option-Ends :
    (name value arg : Text) (args : List Text) (r : Outcome)
    → Ends args r
    → Ends (arg ∷ args) (with_option name value r)
with_option-Ends name value arg args none h = tt
with_option-Ends name value arg args (some (opts, files)) (front, e) = (arg ∷ front, ap (◌∷◌ arg) e)

abbrev SkipEnds : List Text → Option (Text × Outcome) → Type 0
SkipEnds args none = Unit
SkipEnds args (some (a, behind)) = Ends args behind

do_longs-Ends :
    (arg : Text) (args : List Text) (next : Outcome) (skip : Option (Text × Outcome))
    (value : Option Text) (has : Option (Bool × Text))
    → Ends args next
    → SkipEnds args skip
    → Ends (arg ∷ args) (do_longs next skip value has)
do_longs-Ends arg args next skip value none h k = tt
do_longs-Ends arg args next skip none (some (false, name)) h k =
    with_option-Ends name [] arg args next h
do_longs-Ends arg args next skip (some v) (some (false, name)) h k = tt
do_longs-Ends arg args next skip (some v) (some (true, name)) h k =
    with_option-Ends name v arg args next h
do_longs-Ends arg args next none none (some (true, name)) h k = tt
do_longs-Ends arg args next (some (v, behind)) none (some (true, name)) h k =
    with_option-Ends name v arg args behind k

-- the choice that `getopt` makes for an argument
choice-Ends :
    (arg : Text) (args : List Text) (plain last long : Bool) (r : Outcome)
    → Ends (arg ∷ args) r
    → Ends (arg ∷ args) (
        if plain
        then some ([], arg ∷ args)
        else if last
        then some ([], args)
        else if long
        then r
        else none)
choice-Ends arg args true last long r h = ([], refl)
choice-Ends arg args false true long r h = (arg ∷ [], refl)
choice-Ends arg args false false true r h = h
choice-Ends arg args false false false r h = tt

getopt-Ends : (args : List Text) → Ends args (getopt args)
unfolding getopt
getopt-Ends [] = ([], refl)
getopt-Ends (arg ∷ []) = choice-Ends arg [] (not (is_option arg)) _ _ _ (
    do_longs-Ends arg [] (some ([], [])) none (split_option (drop 2 arg)).1
      (long_has_args (split_option (drop 2 arg)).0 long_options) ([], refl) tt)
getopt-Ends (arg ∷ second ∷ args) = choice-Ends arg (second ∷ args) (not (is_option arg)) _ _ _ (
    do_longs-Ends arg (second ∷ args) (getopt (second ∷ args)) (some (second, getopt args))
      (split_option (drop 2 arg)).1 (long_has_args (split_option (drop 2 arg)).0 long_options)
      (getopt-Ends (second ∷ args)) (Ends-cons second args (getopt args) (getopt-Ends args)))

-- what the loop over the options leaves alone
data Kept (s : Settings) : Parsed Choices → Type 0 where
  kept : (c : Choices) → c.settings.state ≡ s.state → Kept s (parsed c)
  at_usage : (m : Option Text) → Kept s (usage m)
  at_categories : Kept s categories
  at_error : (t : Text) → Kept s (uncaught t)

choose_output-Kept : (f : Option OutputFormat) (c : Choices) → Kept c.settings (choose_output f c)
unfolding choose_output
choose_output-Kept none c = at_usage _
choose_output-Kept (some f) c = kept _ refl

choose_counting-Kept : (f : Option Counting) (c : Choices) → Kept c.settings (choose_counting f c)
unfolding choose_counting
choose_counting-Kept none c = at_usage _
choose_counting-Kept (some f) c = kept _ refl

choose_verbosity-Kept :
    (val : Text) (n : Option ℤ) (c : Choices) → Kept c.settings (choose_verbosity val n c)
unfolding choose_verbosity
choose_verbosity-Kept val none c = at_error val
choose_verbosity-Kept val (some n) c = kept _ refl

choose_line_length-Kept : (n : Option ℤ) (c : Choices) → Kept c.settings (choose_line_length n c)
unfolding choose_line_length
choose_line_length-Kept none c = at_usage _
choose_line_length-Kept (some n) c = kept _ refl

choose-Kept : (o : LongOption) (c : Choices) → Kept c.settings (choose o c)
unfolding choose
choose-Kept (opt, val) c =
    let P = Kept c.settings in
    let is = λ (name : Text). text_eq opt name in
    if_both P (is (codes "--help")) (at_usage none) (
      if_both P (is (codes "--output")) (choose_output-Kept (output_format_of val) c) (
        if_both P (is (codes "--verbose")) (choose_verbosity-Kept val (parse_int val) c) (
          if_both P (is (codes "--filter"))
            (if_both P (is_empty val) at_categories (kept (record c { filters = val }) refl))
            (if_both P (is (codes "--counting")) (choose_counting-Kept (counting_of val) c) (
              if_both P (is (codes "--root")) (kept _ refl) (
                if_both P (is (codes "--linelength")) (choose_line_length-Kept (parse_int val) c)
                  (if_both P (is (codes "--extensions")) (kept _ refl) (kept c refl))))))))

Kept-trans : (s t : Settings) {p : Parsed Choices} → t.state ≡ s.state → Kept t p → Kept s p
Kept-trans s t e (kept c h) = kept c (h ∙ e)
Kept-trans s t e (at_usage m) = at_usage m
Kept-trans s t e at_categories = at_categories
Kept-trans s t e (at_error v) = at_error v

next-Kept :
    (s : Settings) (next : Choices → Parsed Choices) {p : Parsed Choices}
    → ((c : Choices) → Kept c.settings (next c))
    → Kept s p
    → Kept s (p >>= next)
next-Kept s next h (kept c e) = Kept-trans s c.settings e (h c)
next-Kept s next h (at_usage m) = at_usage m
next-Kept s next h at_categories = at_categories
next-Kept s next h (at_error v) = at_error v

choose_all-Kept : (os : List LongOption) (c : Choices) → Kept c.settings (choose_all os c)
unfolding choose_all
choose_all-Kept [] c = kept c refl
choose_all-Kept (o ∷ os) c =
    next-Kept c.settings (choose_all os) (choose_all-Kept os) (choose-Kept o c)

-- a result in order: files there are, they end the list of the arguments, and the filters are signed
abbrev pub InOrder : List Text → Parsed (List Text × Settings) → Type 0
InOrder args (parsed (files, s)) =
    (is_empty files ≡ false)
    × ((front : List Text) × (front ++ files ≡ args))
    × ValidFilters s.state
InOrder args (usage m) = Unit
InOrder args categories = Unit
InOrder args (uncaught t) = Unit

filtered-InOrder :
    (args files : List Text) (s : Settings) (r : Result CppLintState)
    → is_empty files ≡ false
    → ((front : List Text) × (front ++ files ≡ args))
    → ((t : CppLintState) → r ≡ ok t → ValidFilters t)
    → InOrder args (filtered files s r)
unfolding filtered
filtered-InOrder args files s (ok t) some_files ends valid = (some_files, ends, valid t refl)
filtered-InOrder args files s (value_error f) some_files ends valid = tt

conclude-InOrder :
    (args files : List Text) (c : Choices)
    → ((front : List Text) × (front ++ files ≡ args))
    → Signed c.settings.state.filters_backup
    → InOrder args (conclude files c)
unfolding conclude
conclude-InOrder args files c ends signed = elim (Bool-cases (is_empty files)) [
  | inl h ↦ rw h tt
  | inr h ↦ rw h (
      filtered-InOrder args files c.settings _ h ends
        (λ t e. set_filters-ValidFilters c.filters (chosen_state c) signed e))
]

concluded-InOrder :
    (args files : List Text) (s : Settings) {p : Parsed Choices}
    → ((front : List Text) × (front ++ files ≡ args))
    → Signed s.state.filters_backup
    → Kept s p
    → InOrder args (p >>= conclude files)
concluded-InOrder args files s ends signed (kept c e) =
    conclude-InOrder args files c ends (rw e signed)
concluded-InOrder args files s ends signed (at_usage m) = tt
concluded-InOrder args files s ends signed at_categories = tt
concluded-InOrder args files s ends signed (at_error v) = tt

parse_options-InOrder :
    (args : List Text) (s : Settings) (r : Outcome)
    → Signed s.state.filters_backup
    → Ends args r
    → InOrder args (parse_options s r)
unfolding parse_options
parse_options-InOrder args s none signed ends = tt
parse_options-InOrder args s (some (opts, files)) signed ends =
    concluded-InOrder args files s ends signed (choose_all-Kept opts (started s))

InOrder-returned :
    (args files : List Text) (t : Settings) (p : Parsed (List Text × Settings))
    → InOrder args p
    → p ≡ parsed (files, t)
    → (is_empty files ≡ false)
      × ((front : List Text) × (front ++ files ≡ args))
      × ValidFilters t.state
InOrder-returned args files t p h e = subst (InOrder args) e h

-- Where `ParseArguments` returns, whatever the arguments are, it returns at least one file, the
-- files are the last of the arguments, in their order, and each filter that is set starts with a
-- plus or a minus, if the saved filters do.
pub parse_arguments-returned :
    (args : List Text) (s : Settings) (files : List Text) (t : Settings)
    → Signed s.state.filters_backup
    → parse_arguments args s ≡ parsed (files, t)
    → (is_empty files ≡ false)
      × ((front : List Text) × (front ++ files ≡ args))
      × ValidFilters t.state
unfolding parse_arguments
parse_arguments-returned args s files t signed e =
    InOrder-returned args files t (parse_arguments args s)
      (parse_options-InOrder args s (getopt args) signed (getopt-Ends args)) e
