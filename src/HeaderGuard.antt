-- ===== src/HeaderGuard.antt =====
-- cpplint.py: `GetHeaderGuardCPPVariable` and `CheckForHeaderGuard`, from the repository name of the
-- file. The option `--root` gives a pattern. `ParseNolintSuppressions` and `error` change the state
-- of the program in turn, so that the check is the list of their calls.
pub mod Scan
use dyod.Prelude.{
  ℕ, suc, ◌-◌, Bool, not, ◌&&◌, ◌||◌, Option, none, some, List, [], ◌∷◌, ◌++◌, map, Text, codes,
  any, drop, get_or, is_empty, is_prefix, is_unicode_space, length, replace, take, text_eq,
  upper_char, if◌then◌else◌,
}
use dyod.Regex.{
  Re, Cursor, alt, alts, at_end, at_start, finds, grp, group_text, is_alpha, is_digit, lit, match,
  matches, none_of, opt, seqs, space, star, sub, word_edge,
}
use dyod.Report.{Report, report}

-- `_flymake\.h$`
abbrev flymake_pattern : Re
flymake_pattern = seqs (lit (codes "_flymake.h") ∷ at_end ∷ [])

-- `/\.flymake/([^/]*)$`
abbrev flymake_dir_pattern : Re
flymake_dir_pattern =
    seqs (lit (codes "/.flymake/") ∷ grp 1 (star (none_of (codes "/"))) ∷ at_end ∷ [])

-- the name that the repository name is asked for
unfoldable pub guard_filename : Text → Text
guard_filename filename =
    let header = sub flymake_pattern (λ m. codes ".h") filename in
    let original = sub flymake_dir_pattern (λ m. codes "/" ++ group_text 1 m) header in
    replace (codes "c++") (codes "cpp") (replace (codes "C++") (codes "cpp") original)

abbrev guard_char : ℕ → ℕ
guard_char c = if is_alpha c || is_digit c then upper_char c else b'_'

abbrev below_root : Option Re → Text → Text
below_root none path = path
below_root (some root) path = sub (seqs (at_start ∷ root ∷ lit (codes "/") ∷ [])) (λ m. []) path

unfoldable pub header_guard_variable : Option Re → Text → Text
header_guard_variable root repository = map guard_char (below_root root repository) ++ codes "_"

-- `line.split()`; `part` is the word at hand
unfoldable pub words_onto : Text → Text → List Text
words_onto part [] = if is_empty part then [] else part ∷ []
words_onto part (c ∷ s) =
    let cut = words_onto [] s in
    let keep = words_onto (part ++ c ∷ []) s in
    if is_unicode_space c then (if is_empty part then cut else part ∷ cut) else keep

abbrev pub words : Text → List Text
words line = words_onto [] line

-- what the loop over the lines notes down
pub record GuardScan : Type 0 where
  pub ifndef : Text
  pub ifndef_linenum : ℕ
  pub define : Text
  pub endif : Text
  pub endif_linenum : ℕ

abbrev pub new_scan : GuardScan
new_scan = record { ifndef = []; ifndef_linenum = 0; define = []; endif = []; endif_linenum = 0 }

-- the second word of a line whose first word is the directive
abbrev pub argument_of : Text → List Text → Option Text
argument_of directive [] = none
argument_of directive (word ∷ []) = none
argument_of directive (word ∷ argument ∷ rest) =
    if text_eq word directive then some argument else none

-- the first #ifndef, with its line
abbrev pub note_ifndef : ℕ → Option Text → Text × ℕ → Text × ℕ
note_ifndef linenum none noted = noted
note_ifndef linenum (some argument) (ifndef, n) =
    if is_empty ifndef then (argument, linenum) else (ifndef, n)

-- the first #define
abbrev pub note_define : Option Text → Text → Text
note_define none define = define
note_define (some argument) define = if is_empty define then argument else define

abbrev pub is_endif : Text → Bool
is_endif line = is_prefix (codes "#endif") line

-- the last #endif, with its line
abbrev pub note_endif : ℕ → Text → Text × ℕ → Text × ℕ
note_endif linenum line noted = if is_endif line then (line, linenum) else noted

abbrev pub scan_line : ℕ → Text → GuardScan → GuardScan
scan_line linenum line s =
    let ifndef =
      note_ifndef linenum (argument_of (codes "#ifndef") (words line))
        (s.ifndef, s.ifndef_linenum) in
    let endif = note_endif linenum line (s.endif, s.endif_linenum) in
    record {
      ifndef = ifndef.0;
      ifndef_linenum = ifndef.1;
      define = note_define (argument_of (codes "#define") (words line)) s.define;
      endif = endif.0;
      endif_linenum = endif.1;
    }

unfoldable pub scan_lines : ℕ → List Text → GuardScan → GuardScan
scan_lines linenum [] s = s
scan_lines linenum (line ∷ lines) s = scan_lines (suc linenum) lines (scan_line linenum line s)

-- a call of `ParseNolintSuppressions`, with its line, or one of `error`
pub data GuardAction : Type 0 where
  parse_nolint : Text → ℕ → GuardAction
  log : Report → GuardAction

-- `//\s*NOLINT\(build/header_guard\)`
abbrev pub nolint_guard_pattern : Re
nolint_guard_pattern =
    seqs (lit (codes "//") ∷ star space ∷ lit (codes "NOLINT(build/header_guard)") ∷ [])

-- `#endif\s*//\s*VAR(_)?\b`
abbrev line_endif_pattern : Text → Re
line_endif_pattern cppvar = seqs (
    lit (codes "#endif")
    ∷ star space
    ∷ lit (codes "//")
    ∷ star space
    ∷ lit cppvar
    ∷ opt (grp 1 (lit (codes "_")))
    ∷ word_edge
    ∷ [])

-- `#endif\s*/\*\s*VAR(_)?\s*\*/`
abbrev block_endif_pattern : Text → Re
block_endif_pattern cppvar = seqs (
    lit (codes "#endif")
    ∷ star space
    ∷ lit (codes "/*")
    ∷ star space
    ∷ lit cppvar
    ∷ opt (grp 1 (lit (codes "_")))
    ∷ star space
    ∷ lit (codes "*/")
    ∷ [])

-- `^(?:(?:\'(?:\.|[^\'])*\')|(?:"(?:\.|[^"])*")|[^\'"])*//`
abbrev line_comment_pattern : Re
line_comment_pattern = seqs (
    at_start
    ∷ star (
        alts (
          seqs (
            lit (codes "'")
            ∷ star (alt (lit (codes ".")) (none_of (codes "'")))
            ∷ lit (codes "'")
            ∷ [])
          ∷ seqs (
              lit (codes "\"")
              ∷ star (alt (lit (codes ".")) (none_of (codes "\"")))
              ∷ lit (codes "\"")
              ∷ [])
          ∷ none_of (codes "'\"")
          ∷ []))
    ∷ lit (codes "//")
    ∷ [])

module _ (filename cppvar : Text) (raw_lines : List Text) where
  pub guard_report : ℕ → ℕ → Text → GuardAction
  guard_report linenum level message =
      log (report filename linenum (codes "build/header_guard") level message)

  pub missing_report : GuardAction
  missing_report =
      guard_report 0 5
        (codes "No #ifndef header guard found, suggested CPP variable is: " ++ cppvar)

  abbrev line_message : Text
  line_message = codes "#endif line should be \"#endif  // " ++ cppvar ++ codes "\""

  abbrev block_message : Text
  block_message = codes "#endif line should be \"#endif  /* " ++ cppvar ++ codes " */\""

  -- the report on an #endif with one underscore too many
  abbrev deprecated : ℕ → Text → Cursor → List GuardAction
  deprecated linenum message m =
      if text_eq (group_text 1 m) (codes "_") then guard_report linenum 0 message ∷ [] else []

  abbrev style_actions : GuardScan → List GuardAction
  style_actions s =
      if text_eq s.ifndef cppvar
      then []
      else parse_nolint (get_or raw_lines s.ifndef_linenum []) s.ifndef_linenum
        ∷ guard_report s.ifndef_linenum (if text_eq s.ifndef (cppvar ++ codes "_") then 0 else 5)
            (codes "#ifndef header guard has wrong style, please use: " ++ cppvar)
        ∷ []

  abbrev no_single_line_comments : Bool
  no_single_line_comments =
      not (any (matches line_comment_pattern) (take (length raw_lines - 2) (drop 1 raw_lines)))

  abbrev block_actions : GuardScan → Option Cursor → List GuardAction
  block_actions s none = guard_report s.endif_linenum 5 line_message ∷ []
  block_actions s (some m) = deprecated s.endif_linenum block_message m

  abbrev endif_actions : GuardScan → Option Cursor → List GuardAction
  endif_actions s (some m) = deprecated s.endif_linenum line_message m
  endif_actions s none =
      block_actions s
        (if no_single_line_comments then match (block_endif_pattern cppvar) s.endif else none)

  abbrev pub has_guard : GuardScan → Bool
  has_guard s = not (is_empty s.ifndef) && not (is_empty s.define) && text_eq s.ifndef s.define

  unfoldable pub guard_actions : GuardScan → List GuardAction
  guard_actions s =
      if not (has_guard s)
      then missing_report ∷ []
      else style_actions s
        ++ parse_nolint (get_or raw_lines s.endif_linenum []) s.endif_linenum
          ∷ endif_actions s (match (line_endif_pattern cppvar) s.endif)

  -- `CheckForHeaderGuard`, over `lines_without_raw_strings`
  unfoldable pub check_for_header_guard : List GuardAction
  check_for_header_guard =
      if any (finds nolint_guard_pattern) raw_lines
      then []
      else guard_actions (scan_lines 0 raw_lines new_scan)
