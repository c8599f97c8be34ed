-- ===== src/IncludeWhatYouUse.antt =====
-- cpplint.py: `UpdateIncludeState` and `CheckForIncludeWhatYouUse`. A Python dict is an association
-- list whose keys stand in the order in which they came in; the reports are in this order, which
-- Python does not promise. What the file system decides is a parameter: `read_lines` gives the
-- lines of a header, or `none` where opening it raises an `IOError`. The full name of the file and
-- the name in its repository are arguments.
pub mod Required
pub mod Known
pub mod Headers
use dyod.Prelude.{
  ℕ, suc, Bool, true, false, not, ◌&&◌, ◌||◌, Option, none, some, List, [], ◌∷◌, ◌++◌, Text, codes,
  char_mem, is_empty, is_suffix, strip, take, text_eq, if◌then◌else◌,
}
use dyod.Regex.{Re, Cursor, at_end, finds, group_text, lit, search, seqs, sub}
use dyod.Report.{Report, report}
use dyod.Cleanse.Comments.{cleanse_comments}
use dyod.Cleanse.Collapse.{include_line_pattern}
use dyod.Files.Modules.{files_belong_to_same_module}
use Headers.{Entry, string_pattern, patterns_maybe_templates, patterns_templates}

-- a dict with texts as its keys
module _ {A : Type 0} where
  pub lookup : Text → List (Text × A) → Option A
  lookup key [] = none
  lookup key ((k, v) ∷ m) = if text_eq key k then some v else lookup key m

  -- `m[key] = value`
  pub insert : Text → A → List (Text × A) → List (Text × A)
  insert key v [] = (key, v) ∷ []
  insert key v ((k, w) ∷ m) = if text_eq key k then (k, v) ∷ m else (k, w) ∷ insert key v m

  -- `key in m`
  pub has : Text → List (Text × A) → Bool
  has key [] = false
  has key ((k, v) ∷ m) = text_eq key k || has key m

  -- `m.setdefault(key, value)`
  pub set_default : Text → A → List (Text × A) → List (Text × A)
  unfolding has
  set_default key v m = if has key m then m else m ++ (key, v) ∷ []

-- the headers that are needed, each with a line and the name that needs it
abbrev pub Requirements : Type 0
Requirements = List (Text × (ℕ × Text))

-- `prefix.endswith('std::') or not prefix.endswith('::')`, where a pattern is found in a line
abbrev in_std : Text → Option (ℕ × Cursor) → Bool
in_std line none = false
in_std line (some (start, m)) =
    is_suffix (codes "std::") (take start line) || not (is_suffix (codes "::") (take start line))

-- `not line or line[0] == '#'`
abbrev pub is_skipped : Text → Bool
is_skipped line = is_empty line || text_eq (take 1 line) (codes "#")

module _ (linenum : ℕ) (line : Text) where
  abbrev require : Bool → Text → Text → Requirements → Requirements
  require b header template m = if b then insert header (linenum, template) m else m

  -- the loops over the two lists of patterns
  unfoldable pub maybe_loop : List Entry → Requirements → Requirements
  unfolding insert finds
  maybe_loop [] m = m
  maybe_loop ((pattern, template, header) ∷ entries) m =
      maybe_loop entries (require (finds pattern line) header template m)

  unfoldable pub template_loop : List Entry → Requirements → Requirements
  unfolding insert search is_suffix
  template_loop [] m = m
  template_loop ((pattern, template, header) ∷ entries) m =
      template_loop entries (require (in_std line (search pattern line)) header template m)

  -- one round of the loop over the lines
  unfoldable pub require_line : Requirements → Requirements
  unfolding maybe_loop template_loop text_eq
  require_line m =
      let strings =
        require (in_std line (search string_pattern line)) (codes "<string>") (codes "string") m in
      let maybe = maybe_loop patterns_maybe_templates strings in
      let templates = template_loop patterns_templates maybe in
      if is_skipped line then m else if char_mem b'<' line then templates else maybe

unfoldable pub require_lines : ℕ → List Text → Requirements → Requirements
unfolding require_line
require_lines linenum [] m = m
require_lines linenum (line ∷ lines) m =
    require_lines (suc linenum) lines (require_line linenum line m)

abbrev pub IncludeDict : Type 0
IncludeDict = List (Text × ℕ)

abbrev add_include : Option (ℕ × Cursor) → ℕ → IncludeDict → IncludeDict
add_include none linenum dict = dict
add_include (some (start, m)) linenum dict = set_default (group_text 2 m) linenum dict

-- the loop of `UpdateIncludeState` over the lines of a header
unfoldable pub update_lines : ℕ → List Text → IncludeDict → IncludeDict
unfolding set_default search cleanse_comments
update_lines linenum [] dict = dict
update_lines linenum (line ∷ lines) dict =
    update_lines (suc linenum) lines
      (add_include (search include_line_pattern (cleanse_comments line)) linenum dict)

-- `UpdateIncludeState`: the dict, and whether the header could be opened
unfoldable pub update_include_state : Option (List Text) → IncludeDict → IncludeDict × Bool
unfolding update_lines
update_include_state none dict = (dict, false)
update_include_state (some lines) dict = (update_lines 1 lines dict, true)

-- `dict([item for sublist in include_list for item in sublist])`
unfoldable pub insert_all : IncludeDict → IncludeDict → IncludeDict
unfolding insert
insert_all [] dict = dict
insert_all ((header, linenum) ∷ items) dict = insert_all items (insert header linenum dict)

unfoldable pub flat_dict : List (List (Text × ℕ)) → IncludeDict → IncludeDict
unfolding insert_all
flat_dict [] dict = dict
flat_dict (items ∷ lists) dict = flat_dict lists (insert_all items dict)

-- `_flymake\.cc$`
abbrev flymake_cc_pattern : Re
flymake_cc_pattern = seqs (lit (codes "_flymake.cc") ∷ at_end ∷ [])

-- `abs_filename`, from the full name
unfoldable pub own_name : Text → Text
own_name full_name = sub flymake_cc_pattern (λ m. codes ".cc") full_name

module _ (read_lines : Text → Option (List Text)) (repository abs_filename : Text) where
  abbrev try_header : Text → Bool × Text → IncludeDict × Bool → IncludeDict × Bool
  try_header header (false, common_path) (dict, found) = (dict, found)
  try_header header (true, common_path) (dict, found) =
      let (dict', loaded) = update_include_state (read_lines (common_path ++ header)) dict in
      (dict', loaded || found)

  -- the loop over the keys: the dict, and `header_found`
  unfoldable pub header_loop : IncludeDict → IncludeDict × Bool → IncludeDict × Bool
  unfolding update_include_state files_belong_to_same_module
  header_loop [] state = state
  header_loop ((header, linenum) ∷ keys) state =
      header_loop keys
        (try_header header (files_belong_to_same_module repository abs_filename header) state)

-- `header.strip('<>"')`
abbrev pub bare : Text → Text
bare header = strip (λ c. char_mem c (codes "<>\"")) header

unfoldable pub missing_reports : Text → IncludeDict → Requirements → List Report
unfolding has
missing_reports filename dict [] = []
missing_reports filename dict ((header, (linenum, template)) ∷ required) =
    let rest = missing_reports filename dict required in
    let message = codes "Add #include " ++ header ++ codes " for " ++ template in
    let missing = report filename linenum (codes "build/include_what_you_use") 4 message in
    if has (bare header) dict then rest else missing ∷ rest

-- the reports, from the dict and `header_found`
unfoldable pub report_missing : Text → Requirements → IncludeDict × Bool → List Report
unfolding is_suffix missing_reports
report_missing filename required (dict, header_found) =
    if is_suffix (codes ".cc") filename && not header_found
    then []
    else missing_reports filename dict required

-- `CheckForIncludeWhatYouUse`, from the elided lines and the list of the includes
unfoldable pub check_for_include_what_you_use :
    (Text → Option (List Text))
    → Text
    → Text
    → Text
    → List Text
    → List (List (Text × ℕ))
    → List Report
unfolding require_lines flat_dict own_name header_loop report_missing
check_for_include_what_you_use read_lines repository full_name filename elided include_list =
    let dict = flat_dict include_list [] in
    report_missing filename (require_lines 0 elided [])
      (header_loop read_lines repository (own_name full_name) dict (dict, false))
