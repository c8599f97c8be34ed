-- ===== src/IncludeState.antt =====
-- cpplint.py: `_IncludeState`, which follows the order of a file's #include lines, and
-- `Match(r'^\s*#\s*include\b', …)` on the line before. The header types and the sections are the
-- constants `_C_SYS_HEADER` and so on, as constructors, so that the last branch of
-- `CheckNextIncludeOrder` needs no assertion.
pub mod Order
pub mod Sequence
pub mod Headers
pub mod Line
pub mod Own
use mathlib.Core.List.{reverse}
use dyod.Prelude.{
  ℕ, zero, suc, ◌-◌, Bool, true, false, not, Option, none, some, List, [], ◌∷◌, ◌++◌, map,
  get_elem?, Text, codes, text_eq, text_mem, replace, lower_char, ltb, leb, ◌==◌, if◌then◌else◌,
}
use dyod.Regex.{Re, star, word_edge, at_start, lit, seqs, space, matches}

pub data HeaderType : Type 0 where
  c_sys_header cpp_sys_header likely_my_header possible_my_header other_header : HeaderType

pub data Section : Type 0 where
  initial_section my_h_section c_section cpp_section other_h_section : Section

-- the numbers of the sections
abbrev pub rank : Section → ℕ
rank initial_section = 0
rank my_h_section = 1
rank c_section = 2
rank cpp_section = 3
rank other_h_section = 4

pub record IncludeState : Type 0 where
  pub include_list : List (List (Text × ℕ))
  pub section : Section
  pub last_header : Text

-- `_TYPE_NAMES` and `_SECTION_NAMES`
abbrev pub type_name : HeaderType → Text
type_name c_sys_header = codes "C system header"
type_name cpp_sys_header = codes "C++ system header"
type_name likely_my_header = codes "header this file implements"
type_name possible_my_header = codes "header this file may implement"
type_name other_header = codes "other header"

abbrev pub section_name : Section → Text
section_name initial_section = codes "... nothing. (This can't be an error.)"
section_name my_h_section = codes "a header this file implements"
section_name c_section = codes "C system header"
section_name cpp_section = codes "C++ system header"
section_name other_h_section = codes "other header"

-- `include_list[-1] = []`
abbrev clear_last {ℓ} : {A : Type ℓ} → List (List A) → List (List A)
clear_last [] = []
clear_last (x ∷ []) = [] ∷ []
clear_last (x ∷ y ∷ xs) = x ∷ clear_last (y ∷ xs)

abbrev opens_conditional : Text → Bool
opens_conditional d = text_mem d (codes "if" ∷ codes "ifdef" ∷ codes "ifndef" ∷ [])

abbrev continues_conditional : Text → Bool
continues_conditional d = text_mem d (codes "else" ∷ codes "elif" ∷ [])

unfoldable pub reset_section : Text → IncludeState → IncludeState
reset_section directive s = record {
  section = initial_section;
  last_header = [];
  include_list =
      if opens_conditional directive
      then s.include_list ++ [] ∷ []
      else if continues_conditional directive
      then clear_last s.include_list
      else s.include_list;
}

-- `__init__`
unfoldable pub new_include_state : IncludeState
unfolding reset_section
new_include_state =
    reset_section []
      (record { include_list = [] ∷ []; section = initial_section; last_header = [] })

-- `FindHeader`; `none` is -1.
pub find_in_section : Text → List (Text × ℕ) → Option ℕ
find_in_section header [] = none
find_in_section header ((h, n) ∷ fs) =
    if text_eq h header then some n else find_in_section header fs

pub find_in_list : Text → List (List (Text × ℕ)) → Option ℕ
unfolding find_in_section
find_in_list header [] = none
find_in_list header (section_list ∷ rest) = elim (find_in_section header section_list) [
  | some n ↦ some n
  | none ↦ find_in_list header rest
]

unfoldable pub find_header : Text → IncludeState → Option ℕ
unfolding find_in_list
find_header header s = find_in_list header s.include_list

-- `include_state.include_list[-1].append((include, linenum))`, as `CheckIncludeLine` does it
abbrev append_last {ℓ} : {A : Type ℓ} → A → List (List A) → List (List A)
append_last a [] = []
append_last a (x ∷ []) = (x ++ a ∷ []) ∷ []
append_last a (x ∷ y ∷ xs) = x ∷ append_last a (y ∷ xs)

unfoldable pub add_header : Text → ℕ → IncludeState → IncludeState
add_header header linenum s = record s {
  include_list = append_last (header, linenum) s.include_list;
}

abbrev pub set_last_header : Text → IncludeState → IncludeState
set_last_header header_path s = record s { last_header = header_path }

unfoldable pub canonicalize_alphabetical_order : Text → Text
canonicalize_alphabetical_order header_path =
    map lower_char
      (replace (codes "-") (codes "_") (replace (codes "-inl.h") (codes ".h") header_path))

-- Python's `a > b` on texts
pub text_gt : Text → Text → Bool
text_gt [] b = false
text_gt (x ∷ a) [] = true
text_gt (x ∷ a) (y ∷ b) = if x == y then text_gt a b else ltb y x

-- `^\s*#\s*include\b`
abbrev pub include_pattern : Re
include_pattern =
    seqs (
      at_start ∷ star space ∷ lit (codes "#") ∷ star space ∷ lit (codes "include") ∷ word_edge ∷ [])

-- `lines[linenum - 1]`, where -1 is the last line
abbrev pub previous_line : List Text → ℕ → Option Text
previous_line lines zero = get_elem? (reverse lines) 0
previous_line lines (suc n) = get_elem? lines n

-- `none` is an index out of range.
unfoldable pub is_in_alphabetical_order : List Text → ℕ → Text → IncludeState → Option Bool
unfolding text_gt
is_in_alphabetical_order elided linenum header_path s =
    if text_gt s.last_header header_path
    then elim (previous_line elided linenum) [
      | none ↦ none
      | some line ↦ some (not (matches include_pattern line))
    ]
    else some true

-- The section behind a header; `none` where the header is out of order.
pub next_section : HeaderType → Section → Option Section
next_section c_sys_header s = if leb (rank s) (rank c_section) then some c_section else none
next_section cpp_sys_header s = if leb (rank s) (rank cpp_section) then some cpp_section else none
next_section likely_my_header s =
    some (if leb (rank s) (rank my_h_section) then my_h_section else other_h_section)
next_section possible_my_header s =
    some (if leb (rank s) (rank my_h_section) then my_h_section else other_h_section)
next_section other_header s = some other_h_section

pub order_message : HeaderType → Section → Text
order_message t s = codes "Found " ++ type_name t ++ codes " after " ++ section_name s

pub enter_section : HeaderType → Option Section → IncludeState → IncludeState × Text
unfolding order_message
enter_section t none s = (record s { last_header = [] }, order_message t s.section)
enter_section t (some section) s = (
  record s {
    section = section;
    last_header = if rank s.section == rank section then s.last_header else [];
  },
  [],
)

-- the new state, and the message, empty if there is nothing to complain of
unfoldable pub check_next_include_order : HeaderType → IncludeState → IncludeState × Text
unfolding next_section enter_section
check_next_include_order t s = enter_section t (next_section t s.section) s
