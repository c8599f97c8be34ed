-- ===== src/IncludeState/Sequence.antt =====
-- The sequences of headers that `CheckNextIncludeOrder` accepts.
use dyod.Prelude.{Bool, true, ◌&&◌, Option, none, some, List, [], ◌∷◌, ◌++◌, ◌≡◌, is_empty, All}
use dyod.IncludeState.{
  HeaderType, c_sys_header, cpp_sys_header, likely_my_header, possible_my_header, other_header,
  Section, initial_section, my_h_section, c_section, cpp_section, other_h_section, IncludeState,
  next_section, check_next_include_order,
}

-- `CheckNextIncludeOrder` for each header of a file has nothing to complain of.
pub in_order : List HeaderType → IncludeState → Bool
in_order [] s = true
in_order (t ∷ ts) s =
    is_empty (check_next_include_order t s).1 && in_order ts (check_next_include_order t s).0

-- Lists that consist of C headers, of C++ headers, of other headers, and of headers that may be
-- the file's own.
abbrev pub IsC : HeaderType → Type 0
IsC c_sys_header = Unit
IsC _ = ⊥

abbrev pub IsCpp : HeaderType → Type 0
IsCpp cpp_sys_header = Unit
IsCpp _ = ⊥

abbrev pub IsMine : HeaderType → Type 0
IsMine likely_my_header = Unit
IsMine possible_my_header = Unit
IsMine _ = ⊥

abbrev pub IsFree : HeaderType → Type 0
IsFree likely_my_header = Unit
IsFree possible_my_header = Unit
IsFree other_header = Unit
IsFree _ = ⊥

-- The shapes of what may follow, from each section on.
abbrev pub FromCpp : List HeaderType → Type 0
FromCpp ts =
    (cpp : List HeaderType) × (free : List HeaderType) × (ts ≡ cpp ++ free)
    × All IsCpp cpp
    × All IsFree free

abbrev pub FromC : List HeaderType → Type 0
FromC ts =
    (c : List HeaderType) × (rest : List HeaderType) × (ts ≡ c ++ rest) × All IsC c × FromCpp rest

-- The file's own headers, then C headers, then C++ headers, then all but these two.
abbrev pub FromStart : List HeaderType → Type 0
FromStart ts =
    (mine : List HeaderType) × (rest : List HeaderType) × (ts ≡ mine ++ rest)
    × All IsMine mine
    × FromC rest

abbrev pub From : Section → List HeaderType → Type 0
From initial_section ts = FromStart ts
From my_h_section ts = FromStart ts
From c_section ts = FromC ts
From cpp_section ts = FromCpp ts
From other_h_section ts = All IsFree ts

-- one header in front
abbrev Extends : HeaderType → Section → List HeaderType → Option Section → Type 0
Extends t s ts none = ⊥
Extends t s ts (some s') = From s' ts

abbrev Leads : HeaderType → Section → List HeaderType → Type 0
Leads t s ts = Extends t s ts (next_section t s)
