-- ===== src/Tests/Includes.antt =====
-- The order of #include lines, and the lists of headers.
use dyod.Prelude.{◌≡◌, refl, some, List, [], ◌∷◌, codes, text_eq}
use dyod.IncludeState.{
  IncludeState, HeaderType, c_sys_header, cpp_sys_header, likely_my_header, other_header,
  initial_section, cpp_section, check_next_include_order, add_header, find_header,
}

abbrev fresh : IncludeState
fresh = record { include_list = [] ∷ []; section = initial_section; last_header = [] }

abbrev in_cpp : IncludeState
in_cpp = record { include_list = [] ∷ []; section = cpp_section; last_header = codes "string" }

abbrev headers : List HeaderType
headers =
    likely_my_header ∷ c_sys_header ∷ cpp_sys_header ∷ cpp_sys_header ∷ other_header
    ∷ likely_my_header ∷ []

-- a C header behind a C++ header is complained of
c_after_cpp :
    (check_next_include_order c_sys_header in_cpp).1
    ≡ codes "Found C system header after C++ system header"
unfolding check_next_include_order
c_after_cpp = refl

find_added : find_header (codes "a.h") (add_header (codes "a.h") 7 fresh) ≡ some 7
unfolding find_header add_header text_eq
find_added = refl
