-- ===== src/IncludeState/Order.antt =====
-- `CheckNextIncludeOrder` over the headers of a file.
use dyod.Prelude.{◌≤◌, Option, none, some, [], ◌≡◌, ◌≢◌, ◌↔◌, ◌⊎◌, inl, inr, refl, arith}
use dyod.IncludeState.{
  HeaderType, c_sys_header, cpp_sys_header, likely_my_header, possible_my_header, other_header,
  Section, initial_section, my_h_section, c_section, cpp_section, other_h_section, rank,
  IncludeState, next_section, enter_section, order_message, check_next_include_order,
}

-- What `CheckNextIncludeOrder` does to the section, and whether it complains.
abbrev Steps : HeaderType → Section → Option Section → Type 0
Steps t s none = ((t ≡ c_sys_header) × (3 ≤ rank s)) ⊎ ((t ≡ cpp_sys_header) × (4 ≤ rank s))
Steps t s (some s') =
    (rank s ≤ rank s')
    × ¬ (((t ≡ c_sys_header) × (3 ≤ rank s)) ⊎ ((t ≡ cpp_sys_header) × (4 ≤ rank s)))

next_section-Steps : (t : HeaderType) (s : Section) → Steps t s (next_section t s)
unfolding next_section
next_section-Steps c_sys_header initial_section = ground arith
next_section-Steps c_sys_header my_h_section = ground arith
next_section-Steps c_sys_header c_section = ground arith
next_section-Steps c_sys_header cpp_section = inl (refl, omega arith)
next_section-Steps c_sys_header other_h_section = inl (refl, omega arith)
next_section-Steps cpp_sys_header initial_section = ground arith
next_section-Steps cpp_sys_header my_h_section = ground arith
next_section-Steps cpp_sys_header c_section = ground arith
next_section-Steps cpp_sys_header cpp_section = ground arith
next_section-Steps cpp_sys_header other_h_section = inr (refl, omega arith)
next_section-Steps likely_my_header s = ground arith
next_section-Steps possible_my_header s = ground arith
next_section-Steps other_header s = ground arith

abbrev pub OutOfOrder : HeaderType → Section → Type 0
OutOfOrder t s = ((t ≡ c_sys_header) × (3 ≤ rank s)) ⊎ ((t ≡ cpp_sys_header) × (4 ≤ rank s))

order_message-ne-nil : (t : HeaderType) (s : Section) → order_message t s ≢ []
unfolding order_message
order_message-ne-nil t s e = cc

enter_section-lem :
    (t : HeaderType) (s : IncludeState) (r : Option Section)
    → Steps t s.section r
    → (rank s.section ≤ rank (enter_section t r s).0.section)
      × ((enter_section t r s).0.include_list ≡ s.include_list)
      × (((enter_section t r s).1 ≢ []) ↔ OutOfOrder t s.section)
unfolding enter_section
enter_section-lem t s none h = (omega arith, refl, (λ p. h, λ o. order_message-ne-nil t s.section))
enter_section-lem t s (some s') (le, fine) =
    (le, refl, (λ p. absurd (p refl), λ o. absurd (fine o)))

-- A header never leads back to an earlier section and leaves the list of headers alone; and there
-- is a message exactly if a C header comes behind the C section or a C++ header behind the C++
-- section.
pub check_next_include_order_step :
    (t : HeaderType) (s : IncludeState)
    → (rank s.section ≤ rank (check_next_include_order t s).0.section)
      × ((check_next_include_order t s).0.include_list ≡ s.include_list)
      × (((check_next_include_order t s).1 ≢ []) ↔ OutOfOrder t s.section)
unfolding check_next_include_order
check_next_include_order_step t s =
    enter_section-lem t s (next_section t s.section) (next_section-Steps t s.section)
