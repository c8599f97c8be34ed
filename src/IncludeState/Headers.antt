-- ===== src/IncludeState/Headers.antt =====
-- The lists of headers: `FindHeader` against what was added, over `ResetSection`.
use dyod.Prelude.{
  ℕ, false, Option, none, some, List, [], ◌∷◌, ◌++◌, ◌≡◌, refl, arith, is_empty, Text, text_eq,
  text_mem, if◌then◌else◌, if_both,
}
use dyod.IncludeState.{
  IncludeState, find_in_section, find_in_list, find_header, append_last, add_header, reset_section,
  new_include_state, clear_last, opens_conditional, continues_conditional,
}

-- There is always a list to append to.
abbrev pub HasSection : IncludeState → Type 0
HasSection s = is_empty s.include_list ≡ false

pub new_include_state-HasSection : HasSection new_include_state
unfolding new_include_state text_mem
new_include_state-HasSection = refl

append_ne : (xs : List (List (Text × ℕ))) (x : List (Text × ℕ)) → is_empty (xs ++ x ∷ []) ≡ false
append_ne [] x = refl
append_ne (y ∷ xs) x = refl

clear_last_ne :
    (xs : List (List (Text × ℕ))) → is_empty xs ≡ false → is_empty (clear_last xs) ≡ false
clear_last_ne [] h = h
clear_last_ne (x ∷ []) h = refl
clear_last_ne (x ∷ y ∷ xs) h = refl

pub reset_section-HasSection :
    (d : Text) (s : IncludeState) → HasSection s → HasSection (reset_section d s)
unfolding reset_section
reset_section-HasSection d s h =
    let P = λ (xs : List (List (Text × ℕ))). is_empty xs ≡ false in
    if_both P (opens_conditional d) (append_ne s.include_list [])
      (if_both P (continues_conditional d) (clear_last_ne s.include_list h) h)

pub append_last_ne :
    (a : Text × ℕ) (xs : List (List (Text × ℕ)))
    → is_empty xs ≡ false
    → is_empty (append_last a xs) ≡ false
append_last_ne a [] h = h
append_last_ne a (x ∷ []) h = refl
append_last_ne a (x ∷ y ∷ xs) h = refl

abbrev pub or_found : Text → Text × ℕ → Option ℕ → Option ℕ
or_found h entry (some m) = some m
or_found h (k, n) none = if text_eq k h then some n else none

find_in_section-append :
    (h k : Text) (n : ℕ) (fs : List (Text × ℕ))
    → find_in_section h (fs ++ (k, n) ∷ []) ≡ or_found h (k, n) (find_in_section h fs)
unfolding find_in_section
find_in_section-append h k n [] = refl
find_in_section-append h k n ((j, m) ∷ fs) = ground (arith, find_in_section-append h k n fs)

find_in_list-append_last :
    (h k : Text) (n : ℕ) (xs : List (List (Text × ℕ)))
    → is_empty xs ≡ false
    → find_in_list h (append_last (k, n) xs) ≡ or_found h (k, n) (find_in_list h xs)
unfolding find_in_list
find_in_list-append_last h k n [] e = cc
find_in_list-append_last h k n (x ∷ []) e = ground (arith, find_in_section-append h k n x)
find_in_list-append_last h k n (x ∷ y ∷ xs) e =
    ground (arith, find_in_list-append_last h k n (y ∷ xs) refl)

-- Behind an #include of `k` on line `n`, `FindHeader` answers for `k` with the line of its first
-- #include, which is `n` if there was none, and for every other header as before.
pub find_header-add_header :
    (h k : Text) (n : ℕ) (s : IncludeState)
    → HasSection s
    → find_header h (add_header k n s) ≡ or_found h (k, n) (find_header h s)
unfolding find_header add_header
find_header-add_header h k n s ne = find_in_list-append_last h k n s.include_list ne

find_in_list-nil :
    (h : Text) (xs : List (List (Text × ℕ))) → find_in_list h (xs ++ [] ∷ []) ≡ find_in_list h xs
unfolding find_in_list find_in_section
find_in_list-nil h [] = refl
find_in_list-nil h (x ∷ xs) = ground (arith, find_in_list-nil h xs)

-- #if, #ifdef and #ifndef, and directives other than #else and #elif, forget no header.
pub find_header-reset_section :
    (h d : Text) (s : IncludeState)
    → continues_conditional d ≡ false
    → find_header h (reset_section d s) ≡ find_header h s
unfolding find_header reset_section
find_header-reset_section h d s e = rw e (
    if_both (λ xs. find_in_list h xs ≡ find_in_list h s.include_list) (opens_conditional d)
      (find_in_list-nil h s.include_list) refl)
