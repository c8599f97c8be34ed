-- ===== src/Cleanse/Collapse/Laws.antt =====
-- How `_CollapseStrings` ends, and the length of its result.
use dyod.Prelude.{
  ℕ, zero, suc, ◌+◌, ◌-◌, ◌≤◌, ◌<◌, Bool, true, ◌||◌, Option, none, some, [], ◌∷◌, ◌++◌, ◌≡◌, refl,
  arith, length, length-append, length-drop, Text, codes, find, is_prefix, replace, replace_from,
  text_eq, if_both, if_cases, Option-cases, inl, inr, ◌==◌,
}
use dyod.Regex.{Cursor, match, matches, finds, group_text}
use dyod.Regex.Laws.{length-sub_from}
use dyod.Regex.Weight.{match-Under, groups-held}
use dyod.Cleanse.Collapse.{
  first_quote_pattern, number_end_pattern, number_rest_pattern, cleanse_line_escapes_pattern,
  include_line_pattern, Round, again, stop, close_quote, join_number, collapse_round, collapse_on,
  collapse_loop, no_escape, without_escapes, collapse_strings,
}

length-replace_nil : (skip : ℕ) (p s : Text) → length (replace_from skip p [] s) ≤ length s
unfolding replace_from
length-replace_nil skip p [] = omega arith
length-replace_nil (suc k) p (c ∷ s) = omega (arith, length-replace_nil k p s)
length-replace_nil zero p (c ∷ s) =
    ground (arith, length-replace_nil (length p - 1) p s, length-replace_nil 0 p s)

-- the groups of head and tail, and those of a number
abbrev head_tail : ℕ → Bool
head_tail n = n == 1 || n == 3

abbrev number_parts : ℕ → Bool
number_parts n = n == 1 || n == 2

first_quote-length :
    (s : Text) {m : Cursor}
    → match first_quote_pattern s ≡ some m
    → length (group_text 1 m) + length (group_text 3 m) + 1 ≤ length s
first_quote-length s {m} e = omega (
  arith,
  match-Under head_tail first_quote_pattern s refl e,
  groups-held head_tail 1 3 m.groups refl refl (omega arith),
)

number_rest-length :
    (s : Text) {m : Cursor}
    → match number_rest_pattern s ≡ some m
    → length (group_text 1 m) + length (group_text 2 m) ≤ length s
number_rest-length s {m} e = omega (
  arith,
  match-Under number_parts number_rest_pattern s refl e,
  groups-held number_parts 1 2 m.groups refl refl (omega arith),
)

-- a number has a digit
number_end-nil : (head : Text) → finds number_end_pattern head ≡ true → 0 < length head
unfolding finds
number_end-nil [] e = cc
number_end-nil (c ∷ head) e = omega arith

-- A round leaves less to look at, and together no more text; or it returns no more text.
abbrev Shrinks : Text → Text → Round → Type 0
Shrinks collapsed elided (again collapsed' elided') =
    (length elided' < length elided)
    × (length collapsed' + length elided' ≤ length collapsed + length elided)
Shrinks collapsed elided (stop text) = length text ≤ length collapsed + length elided

stop_Shrinks : (collapsed elided : Text) → Shrinks collapsed elided (stop (collapsed ++ elided))
stop_Shrinks collapsed elided = omega (arith, length-append {0} collapsed elided)

find-lt : (c : ℕ) (s : Text) {i : ℕ} → find (c ∷ []) s ≡ some i → i < length s
unfolding find is_prefix
find-lt c [] e = cc
find-lt c (x ∷ s) {i} e = elim (Option-cases (find (c ∷ []) s)) [
  | inl n ↦ ground (arith, n)
  | inr (j, q) ↦ ground (arith, find-lt c s q)
]

close_quote-Shrinks :
    (collapsed elided head pair tail : Text) (c : ℕ) (o : Option ℕ)
    → length head + length tail + 1 ≤ length elided
    → length pair ≡ 2
    → find (c ∷ []) tail ≡ o
    → Shrinks collapsed elided (close_quote collapsed elided head pair tail o)
close_quote-Shrinks collapsed elided head pair tail c none h p e = stop_Shrinks collapsed elided
close_quote-Shrinks collapsed elided head pair tail c (some i) h p e = omega (
  arith,
  find-lt c tail e,
  length-drop {0} (suc i) tail,
  length-append {0} collapsed (head ++ pair),
  length-append {0} head pair,
)

join_number-Shrinks :
    (collapsed elided head tail : Text) (o : Option Cursor)
    → length head + length tail + 1 ≤ length elided
    → 0 < length head
    → match number_rest_pattern (b'\'' ∷ tail) ≡ o
    → Shrinks collapsed elided (join_number collapsed elided head o)
join_number-Shrinks collapsed elided head tail none h p e = stop_Shrinks collapsed elided
join_number-Shrinks collapsed elided head tail (some m) h p e = omega (
  arith,
  number_rest-length (b'\'' ∷ tail) e,
  length-replace_nil 0 (codes "'") (group_text 1 m),
  length-append {0} collapsed (head ++ replace (codes "'") [] (group_text 1 m)),
  length-append {0} head (replace (codes "'") [] (group_text 1 m)),
)

collapse_round-Shrinks :
    (collapsed elided : Text) (o : Option Cursor)
    → match first_quote_pattern elided ≡ o
    → Shrinks collapsed elided (collapse_round collapsed elided o)
collapse_round-Shrinks collapsed elided none e = stop_Shrinks collapsed elided
collapse_round-Shrinks collapsed elided (some m) e =
    let head = group_text 1 m in
    let tail = group_text 3 m in
    let fits = first_quote-length elided e in
    let P = Shrinks collapsed elided in
    if_both P (text_eq (group_text 2 m) (codes "\""))
      (close_quote-Shrinks collapsed elided head (codes "\"\"") tail b'"' _ fits refl refl)
      (if_cases P (finds number_end_pattern head)
        (λ number.
          join_number-Shrinks collapsed elided head tail _ fits (number_end-nil head number) refl)
        (λ other.
          close_quote-Shrinks collapsed elided head (codes "''") tail b'\'' _ fits refl refl))

-- the loop returns a text that is no longer than what it began with
abbrev Returns : ℕ → Option Text → Type 0
Returns n none = ⊥
Returns n (some text) = length text ≤ n

Returns-le : (n m : ℕ) (r : Option Text) → n ≤ m → Returns n r → Returns m r
Returns-le n m none le h = h
Returns-le n m (some text) le h = omega arith

collapse_on-Returns :
    (collapsed elided : Text) (next : Text → Text → Option Text) (r : Round)
    → ((c e : Text) → length e < length elided → Returns (length c + length e) (next c e))
    → Shrinks collapsed elided r
    → Returns (length collapsed + length elided) (collapse_on next r)
collapse_on-Returns collapsed elided next (again c e) f (lt, le) =
    Returns-le _ _ (next c e) le (f c e lt)
collapse_on-Returns collapsed elided next (stop text) f le = le

collapse_loop-Returns :
    (fuel : ℕ) (collapsed elided : Text)
    → length elided < fuel
    → Returns (length collapsed + length elided) (collapse_loop fuel collapsed elided)
unfolding collapse_loop
collapse_loop-Returns zero collapsed elided h = absurd (omega arith)
collapse_loop-Returns (suc fuel) collapsed elided h =
    collapse_on-Returns collapsed elided (collapse_loop fuel) _
      (λ c e lt. collapse_loop-Returns fuel c e (omega arith))
      (collapse_round-Shrinks collapsed elided (match first_quote_pattern elided) refl)

Returns-some :
    (n : ℕ) (r : Option Text) → Returns n r → (text : Text) × (r ≡ some text) × (length text ≤ n)
Returns-some n none h = absurd h
Returns-some n (some text) h = (text, refl, h)

-- `_CollapseStrings` ends on every line, and its result is not longer than the line.
pub collapse_strings_total :
    (line : Text)
    → (text : Text) × (collapse_strings line ≡ some text) × (length text ≤ length line)
unfolding collapse_strings
collapse_strings_total line =
    let shorter = length-sub_from 0 cleanse_line_escapes_pattern no_escape none line (λ m. refl) in
    Returns-some (length line) _ (
      if_both (Returns (length line)) (matches include_line_pattern line) (omega arith) (
        Returns-le _ (length line) _ (omega (arith, shorter)) (
          collapse_loop-Returns (suc (length (without_escapes line))) [] (without_escapes line)
            (omega arith))))
