-- ===== src/TextInside.antt =====
-- cpplint.py: `_GetTextInside`. The pattern has no `^` and no `$`, whose meaning `re.M` changes.
pub mod Match
use dyod.Prelude.{
  ℕ, suc, ◌-◌, Option, none, some, List, [], ◌∷◌, Text, drop, get_elem?, length, take, ◌==◌,
  if◌then◌else◌,
}
use dyod.Regex.{Re, Cursor, search}
use dyod.Brackets.{is_opener, is_closer}

-- `matching_punctuation` of an opening punctuation
abbrev pub matching : ℕ → ℕ
matching c = if c == b'(' then b')' else if c == b'{' then b'}' else b']'

-- The loop, over the text from `position` on: the position behind the matching punctuation, with the
-- closing punctuations that are expected on the stack.
unfoldable pub inside_loop : List ℕ → ℕ → Text → Option ℕ
inside_loop [] position s = some position
inside_loop (p ∷ st) position [] = none
inside_loop (p ∷ st) position (c ∷ s) =
    let popped = inside_loop st (suc position) s in
    let pushed = inside_loop (matching c ∷ p ∷ st) (suc position) s in
    let passed = inside_loop (p ∷ st) (suc position) s in
    if c == p then popped else if is_closer c then none else if is_opener c then pushed else passed

-- `text[start_position:position - 1]`
abbrev text_to : Text → ℕ → Option ℕ → Option Text
text_to text start none = none
text_to text start (some position) = some (drop start (take (position - 1) text))

abbrev from_punctuation : Text → ℕ → Option ℕ → Option (Option Text)
from_punctuation text start none = none
from_punctuation text start (some c) =
    let inside =
      some (text_to text start (inside_loop (matching c ∷ []) start (drop start text))) in
    if is_opener c then inside else none

-- `start_position` is where the match ends.
abbrev from_match : Text → Option (ℕ × Cursor) → Option (Option Text)
from_match text none = some none
from_match text (some (i, m)) =
    let start = length text - length m.rest in
    if start == 0 then none else from_punctuation text start (get_elem? text (start - 1))

-- `_GetTextInside`: `some none` is Python's None, and `none` a failed assertion.
unfoldable pub get_text_inside : Re → Text → Option (Option Text)
unfolding search inside_loop
get_text_inside pattern text = from_match text (search pattern text)
