-- ===== src/Nesting/Template.antt =====
-- cpplint.py: `NestingState.InTemplateArgumentList`.
pub mod Laws
use dyod.Prelude.{
  ℕ, zero, suc, ◌+◌, ◌-◌, Bool, true, false, not, Option, none, some, List, [], ◌∷◌, Text, codes,
  get_elem?, length, drop, text_eq, text_mem, leb, if◌then◌else◌,
}
use dyod.Regex.{Re, Cursor, at_start, star, none_of, grp, dot, seqs, match, group_text}
use dyod.Brackets.{Place, close_expression}

-- `^[^{};=\[\]\.<>]*(.)`
abbrev pub argument_pattern : Re
argument_pattern = seqs (at_start ∷ star (none_of (codes "{};=[].<>")) ∷ grp 1 dot ∷ [])

-- What a round of the loop does: it goes on at a line and a position, or it returns an answer, or
-- an index is out of range.
pub data ArgumentStep : Type 0 where
  go_on : ℕ → ℕ → ArgumentStep
  answer : Bool → ArgumentStep
  raise : ArgumentStep

abbrev pub behind_place : ℕ → Option ℕ → ArgumentStep
behind_place linenum none = answer false
behind_place linenum (some pos) = go_on linenum pos

abbrev pub behind_angle : Option Place → ArgumentStep
behind_angle none = raise
behind_angle (some q) = behind_place q.linenum q.pos

-- the token in front of the position `pos` of `line`
abbrev pub at_token : List Text → ℕ → Text → ℕ → Text → ArgumentStep
at_token elided linenum line pos token =
    if text_mem token (codes "{" ∷ codes "}" ∷ codes ";" ∷ [])
    then answer false
    else if text_mem token (codes ">" ∷ codes "=" ∷ codes "[" ∷ codes "]" ∷ codes "." ∷ [])
    then answer true
    else if not (text_eq token (codes "<"))
    then (if leb (length line) (suc pos) then go_on (suc linenum) 0 else go_on linenum (suc pos))
    else behind_angle (close_expression elided linenum (pos - 1))

abbrev pub argument_match : List Text → ℕ → Text → ℕ → Option Cursor → ArgumentStep
argument_match elided linenum line pos none = go_on (suc linenum) 0
argument_match elided linenum line pos (some m) =
    at_token elided linenum line (pos + (length (drop pos line) - length m.rest)) (group_text 1 m)

-- The body of the loop. Behind the last line it ends.
abbrev pub argument_step : List Text → ℕ → ℕ → Option Text → ArgumentStep
argument_step elided linenum pos none = answer false
argument_step elided linenum pos (some line) =
    argument_match elided linenum line pos (match argument_pattern (drop pos line))

abbrev pub argument_on : (ℕ → ℕ → Option Bool) → ArgumentStep → Option Bool
argument_on next (go_on linenum pos) = next linenum pos
argument_on next (answer b) = some b
argument_on next raise = none

unfoldable pub argument_loop : ℕ → List Text → ℕ → ℕ → Option Bool
argument_loop zero elided linenum pos = none
argument_loop (suc fuel) elided linenum pos =
    argument_on (argument_loop fuel elided)
      (argument_step elided linenum pos (get_elem? elided linenum))

-- the characters of the lines and their ends
abbrev pub size : List Text → ℕ
size [] = 0
size (line ∷ lines) = suc (length line) + size lines

-- `InTemplateArgumentList`; every round moves forward, so that the size of the lines is enough
-- fuel.
unfoldable pub in_template_argument_list : List Text → ℕ → ℕ → Option Bool
in_template_argument_list elided linenum pos = argument_loop (suc (size elided)) elided linenum pos
