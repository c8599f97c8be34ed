-- ===== src/Brackets/Reverse.antt =====
-- `ReverseCloseExpression` over balanced text.
use dyod.Prelude.{List, [], ◌∷◌, Text}

-- the characters of a text, walked backwards from its end, with `before` in front of it
abbrev pub onto : Text → Text → Text
onto [] before = before
onto (c ∷ w) before = onto w (c ∷ before)
