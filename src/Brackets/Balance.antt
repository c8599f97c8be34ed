-- ===== src/Brackets/Balance.antt =====
-- `CloseExpression` over balanced text, which is passed over without a trace.
use dyod.Prelude.{ℕ, Bool, true, not, ◌||◌, List, [], ◌∷◌, ◌++◌, ◌≡◌, Text, ◌==◌}
use dyod.Brackets.{is_opener, is_closer, is_pair}

-- no bracket and no angle
abbrev pub is_plain : ℕ → Bool
is_plain c = not (is_opener c || is_closer c || c == b'<' || c == b'>')

-- Text with matching brackets, and with no angle in it.
pub data Balanced : Text → Type 0 where
  nil : Balanced []
  plain : {w : Text} (c : ℕ) → is_plain c ≡ true → Balanced w → Balanced (c ∷ w)
  bracket :
      {u v : Text} (o c : ℕ)
      → is_pair o c ≡ true
      → Balanced u
      → Balanced v
      → Balanced (o ∷ u ++ c ∷ v)

-- A line that has a bracket, balanced text and the bracket's partner from position
-- `length before` on.
abbrev pub bracket_line : Text → ℕ → Text → ℕ → Text → Text
bracket_line before o w c rest = before ++ o ∷ (w ++ c ∷ rest)
