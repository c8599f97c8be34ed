-- ===== src/Nesting/Starts.antt =====
-- The order of the blocks on the stack.
use dyod.Prelude.{ℕ, ◌≤◌, List, [], ◌∷◌, arith}
use dyod.Nesting.{BlockInfo}

-- Every block of the stack starts at line `n` or before, and none before the block around it.
abbrev pub Starts : ℕ → List BlockInfo → Type 0
Starts n [] = Unit
Starts n (b ∷ st) = (b.starting_linenum ≤ n) × Starts b.starting_linenum st

pub Starts-le : (n m : ℕ) (st : List BlockInfo) → n ≤ m → Starts n st → Starts m st
Starts-le n m [] le h = tt
Starts-le n m (b ∷ st) le (h, hs) = (omega arith, hs)
