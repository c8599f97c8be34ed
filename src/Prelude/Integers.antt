-- ===== src/Prelude/Integers.antt =====
-- Integers over the native numbers, under the library's names.
use Prim.Native.Nat.{ℕ, suc, ◌+◌, ◌-◌}
use mathlib.Core.Bool.{Bool, false}
use dyod.Prelude.Tests.{leb, ◌==◌, if◌then◌else◌}

pub data ℤ : Type 0 where
  pos : ℕ → ℤ
  negsuc : ℕ → ℤ

-- the difference of two numbers
infixl 60 ◌⊖◌
abbrev pub ◌⊖◌ : ℕ → ℕ → ℤ
a ⊖ b = if leb b a then pos (a - b) else negsuc (b - a - 1)

infixl 60 ◌+ℤ◌
abbrev pub ◌+ℤ◌ : ℤ → ℤ → ℤ
pos a +ℤ pos b = pos (a + b)
pos a +ℤ negsuc b = a ⊖ suc b
negsuc a +ℤ pos b = b ⊖ suc a
negsuc a +ℤ negsuc b = negsuc (suc (a + b))

-- `z == n`
abbrev pub is_pos : ℕ → ℤ → Bool
is_pos n (pos m) = m == n
is_pos n (negsuc m) = false
