-- ===== src/Tests/Brackets.antt =====
-- `CloseExpression` and `ReverseCloseExpression` on `f(a[1], b) {` and on a call over two lines.
use dyod.Prelude.{ℕ, some, List, [], ◌∷◌, Text, codes}
use dyod.Brackets.{Place}

abbrev call : List Text
call = codes "int x;" ∷ codes "f(a[1]) {" ∷ []

-- `a[1]`
abbrev inside : Text
inside = codes "a[1]"

abbrev place : ℕ → Place
place p = record { line = codes "f(a[1]) {"; linenum = 1; pos = some p }

abbrev split_call : List Text
split_call = codes "f(a," ∷ codes "  b);" ∷ []

abbrev split_end : Place
split_end = record { line = codes "  b);"; linenum = 1; pos = some 4 }
