-- ===== src/Config.antt =====
-- cpplint.py: the settings of a run, which are the one `_CppLintState` and the globals
-- `_line_length`, `_root` and `_valid_extensions`. The children hold the command line
-- (`ParseArguments`), the configuration files (`ProcessConfigOverrides`) and the run over the
-- files (`ProcessFile`, `main`).
pub mod Arguments
pub mod Overrides
pub mod Run
use dyod.Prelude.{
  ℕ, ◌+◌, ◌-◌, ◌*◌, Bool, true, false, ◌&&◌, Option, none, some, List, [], ◌∷◌, Text, codes,
  is_space, rstrip, strip, leb, all, ℤ, pos, ◌⊖◌, ◌==◌, if◌then◌else◌,
}
use dyod.LintState.{CppLintState, initial_state}

pub record Settings : Type 0 where
  pub state : CppLintState
  pub line_length : ℤ
  pub root : Option Text
  pub valid_extensions : List Text

abbrev pub initial_settings : Settings
initial_settings = record {
  state = initial_state;
  line_length = pos 80;
  root = none;
  valid_extensions = codes "cc" ∷ codes "h" ∷ codes "cpp" ∷ codes "cu" ∷ codes "cuh" ∷ [];
}

abbrev is_digit : ℕ → Bool
is_digit c = leb b'0' c && leb c b'9'

abbrev decimal : ℕ → Text → ℕ
decimal n [] = n
decimal n (c ∷ s) = decimal (n * 10 + (c - b'0')) s

abbrev digits : Text → Option ℕ
digits [] = none
digits (c ∷ s) = if all is_digit (c ∷ s) then some (decimal 0 (c ∷ s)) else none

abbrev signed : Bool → Option ℕ → Option ℤ
signed minus none = none
signed minus (some n) = some (if minus then 0 ⊖ n else pos n)

abbrev number : Text → Option ℤ
number [] = none
number (c ∷ s) =
    if c == b'-'
    then signed true (digits s)
    else if c == b'+'
    then signed false (digits s)
    else signed false (digits (c ∷ s))

-- `int(s)` of a byte string; `none` is a `ValueError`.
unfoldable pub parse_int : Text → Option ℤ
unfolding rstrip
parse_int s = number (strip is_space s)
