-- ===== src/FunctionState.antt =====
-- cpplint.py: `_FunctionState`, the length of the function at hand.
pub mod Length
pub mod Lines
use dyod.Prelude.{
  ℕ, zero, suc, ◌+◌, ◌*◌, ◌/◌, ◌^◌, Bool, true, false, not, List, [], ◌∷◌, ◌++◌, Text, codes, ltb,
  if◌then◌else◌,
}
use dyod.Regex.{Re, alt, seq, lit, matches}
use dyod.Report.{Report, show}

pub record FunctionState : Type 0 where
  pub in_a_function : Bool
  pub lines_in_function : ℕ
  pub current_function : Text

abbrev normal_trigger : ℕ
normal_trigger = 250

abbrev test_trigger : ℕ
test_trigger = 400

-- `__init__`
abbrev pub new_function_state : FunctionState
new_function_state = record { in_a_function = false; lines_in_function = 0; current_function = [] }

abbrev pub begin : Text → FunctionState → FunctionState
begin name s = record { in_a_function = true; lines_in_function = 0; current_function = name }

abbrev pub count_line : FunctionState → FunctionState
count_line s =
    if s.in_a_function then record s { lines_in_function = s.lines_in_function + 1 } else s

abbrev pub end : FunctionState → FunctionState
end s = record s { in_a_function = false }

-- `T(EST|est)`
abbrev pub test_pattern : Re
test_pattern = seq (lit (codes "T")) (alt (lit (codes "EST")) (lit (codes "est")))

abbrev pub base_trigger : Text → ℕ
base_trigger name = if matches test_pattern name then test_trigger else normal_trigger

-- `int(math.log(n, 2))` for a positive n, by halving: the fuel n is enough.
pub log2_fuel : ℕ → ℕ → ℕ
log2_fuel zero n = 0
log2_fuel (suc fuel) n = let more = suc (log2_fuel fuel (n / 2)) in if ltb n 2 then 0 else more

pub log2 : ℕ → ℕ
unfolding log2_fuel
log2 n = log2_fuel n n

-- `/` divides integers here, as in Python 2.
abbrev pub error_level : ℕ → ℕ → ℕ
error_level lines base = let level = log2 (lines / base) in if ltb 5 level then 5 else level

length_message : Text → ℕ → ℕ → Text
length_message name lines trigger =
    codes "Small and focused functions are preferred: "
    ++ name
    ++ codes " has "
    ++ show lines
    ++ codes " non-comment lines (error triggered by exceeding "
    ++ show trigger
    ++ codes " lines)."

pub length_report : Text → ℕ → FunctionState → ℕ → ℕ → Report
unfolding length_message
length_report filename linenum s base trigger = record {
  filename = filename;
  linenum = linenum;
  category = codes "readability/fn_size";
  confidence = error_level s.lines_in_function base;
  message = length_message s.current_function s.lines_in_function trigger;
}

-- `Check`, at the verbosity of the module
unfoldable pub check : ℕ → Text → ℕ → FunctionState → List Report
check verbose filename linenum s =
    let base = base_trigger s.current_function in
    let trigger = base * 2 ^ verbose in
    if not s.in_a_function
    then []
    else if ltb trigger s.lines_in_function
    then length_report filename linenum s base trigger ∷ []
    else []
