-- ===== src/Nesting/Preprocessor.antt =====
-- cpplint.py: `NestingState.UpdatePreprocessor`.
pub mod Conditionals
use dyod.Prelude.{true, false, List, [], ◌∷◌, Text, codes, if◌then◌else◌}
use dyod.Regex.{Re, at_start, star, space, lit, alts, word_edge, seqs, matches}
use dyod.Nesting.{BlockInfo, PreprocessorInfo, NestingState}

-- `^\s*#\s*(...)\b`
abbrev pub directive : List Re → Re
directive words =
    seqs (at_start ∷ star space ∷ lit (codes "#") ∷ star space ∷ alts words ∷ word_edge ∷ [])

abbrev pub if_pattern : Re
if_pattern = directive (lit (codes "if") ∷ lit (codes "ifdef") ∷ lit (codes "ifndef") ∷ [])

abbrev pub else_pattern : Re
else_pattern = directive (lit (codes "else") ∷ lit (codes "elif") ∷ [])

abbrev pub endif_pattern : Re
endif_pattern = directive (lit (codes "endif") ∷ [])

unfoldable pub at_if : NestingState → NestingState
at_if s = record s {
  pp_stack =
      record { stack_before_if = s.stack; stack_before_else = []; seen_else = false } ∷ s.pp_stack;
}

-- what the first `#else` notes down: the stack up to it
abbrev pub see_else : List BlockInfo → PreprocessorInfo → PreprocessorInfo
see_else stack p =
    if p.seen_else then p else record p { seen_else = true; stack_before_else = stack }

abbrev pub else_on : NestingState → List PreprocessorInfo → NestingState
else_on s [] = s
else_on s (p ∷ ps) = record s { pp_stack = see_else s.stack p ∷ ps; stack = p.stack_before_if }

unfoldable pub at_else : NestingState → NestingState
at_else s = else_on s s.pp_stack

abbrev pub endif_on : NestingState → List PreprocessorInfo → NestingState
endif_on s [] = s
endif_on s (p ∷ ps) = record s {
  pp_stack = ps;
  stack = if p.seen_else then p.stack_before_else else s.stack;
}

unfoldable pub at_endif : NestingState → NestingState
at_endif s = endif_on s s.pp_stack

unfoldable pub update_preprocessor : Text → NestingState → NestingState
update_preprocessor line s =
    if matches if_pattern line
    then at_if s
    else if matches else_pattern line
    then at_else s
    else if matches endif_pattern line
    then at_endif s
    else s
