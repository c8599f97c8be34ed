-- ===== src/Nesting/Indentation.antt =====
-- cpplint.py: `CheckForNamespaceIndentation` and the functions that it calls. The stack of the state
-- is the one behind `Update`. `==` on blocks is that of Python's objects, which is identity: two
-- blocks with the same fields may differ. It is a parameter here, `same_object`.
use dyod.Prelude.{
  ℕ, ◌-◌, Bool, true, false, not, ◌&&◌, ◌||◌, Option, some, List, [], ◌∷◌, Text, codes, get_or, ltb,
  if◌then◌else◌,
}
use dyod.Regex.{
  Re, at_end, at_start, dot, finds, grp, lit, matches, plus, seqs, space, star, word, word_edge,
}
use dyod.Report.{Report, report}
use dyod.Nesting.{BlockInfo, NestingState, check_namespace_indentation, namespace_block}

-- `^\s*(\btemplate\b)*.*class\s+\w+;\s*$`
abbrev forward_class_pattern : Re
forward_class_pattern = seqs (
    at_start
    ∷ star space
    ∷ star (grp 1 (seqs (word_edge ∷ lit (codes "template") ∷ word_edge ∷ [])))
    ∷ star dot
    ∷ lit (codes "class")
    ∷ plus space
    ∷ plus word
    ∷ lit (codes ";")
    ∷ star space
    ∷ at_end
    ∷ [])

-- `^#define` and `\\$`
abbrev define_pattern : Re
define_pattern = seqs (at_start ∷ lit (codes "#define") ∷ [])

abbrev continued_pattern : Re
continued_pattern = seqs (lit (codes "\\") ∷ at_end ∷ [])

-- `^\s+`
abbrev indented_pattern : Re
indented_pattern = seqs (at_start ∷ plus space ∷ [])

abbrev pub is_namespace : BlockInfo → Bool
is_namespace b = elim b.kind [ namespace_block name ↦ true | _ ↦ false ]

abbrev top_is_namespace : List BlockInfo → Bool
top_is_namespace [] = false
top_is_namespace (b ∷ st) = is_namespace b

abbrev item_in_namespace : List BlockInfo → Bool
item_in_namespace [] = false
item_in_namespace (b ∷ []) = false
item_in_namespace (b ∷ around ∷ st) = check_namespace_indentation b.kind && is_namespace around

-- `IsBlockInNameSpace`
abbrev pub is_block_in_name_space : List BlockInfo → Bool → Bool
is_block_in_name_space st true = top_is_namespace st
is_block_in_name_space st false = item_in_namespace st

module _ (lines : List Text) (linenum : ℕ) where
  unfoldable pub is_macro_definition : Bool
  unfolding finds
  is_macro_definition =
      finds define_pattern (get_or lines linenum [])
      || ltb 0 linenum && finds continued_pattern (get_or lines (linenum - 1) [])

  unfoldable pub is_forward_class_declaration : Bool
  unfolding matches
  is_forward_class_declaration = matches forward_class_pattern (get_or lines linenum [])

  unfoldable pub should_check_namespace_indentation : List BlockInfo → Bool → Bool
  unfolding is_macro_definition is_forward_class_declaration
  should_check_namespace_indentation st is_namespace_indent_item =
      (is_namespace_indent_item || is_forward_class_declaration)
      && not is_macro_definition
      && is_block_in_name_space st is_forward_class_declaration

  pub indentation_report : Text → Report
  indentation_report filename =
      report filename linenum (codes "runtime/indentation_namespace") 4
        (codes "Do not indent within a namespace")

  abbrev check_item_indentation_in_namespace : Text → List Report
  check_item_indentation_in_namespace filename =
      if matches indented_pattern (get_or lines linenum [])
      then indentation_report filename ∷ []
      else []

abbrev indent_item : (BlockInfo → BlockInfo → Bool) → List BlockInfo → Option BlockInfo → Bool
indent_item same_object (b ∷ around ∷ st) (some previous) =
    check_namespace_indentation b.kind && is_namespace previous && same_object previous around
indent_item same_object _ _ = false

-- The line is one of the file.
unfoldable pub check_for_namespace_indentation :
    (BlockInfo → BlockInfo → Bool) → Text → List Text → ℕ → NestingState → List Report
unfolding should_check_namespace_indentation
check_for_namespace_indentation same_object filename elided linenum s =
    if should_check_namespace_indentation elided linenum s.stack
      (indent_item same_object s.stack s.previous_stack_top)
    then check_item_indentation_in_namespace elided linenum filename
    else []
