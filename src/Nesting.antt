-- ===== src/Nesting.antt =====
-- cpplint.py: `_BlockInfo` and its subclasses, `_PreprocessorInfo`, and the state and the queries of
-- `NestingState`. Nothing else holds the objects on the stack, whose copies are deep, so that they
-- are values here; only `previous_stack_top` is the object itself in Python, and here the value it
-- had: what is read of it is its class. The head of a list is the top of the stack.
pub mod Starts
pub mod Blocks
pub mod Preprocessor
pub mod Braces
pub mod Template
pub mod Update
pub mod Indentation
use dyod.Prelude.{ℕ, Bool, true, false, Option, none, some, List, [], ◌∷◌, Text, ℤ, pos}

-- `_NO_ASM`, `_INSIDE_ASM`, `_END_ASM` and `_BLOCK_ASM`
pub data AsmState : Type 0 where
  no_asm : AsmState
  inside_asm : AsmState
  end_asm : AsmState
  block_asm : AsmState

pub record ClassInfo : Type 0 where
  pub name : Text
  pub is_derived : Bool
  pub access : Text
  pub is_struct : Bool
  pub class_indent : ℕ
  pub last_line : ℕ

-- the class of a block, with the fields of its own
pub data BlockKind : Type 0 where
  plain_block : BlockKind
  extern_c : BlockKind
  class_block : ClassInfo → BlockKind
  namespace_block : Text → BlockKind

pub record BlockInfo : Type 0 where
  pub starting_linenum : ℕ
  pub seen_open_brace : Bool
  pub open_parentheses : ℤ
  pub inline_asm : AsmState
  pub kind : BlockKind

abbrev pub new_block : ℕ → Bool → BlockKind → BlockInfo
new_block linenum seen kind = record {
  starting_linenum = linenum;
  seen_open_brace = seen;
  open_parentheses = pos 0;
  inline_asm = no_asm;
  kind = kind;
}

-- `check_namespace_indentation`
abbrev pub check_namespace_indentation : BlockKind → Bool
check_namespace_indentation plain_block = false
check_namespace_indentation extern_c = false
check_namespace_indentation (class_block c) = true
check_namespace_indentation (namespace_block name) = true

-- `IsBlockInfo`
abbrev pub is_block_info : BlockInfo → Bool
is_block_info b = elim b.kind [ plain_block ↦ true | _ ↦ false ]

pub record PreprocessorInfo : Type 0 where
  pub stack_before_if : List BlockInfo
  pub stack_before_else : List BlockInfo
  pub seen_else : Bool

pub record NestingState : Type 0 where
  pub stack : List BlockInfo
  pub previous_stack_top : Option BlockInfo
  pub pp_stack : List PreprocessorInfo

abbrev pub new_nesting_state : NestingState
new_nesting_state = record { stack = []; previous_stack_top = none; pp_stack = [] }

abbrev pub top : List BlockInfo → Option BlockInfo
top [] = none
top (b ∷ bs) = some b

-- `SeenOpenBrace`
abbrev pub seen_brace : List BlockInfo → Bool
seen_brace [] = true
seen_brace (b ∷ bs) = b.seen_open_brace

abbrev pub seen_open_brace_of : NestingState → Bool
seen_open_brace_of s = seen_brace s.stack

abbrev top_is : (BlockInfo → Bool) → List BlockInfo → Bool
top_is p [] = false
top_is p (b ∷ bs) = p b

abbrev pub in_namespace_body : NestingState → Bool
in_namespace_body s = top_is (λ b. elim b.kind [ namespace_block n ↦ true | _ ↦ false ]) s.stack

abbrev pub in_extern_c : NestingState → Bool
in_extern_c s = top_is (λ b. elim b.kind [ extern_c ↦ true | _ ↦ false ]) s.stack

abbrev pub in_class_declaration : NestingState → Bool
in_class_declaration s = top_is (λ b. elim b.kind [ class_block c ↦ true | _ ↦ false ]) s.stack

abbrev pub in_asm_block : NestingState → Bool
in_asm_block s = top_is (λ b. elim b.inline_asm [ no_asm ↦ false | _ ↦ true ]) s.stack

-- the loop of `InnermostClass`, from the top of the stack
unfoldable pub innermost : List BlockInfo → Option ClassInfo
innermost [] = none
innermost (b ∷ bs) = let outer = innermost bs in elim b.kind [ class_block c ↦ some c | _ ↦ outer ]

abbrev pub innermost_class : NestingState → Option ClassInfo
innermost_class s = innermost s.stack
