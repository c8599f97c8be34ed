-- ===== src/Nesting/Preprocessor/Conditionals.antt =====
-- Conditionals in the code, and what `UpdatePreprocessor` makes of them.
use dyod.Prelude.{
  true, false, List, [], ◌∷◌, ◌≡◌, refl, ap, ◌∙◌, Text, if◌then◌else◌, Option, Bool-cases, inl, inr,
}
use dyod.Regex.{matches}
use dyod.Nesting.{BlockInfo, PreprocessorInfo, NestingState}
use dyod.Nesting.Preprocessor.{
  if_pattern, else_pattern, endif_pattern, at_if, at_else, see_else, at_endif, update_preprocessor,
}

-- A line, with what the rest of `Update` makes of the stack there.
pub record Line : Type 0 where
  pub text : Text
  pub edit : List BlockInfo → List BlockInfo

-- Code whose conditionals are nested: lines, and conditionals with the lines of their directives.
mutual
  pub data Code : Type 0 where
    nothing : Code
    line : Line → Code → Code
    conditional : Line → Code → Branches → Line → Code → Code

  pub data Branches : Type 0 where
    no_branch : Branches
    branch : Line → Code → Branches → Branches

abbrev pub IsIf : Text → Type 0
IsIf t = matches if_pattern t ≡ true

abbrev pub IsElse : Text → Type 0
IsElse t = (matches if_pattern t ≡ false) × (matches else_pattern t ≡ true)

abbrev pub IsEndif : Text → Type 0
IsEndif t =
    (matches if_pattern t ≡ false)
    × (matches else_pattern t ≡ false)
    × (matches endif_pattern t ≡ true)

abbrev pub IsPlain : Text → Type 0
IsPlain t =
    (matches if_pattern t ≡ false)
    × (matches else_pattern t ≡ false)
    × (matches endif_pattern t ≡ false)

-- Every line is the directive that its place asks for.
unfoldable mutual
  pub IsNested : Code → Type 0
  IsNested nothing = Unit
  IsNested (line l c) = IsPlain l.text × IsNested c
  IsNested (conditional i first bs e c) =
      IsIf i.text × IsNested first × AreBranches bs × IsEndif e.text × IsNested c

  pub AreBranches : Branches → Type 0
  AreBranches no_branch = Unit
  AreBranches (branch l c bs) = IsElse l.text × IsNested c × AreBranches bs

-- the lines in their order, as `Update` goes over them
abbrev pub pass : Line → NestingState → NestingState
pass l s = let s' = update_preprocessor l.text s in record s' { stack = l.edit s'.stack }

unfoldable mutual
  pub run_code : Code → NestingState → NestingState
  run_code nothing s = s
  run_code (line l c) s = run_code c (pass l s)
  run_code (conditional i first bs e c) s =
      run_code c (pass e (run_branches bs (run_code first (pass i s))))

  pub run_branches : Branches → NestingState → NestingState
  run_branches no_branch s = s
  run_branches (branch l c bs) s = run_branches bs (run_code c (pass l s))

-- the stack if only the first branch of each conditional were there
unfoldable pub first_branches : Code → List BlockInfo → List BlockInfo
first_branches nothing st = st
first_branches (line l c) st = first_branches c (l.edit st)
first_branches (conditional i first bs e c) st =
    first_branches c (e.edit (first_branches first (i.edit st)))

-- the stack that `#endif` leaves
abbrev resulting : PreprocessorInfo → List BlockInfo → List BlockInfo
resulting p st = if p.seen_else then p.stack_before_else else st

pass-plain :
    (l : Line) (s : NestingState) → IsPlain l.text → pass l s ≡ record s { stack = l.edit s.stack }
unfolding update_preprocessor
pass-plain l s (i, e, d) = rw (i, e, d) refl

pass-if :
    (l : Line) (s : NestingState)
    → IsIf l.text
    → pass l s ≡ record (at_if s) { stack = l.edit (at_if s).stack }
unfolding update_preprocessor
pass-if l s i = rw i refl

pass-else :
    (l : Line) (s : NestingState)
    → IsElse l.text
    → pass l s ≡ record (at_else s) { stack = l.edit (at_else s).stack }
unfolding update_preprocessor
pass-else l s (i, e) = rw (i, e) refl

pass-endif :
    (l : Line) (s : NestingState)
    → IsEndif l.text
    → pass l s ≡ record (at_endif s) { stack = l.edit (at_endif s).stack }
unfolding update_preprocessor
pass-endif l s (i, e, d) = rw (i, e, d) refl

abbrev state_of : List BlockInfo → Option BlockInfo → List PreprocessorInfo → NestingState
state_of st t ps = record { stack = st; previous_stack_top = t; pp_stack = ps }

see_else-resulting :
    (p : PreprocessorInfo) (st st' : List BlockInfo)
    → resulting (see_else st p) st' ≡ resulting p st
see_else-resulting p st st' = elim (Bool-cases p.seen_else) [
  | inl e ↦ rw e refl
  | inr e ↦ rw e refl
]

-- What is known of a state in the middle of a conditional: the stacks of the conditionals around
-- it, and the stack that its `#endif` will leave.
abbrev Inside : NestingState → Option BlockInfo → List PreprocessorInfo → List BlockInfo → Type 0
Inside s t ps st =
    (p : PreprocessorInfo) × (st' : List BlockInfo) × (s ≡ state_of st' t (p ∷ ps))
    × (resulting p st' ≡ st)

mutual
  unfolding run_code first_branches IsNested at_if at_endif at_else

  run_code-first :
      (c : Code) (st : List BlockInfo) (t : Option BlockInfo) (ps : List PreprocessorInfo)
      → IsNested c
      → run_code c (state_of st t ps) ≡ state_of (first_branches c st) t ps
  run_code-first nothing st t ps h = refl
  run_code-first (line l c) st t ps (h, hs) =
      ap (run_code c) (pass-plain l (state_of st t ps) h) ∙ run_code-first c (l.edit st) t ps hs
  run_code-first (conditional i first bs e c) st t ps (hi, hf, hb, he, hc) =
      let p : PreprocessorInfo = record {
        stack_before_if = st;
        stack_before_else = [];
        seen_else = false;
      } in
      let (q, st', r, keeps) =
        run_branches-Inside bs (first_branches first (i.edit st)) t p ps hb in
      let entered =
        ap (run_code first) (pass-if i (state_of st t ps) hi)
        ∙ run_code-first first (i.edit st) t (p ∷ ps) hf in
      let left =
        ap (pass e) (ap (run_branches bs) entered ∙ r)
        ∙ pass-endif e (state_of st' t (q ∷ ps)) he
        ∙ ap (λ x. state_of (e.edit x) t ps) keeps in
      ap (run_code c) left ∙ run_code-first c (e.edit (first_branches first (i.edit st))) t ps hc

  run_branches-Inside :
      (bs : Branches) (st : List BlockInfo) (t : Option BlockInfo) (p : PreprocessorInfo)
      (ps : List PreprocessorInfo)
      → AreBranches bs
      → Inside (run_branches bs (state_of st t (p ∷ ps))) t ps (resulting p st)
  run_branches-Inside no_branch st t p ps h = (p, st, refl, refl)
  run_branches-Inside (branch l c bs) st t p ps (hl, hc, hb) =
      let q = see_else st p in
      let st' = first_branches c (l.edit p.stack_before_if) in
      let (q', st'', r, keeps) = run_branches-Inside bs st' t q ps hb in
      let entered =
        ap (run_code c) (pass-else l (state_of st t (p ∷ ps)) hl)
        ∙ run_code-first c (l.edit p.stack_before_if) t (q ∷ ps) hc in
      (q', st'', ap (run_branches bs) entered ∙ r, keeps ∙ see_else-resulting p st st')

-- `UpdatePreprocessor` keeps the stack right over nested conditionals: whatever the rest of
-- `Update` makes of the stack on each line, the stack behind the code is the one that the code
-- would leave with only the first branch of each conditional in it, and the conditionals that were
-- open in front of the code are those that are open behind it.
pub run_code-first_branches :
    (c : Code) (s : NestingState)
    → IsNested c
    → run_code c s ≡ record s { stack = first_branches c s.stack }
run_code-first_branches c s h = run_code-first c s.stack s.previous_stack_top s.pp_stack h
