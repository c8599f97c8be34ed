-- ===== src/CheckMacros/Meaning.antt =====
-- What the macros assert, and that a replacement asserts the same.
use mathlib.Core.Bool.{false≢true}
use dyod.Prelude.{
  All, subst, sym, text_eq_iff, ℕ, Bool, true, not, Option, none, some, List, [], ◌∷◌, ◌++◌, ◌≡◌,
  refl, arith, Bool-cases, inl, inr, Text, codes, leb, ltb, text_eq, text_mem, ◌==◌, if◌then◌else◌,
}
use dyod.CheckMacros.{check_macros, check_replacement, operator_name, inverse_name}

-- the comparison of a relational operator
abbrev compares : Text → ℕ → ℕ → Bool
compares operator a b =
    if text_eq operator (codes "==")
    then a == b
    else if text_eq operator (codes "!=")
    then not (a == b)
    else if text_eq operator (codes ">=")
    then leb b a
    else if text_eq operator (codes ">")
    then ltb b a
    else if text_eq operator (codes "<=")
    then leb a b
    else ltb a b

abbrev asserted : Text → Bool → Bool
asserted macro holds =
    if text_mem macro (codes "EXPECT_FALSE" ∷ codes "ASSERT_FALSE" ∷ []) then not holds else holds

-- what a macro with two operands asserts, by the end of its name
abbrev named : Text → ℕ → ℕ → Option Bool
named name a b =
    if text_eq name (codes "EQ")
    then some (a == b)
    else if text_eq name (codes "NE")
    then some (not (a == b))
    else if text_eq name (codes "GE")
    then some (leb b a)
    else if text_eq name (codes "GT")
    then some (ltb b a)
    else if text_eq name (codes "LE")
    then some (leb a b)
    else if text_eq name (codes "LT")
    then some (ltb a b)
    else none

-- the family of a macro
abbrev family : Text → Text
family macro =
    if text_mem macro (codes "EXPECT_TRUE" ∷ codes "EXPECT_FALSE" ∷ [])
    then codes "EXPECT"
    else if text_mem macro (codes "ASSERT_TRUE" ∷ codes "ASSERT_FALSE" ∷ [])
    then codes "ASSERT"
    else macro

abbrev operators : List Text
operators = codes "==" ∷ codes "!=" ∷ codes ">=" ∷ codes ">" ∷ codes "<=" ∷ codes "<" ∷ []

true_names : (a b : ℕ) → All (λ o. named (operator_name o) a b ≡ some (compares o a b)) operators
unfolding text_eq
true_names a b = (refl, (refl, (refl, (refl, (refl, (refl, tt))))))

false_names :
    (a b : ℕ) → All (λ o. named (inverse_name o) a b ≡ some (not (compares o a b))) operators
unfolding text_eq
false_names a b =
    (refl, (ground arith, (ground arith, (ground arith, (ground arith, (ground arith, tt))))))

All-text_mem :
    (P : Text → Type 0) (t : Text) (ss : List Text) → All P ss → text_mem t ss ≡ true → P t
unfolding text_mem
All-text_mem P t [] h k = absurd (false≢true k)
All-text_mem P t (s ∷ ss) (p, ps) k = elim (Bool-cases (text_eq t s)) [
  | inl e ↦ subst P (sym ((text_eq_iff t s).0 e)) p
  | inr e ↦ All-text_mem P t ss ps (rw e at k)
]

-- The replacement of a macro and an operator is a macro of the same family, and what it asserts of
-- two operands is what the macro asserts of the comparison.
abbrev pub Replaces : ℕ → ℕ → Text → Text → Type 0
Replaces a b macro operator =
    (name : Text) × (check_replacement macro operator ≡ family macro ++ codes "_" ++ name)
    × (named name a b ≡ some (asserted macro (compares operator a b)))

module _ (a b : ℕ) (operator : Text) (h : text_mem operator operators ≡ true) where
  replaced : All (λ macro. Replaces a b macro operator) check_macros
  unfolding check_replacement
  replaced =
      let direct =
        All-text_mem (λ o. named (operator_name o) a b ≡ some (compares o a b)) operator operators
          (true_names a b) h in
      let inverse =
        All-text_mem (λ o. named (inverse_name o) a b ≡ some (not (compares o a b))) operator
          operators (false_names a b) h in
      (
        (operator_name operator, refl, direct),
        (
          (operator_name operator, refl, direct),
          (
            (operator_name operator, refl, direct),
            (
              (operator_name operator, refl, direct),
              (
                (inverse_name operator, refl, inverse),
                ((inverse_name operator, refl, inverse), tt),
              ),
            ),
          ),
        ),
      )

-- For each of the six macros and the six relational operators, the replacement that `CheckCheck`
-- suggests is a macro of the same family which asserts of any two numbers what the macro asserts of
-- their comparison: the comparison itself, or its negation for EXPECT_FALSE and ASSERT_FALSE.
pub check_replacement-Replaces :
    (a b : ℕ) (macro operator : Text)
    → text_mem macro check_macros ≡ true
    → text_mem operator operators ≡ true
    → Replaces a b macro operator
check_replacement-Replaces a b macro operator k h =
    All-text_mem (λ m. Replaces a b m operator) macro check_macros (replaced a b operator h) k
