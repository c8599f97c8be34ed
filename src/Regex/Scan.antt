-- ===== src/Regex/Scan.antt =====
-- Repetitions of a class of characters, as loops over the characters.
use dyod.Prelude.{
  ℕ, zero, suc, ◌≤◌, Bool, true, false, Option, none, some, List, [], ◌∷◌, ◌++◌, ◌≡◌, refl, sym, ap,
  ◌∙◌, arith, length, All, Text, leb, if◌then◌else◌, Bool-cases, inl, inr,
}
use mathlib.Core.List.{append-nil, append_assoc}
use dyod.Regex.{chr, Cursor, run, each, repeat, step_char, first}

-- the first character that is not in the class, with what follows it
unfoldable pub token : (ℕ → Bool) → Text → Option (ℕ × Text)
token p [] = none
token p (x ∷ s) = let later = token p s in if p x then later else some (x, s)

abbrev pub cursor : Option ℕ → Text → List (ℕ × Text) → Cursor
cursor pr s gs = record { prev = pr; rest = s; groups = gs }

each-append :
    (f : Cursor → List Cursor) (xs ys : List Cursor) → each f (xs ++ ys) ≡ each f xs ++ each f ys
unfolding each
each-append f [] ys = refl
each-append f (x ∷ xs) ys =
    ap (λ t. f x ++ t) (each-append f xs ys) ∙ sym (append_assoc (f x) (each f xs) (each f ys))

-- where the pattern behind a repetition is tried with success
abbrev pub Lands :
    (Cursor → List Cursor) → List (ℕ × Text) → List Cursor → Option (ℕ × Text) → Type 0
Lands k gs cs none = first (each k cs) ≡ none
Lands k gs cs (some (y, r)) =
    (pr : Option ℕ) × (first (each k cs) ≡ first (k (cursor pr (y ∷ r) gs)))

Lands-cong :
    (k : Cursor → List Cursor) (gs : List (ℕ × Text)) (cs ds : List Cursor) (o : Option (ℕ × Text))
    → each k cs ≡ each k ds
    → Lands k gs ds o
    → Lands k gs cs o
Lands-cong k gs cs ds none e h = ap first e ∙ h
Lands-cong k gs cs ds (some (y, r)) e (pr, h) = (pr, ap first e ∙ h)

-- one more character of the class in front
each-step :
    (k : Cursor → List Cursor) (cs : List Cursor) (c : Cursor)
    → k c ≡ []
    → each k ((cs ++ []) ++ c ∷ []) ≡ each k cs
unfolding each
each-step k cs c e =
    each-append k (cs ++ []) (c ∷ [])
    ∙ ap (λ t. each k (cs ++ []) ++ (t ++ [])) e
    ∙ append-nil (each k (cs ++ []))
    ∙ ap (each k) (append-nil cs)

repeat-step :
    (p : ℕ → Bool) (n : ℕ) (pr : Option ℕ) (x : ℕ) (s : Text) (gs : List (ℕ × Text))
    → p x ≡ true
    → repeat (run (chr p)) (suc n) (cursor pr (x ∷ s) gs)
      ≡ (repeat (run (chr p)) n (cursor (some x) s gs) ++ []) ++ cursor pr (x ∷ s) gs ∷ []
unfolding repeat run step_char each
repeat-step p n pr x s gs e =
    let shorter : leb (suc (length s)) (length s) ≡ false = ground arith in rw (e, shorter) refl

repeat-end :
    (p : ℕ → Bool) (n : ℕ) (pr : Option ℕ) (x : ℕ) (s : Text) (gs : List (ℕ × Text))
    → p x ≡ false
    → repeat (run (chr p)) n (cursor pr (x ∷ s) gs) ≡ cursor pr (x ∷ s) gs ∷ []
unfolding repeat run step_char each
repeat-end p zero pr x s gs e = refl
repeat-end p (suc n) pr x s gs e = rw e refl

repeat-nil :
    (p : ℕ → Bool) (n : ℕ) (pr : Option ℕ) (gs : List (ℕ × Text))
    → repeat (run (chr p)) n (cursor pr [] gs) ≡ cursor pr [] gs ∷ []
unfolding repeat run step_char each
repeat-nil p zero pr gs = refl
repeat-nil p (suc n) pr gs = refl

-- A repetition, followed by a pattern that asks for a character outside of the class, stops at the
-- first such character.
module _ (p : ℕ → Bool) (k : Cursor → List Cursor)
    (k-nil : (pr : Option ℕ) (gs : List (ℕ × Text)) → k (cursor pr [] gs) ≡ [])
    (k-cons : (pr : Option ℕ) (x : ℕ) (s : Text) (gs : List (ℕ × Text))
      → p x ≡ true
      → k (cursor pr (x ∷ s) gs) ≡ []) where
  pub repeat-Lands :
      (n : ℕ) (pr : Option ℕ) (s : Text) (gs : List (ℕ × Text))
      → length s ≤ n
      → Lands k gs (repeat (run (chr p)) n (cursor pr s gs)) (token p s)
  unfolding token each
  repeat-Lands n pr [] gs le =
      ap (λ cs. first (each k cs)) (repeat-nil p n pr gs) ∙ ap (λ t. first (t ++ [])) (k-nil pr gs)
  repeat-Lands zero pr (x ∷ s) gs le = absurd (omega arith)
  repeat-Lands (suc n) pr (x ∷ s) gs le = elim (Bool-cases (p x)) [
    | inl e ↦ rw e (
        Lands-cong k gs _ (repeat (run (chr p)) n (cursor (some x) s gs)) (token p s)
          (ap (each k) (repeat-step p n pr x s gs e) ∙ each-step k _ _ (k-cons pr x s gs e))
          (repeat-Lands n (some x) s gs (omega arith)))
    | inr e ↦ rw e (
      pr,
      ap (λ cs. first (each k cs)) (repeat-end p (suc n) pr x s gs e)
          ∙ ap first (append-nil (k (cursor pr (x ∷ s) gs))),
    )
  ]

-- A repetition takes all that it can first.
pub repeat-All :
    (p : ℕ → Bool) (n : ℕ) (pr : Option ℕ) (s : Text) (gs : List (ℕ × Text))
    → length s ≤ n
    → All (λ x. p x ≡ true) s
    → (pr' : Option ℕ) × (cs : List Cursor) × (repeat (run (chr p)) n (cursor pr s gs)
        ≡ cursor pr' [] gs ∷ cs)
repeat-All p n pr [] gs le h = (pr, [], repeat-nil p n pr gs)
repeat-All p zero pr (x ∷ s) gs le h = absurd (omega arith)
repeat-All p (suc n) pr (x ∷ s) gs le (h, hs) =
    let (pr', cs, e) = repeat-All p n (some x) s gs (omega arith) hs in
    (
      pr',
      (cs ++ []) ++ cursor pr (x ∷ s) gs ∷ [],
      repeat-step p n pr x s gs h ∙ ap (λ t. (t ++ []) ++ cursor pr (x ∷ s) gs ∷ []) e,
    )
