-- ===== src/Regex/Token.antt =====
-- Patterns of the form `^[^...]*([...])(.*)$`, which look for a character of a class.
use dyod.Prelude.{
  ℕ, suc, ◌-◌, Bool, true, false, not, Option, none, some, List, [], ◌∷◌, ◌≡◌, refl, sym, ap, ◌∙◌,
  arith, length, take, take-length-append, All, Text, ◌==◌, if_cases,
}
use mathlib.Core.List.{append-nil}
use dyod.Regex.{
  Re, chr, seqs, star, grp, at_start, at_end, dot, Cursor, run, each, repeat, step_char, first,
  match, lookup_group, group_text,
}
use dyod.Regex.Scan.{token, cursor, repeat-Lands, Lands, repeat-All}

-- no end of line
abbrev pub InLine : Text → Type 0
InLine s = All (λ x. not (x == 10) ≡ true) s

not-true : (b : Bool) → not b ≡ true → b ≡ false
not-true true e = sym e
not-true false e = refl

not-false : (b : Bool) → not b ≡ false → b ≡ true
not-false true e = refl
not-false false e = sym e

take-all : (s : Text) → take (length s - 0) s ≡ s
take-all s =
    let same : length s - 0 ≡ length s = omega arith in
    rw same (ap (take (length s)) (sym (append-nil s)) ∙ take-length-append s [])

-- The match of the pattern is that of the token.
abbrev pub Matches : Option Cursor → Option (ℕ × Text) → Type 0
Matches o none = o ≡ none
Matches o (some (y, r)) =
    (m : Cursor) × (o ≡ some m) × (group_text 1 m ≡ y ∷ []) × (group_text 2 m ≡ r)

module _ (q : ℕ → Bool) where
  abbrev pub others : ℕ → Bool
  others x = not (q x)

  -- the pattern behind the repetition
  abbrev behind : Re
  behind = seqs (grp 1 (chr q) ∷ grp 2 (star dot) ∷ at_end ∷ [])

  abbrev pub token_pattern : Re
  token_pattern =
      seqs (at_start ∷ star (chr others) ∷ grp 1 (chr q) ∷ grp 2 (star dot) ∷ at_end ∷ [])

  behind-nil : (pr : Option ℕ) (gs : List (ℕ × Text)) → run behind (cursor pr [] gs) ≡ []
  unfolding run step_char each
  behind-nil pr gs = refl

  behind-other :
      (pr : Option ℕ) (x : ℕ) (s : Text) (gs : List (ℕ × Text))
      → others x ≡ true
      → run behind (cursor pr (x ∷ s) gs) ≡ []
  unfolding run step_char each
  behind-other pr x s gs e = rw (not-true (q x) e) refl

  behind-Matches :
      (pr : Option ℕ) (y : ℕ) (r : Text) (gs : List (ℕ × Text))
      → others y ≡ false
      → InLine r
      → Matches (first (run behind (cursor pr (y ∷ r) gs))) (some (y, r))
  unfolding run step_char each lookup_group
  behind-Matches pr y r gs e h =
      let one : suc (length r) - length r ≡ 1 = omega arith in
      let (pr', cs, all) =
        repeat-All (λ x. not (x == 10)) (length r) (some y) r
          ((1, take (suc (length r) - length r) (y ∷ r)) ∷ gs) (omega arith) h in
      rw (not-false (q y) e, all) (_, refl, (rw one refl), take-all r)

  -- the token of a line
  abbrev Found : Text → Option (ℕ × Text) → Type 0
  Found s none = Unit
  Found s (some (y, r)) = (others y ≡ false) × (InLine s → InLine r)

  token-Found : (s : Text) → Found s (token others s)
  unfolding token
  token-Found [] = tt
  token-Found (x ∷ s) =
      if_cases (Found (x ∷ s)) (others x) (λ e. later (token others s) (token-Found s))
        (λ e. (e, λ h. h.1))
    where
      later : (o : Option (ℕ × Text)) → Found s o → Found (x ∷ s) o
      later none f = tt
      later (some (y, r)) (e, f) = (e, λ h. f h.1)

  Lands-Matches :
      (s : Text) (cs : List Cursor) (o : Option (ℕ × Text))
      → InLine s
      → Found s o
      → Lands (run behind) [] cs o
      → Matches (first (each (run behind) cs)) o
  Lands-Matches s cs none h f l = l
  Lands-Matches s cs (some (y, r)) h (e, f) (pr, l) = rw l (behind-Matches pr y r [] e (f h))

  -- On a line, the pattern matches if there is a token, with the token and what follows it in its
  -- groups.
  pub match-token : (s : Text) → InLine s → Matches (match token_pattern s) (token others s)
  unfolding match run each
  match-token s h =
      let cs = repeat (run (chr others)) (length s) (cursor none s []) in
      rw (append-nil (each (run behind) cs)) (
        Lands-Matches s cs (token others s) h (token-Found s) (
          repeat-Lands others (run behind) behind-nil behind-other (length s) none s []
            (omega arith)))
