-- ===== src/Regex/Laws.antt =====
-- What every match has: it consumes a part of the text and leaves the rest as it was.
use mathlib.Core.List.{append_assoc}
use mathlib.Core.Option.{some-injective}
use dyod.Prelude.{
  ℕ, zero, suc, ◌≤◌, ◌≡◌, refl, sym, ap, ◌∙◌, subst, Bool, true, false, Option, none, some, List,
  [], ◌∷◌, ◌++◌, map, arith, length, All, Text, length-append, Bool-cases, Option-cases, inl, inr,
  ◌-◌,
}
use dyod.Regex.{
  Re, chr, eps, seq, alt, star, lazy_star, grp, word_edge, at_start, at_end, ahead, not_ahead,
  Cursor, step_char, each, repeat, repeat_lazy, run, advanced, keep_if, capture, at, match, first,
  sub_from,
}

-- `t` is the end of `s`
abbrev pub Suffix : Text → Text → Type 0
Suffix t s = (w : Text) × (s ≡ w ++ t)

pub Suffix-refl : (s : Text) → Suffix s s
Suffix-refl s = ([], refl)

pub Suffix-trans : {s t u : Text} → Suffix u t → Suffix t s → Suffix u s
Suffix-trans {u = u} (v, p) (w, q) = (w ++ v, q ∙ ap (λ x. w ++ x) p ∙ sym (append_assoc w v u))

pub Suffix-length : (s t : Text) → Suffix t s → length t ≤ length s
Suffix-length s t (w, p) = omega (arith, ap length p, length-append {0} w t)

-- every listed place is behind the text `s`
abbrev pub Behind : Text → List Cursor → Type 0
Behind s cs = All (λ d. Suffix d.rest s) cs

Behind-append : (s : Text) (cs ds : List Cursor) → Behind s cs → Behind s ds → Behind s (cs ++ ds)
Behind-append s [] ds p q = q
Behind-append s (c ∷ cs) ds (p, ps) q = (p, Behind-append s cs ds ps q)

Behind-trans : {s t : Text} (cs : List Cursor) → Suffix t s → Behind t cs → Behind s cs
Behind-trans [] p q = tt
Behind-trans (c ∷ cs) p (q, qs) = (Suffix-trans q p, Behind-trans cs p qs)

advanced-Behind :
    (s : Text) (c : Cursor) (ds : List Cursor) → Behind s ds → Behind s (advanced c ds)
advanced-Behind s c [] p = tt
advanced-Behind s c (d ∷ ds) (p, ps) = ground (arith, advanced-Behind s c ds ps)

module _ (f : Cursor → List Cursor) (behind : (c : Cursor) → Behind c.rest (f c)) where
  each-Behind : (s : Text) (cs : List Cursor) → Behind s cs → Behind s (each f cs)
  unfolding each
  each-Behind s [] p = tt
  each-Behind s (c ∷ cs) (p, ps) =
      Behind-append s (f c) (each f cs) (Behind-trans (f c) p (behind c)) (each-Behind s cs ps)

module _ (f : Cursor → List Cursor) (behind : (c : Cursor) → Behind c.rest (f c)) where
  repeat-Behind : (n : ℕ) (c : Cursor) → Behind c.rest (repeat f n c)
  unfolding repeat
  repeat-Behind zero c = (Suffix-refl c.rest, tt)
  repeat-Behind (suc n) c =
      Behind-append c.rest (each (repeat f n) (advanced c (f c))) (c ∷ [])
        (each-Behind (repeat f n) (repeat-Behind n) c.rest (advanced c (f c))
          (advanced-Behind c.rest c (f c) (behind c)))
        (Suffix-refl c.rest, tt)

  repeat_lazy-Behind : (n : ℕ) (c : Cursor) → Behind c.rest (repeat_lazy f n c)
  unfolding repeat_lazy
  repeat_lazy-Behind zero c = (Suffix-refl c.rest, tt)
  repeat_lazy-Behind (suc n) c = (
    Suffix-refl c.rest,
    each-Behind (repeat_lazy f n) (repeat_lazy-Behind n) c.rest (advanced c (f c))
        (advanced-Behind c.rest c (f c) (behind c)),
  )

step_char-Behind :
    (p : ℕ → Bool) (prev : Option ℕ) (s : Text) (gs : List (ℕ × Text))
    → Behind s (step_char p prev s gs)
unfolding step_char
step_char-Behind p prev [] gs = tt
step_char-Behind p prev (c ∷ s) gs = elim (Bool-cases (p c)) [
  | inl e ↦ rw e ((c ∷ [], refl), tt)
  | inr e ↦ rw e tt
]

keep_if-Behind : (b : Bool) (c : Cursor) → Behind c.rest (keep_if b c)
keep_if-Behind true c = (Suffix-refl c.rest, tt)
keep_if-Behind false c = tt

capture-Behind :
    (n : ℕ) (s : Text) (c : Cursor) (ds : List Cursor)
    → Behind s ds
    → Behind s (map (capture n c) ds)
capture-Behind n s c [] p = tt
capture-Behind n s c (d ∷ ds) (p, ps) = (p, capture-Behind n s c ds ps)

pub run-Behind : (r : Re) (c : Cursor) → Behind c.rest (run r c)
unfolding run
run-Behind (chr p) c = step_char-Behind p c.prev c.rest c.groups
run-Behind eps c = (Suffix-refl c.rest, tt)
run-Behind (seq r q) c = each-Behind (run q) (run-Behind q) c.rest (run r c) (run-Behind r c)
run-Behind (alt r q) c = Behind-append c.rest (run r c) (run q c) (run-Behind r c) (run-Behind q c)
run-Behind (star r) c = repeat-Behind (run r) (run-Behind r) (length c.rest) c
run-Behind (lazy_star r) c = repeat_lazy-Behind (run r) (run-Behind r) (length c.rest) c
run-Behind (grp n r) c = capture-Behind n c.rest c (run r c) (run-Behind r c)
run-Behind word_edge c = keep_if-Behind _ c
run-Behind at_start c = keep_if-Behind _ c
run-Behind at_end c = keep_if-Behind _ c
run-Behind (ahead r) c = keep_if-Behind _ c
run-Behind (not_ahead r) c = keep_if-Behind _ c

first-Behind :
    (s : Text) (cs : List Cursor) {d : Cursor} → Behind s cs → first cs ≡ some d → Suffix d.rest s
first-Behind s [] p e = cc
first-Behind s (c ∷ cs) p e = subst (λ x. Suffix x.rest s) (some-injective _ _ e) p.0

-- A match splits the text into what it consumed and the rest.
pub match-Suffix : (r : Re) (s : Text) {d : Cursor} → match r s ≡ some d → Suffix d.rest s
unfolding match
match-Suffix r s e = first-Behind s (run r (at none s)) (run-Behind r (at none s)) e

-- Cutting matches out never makes a text longer.
pub length-sub_from :
    (skip : ℕ) (r : Re) (rep : Cursor → Text) (prev : Option ℕ) (s : Text)
    → ((d : Cursor) → rep d ≡ [])
    → length (sub_from skip r rep prev s) ≤ length s
unfolding sub_from
length-sub_from skip r rep prev [] h = omega arith
length-sub_from (suc k) r rep prev (c ∷ s) h = omega (arith, length-sub_from k r rep (some c) s h)
length-sub_from zero r rep prev (c ∷ s) h = elim (Option-cases (first (run r (at prev (c ∷ s))))) [
  | inl e ↦ ground (arith, length-sub_from zero r rep (some c) s h)
  | inr (d, e) ↦ ground (
    arith,
    h d,
    length-sub_from zero r rep (some c) s h,
    length-sub_from (length (c ∷ s) - length d.rest - 1) r rep (some c) s h,
  )
]
