-- ===== src/TextInside/Match.antt =====
-- The text between matching punctuations is found.
use mathlib.Core.List.{append_assoc}
use dyod.Prelude.{
  ℕ, suc, ◌+◌, ◌-◌, true, false, some, List, [], ◌∷◌, ◌++◌, ◌≡◌, sym, ap, ◌∙◌, arith, Text, drop,
  drop-length-append, take-length-append, get_elem?, get_elem?-length-append, length, length-append,
  take, ◌==◌,
}
use dyod.Regex.{Re, Cursor, search}
use dyod.Brackets.{is_opener, is_closer, is_pair}
use dyod.Brackets.Balance.{Balanced, nil, plain, bracket, is_plain}
use dyod.TextInside.{matching, inside_loop, from_punctuation, get_text_inside}

is_pair-matching : (o c : ℕ) → is_pair o c ≡ true → matching o ≡ c
is_pair-matching o c h = ground arith

closes : (o c : ℕ) → is_pair o c ≡ true → is_closer c ≡ true
closes o c h = ground arith

opens : (o c : ℕ) → is_pair o c ≡ true → is_opener o ≡ true
opens o c h = ground arith

module _ (p : ℕ) (st : List ℕ) (n : ℕ) (s : Text) where
  step-plain :
      (c : ℕ)
      → is_closer p ≡ true
      → is_plain c ≡ true
      → inside_loop (p ∷ st) n (c ∷ s) ≡ inside_loop (p ∷ st) (suc n) s
  unfolding inside_loop
  step-plain c h k = ground arith

  step-opener :
      (o : ℕ)
      → is_closer p ≡ true
      → is_opener o ≡ true
      → inside_loop (p ∷ st) n (o ∷ s) ≡ inside_loop (matching o ∷ p ∷ st) (suc n) s
  unfolding inside_loop
  step-opener o h k = ground arith

  step-closer : inside_loop (p ∷ st) n (p ∷ s) ≡ inside_loop st (suc n) s
  unfolding inside_loop
  step-closer = ground arith

inside_loop-Balanced :
    {u : Text} (p : ℕ) (st : List ℕ) (n : ℕ) (rest : Text)
    → is_closer p ≡ true
    → Balanced u
    → inside_loop (p ∷ st) n (u ++ rest) ≡ inside_loop (p ∷ st) (n + length u) rest
inside_loop-Balanced p st n rest h nil = ap (λ m. inside_loop (p ∷ st) m rest) (omega arith)
inside_loop-Balanced p st n rest h (plain {w} c k b) =
    step-plain p st n (w ++ rest) c h k
    ∙ inside_loop-Balanced p st (suc n) rest h b
    ∙ ap (λ m. inside_loop (p ∷ st) m rest) (omega arith)
inside_loop-Balanced p st n rest h (bracket {u} {v} o c k b b') =
    let inner = p ∷ st in
    step-opener p st n ((u ++ c ∷ v) ++ rest) o h (opens o c k)
    ∙ ap (λ q. inside_loop (q ∷ inner) (suc n) ((u ++ c ∷ v) ++ rest)) (is_pair-matching o c k)
    ∙ ap (inside_loop (c ∷ inner) (suc n)) (append_assoc u (c ∷ v) rest)
    ∙ inside_loop-Balanced c inner (suc n) (c ∷ v ++ rest) (closes o c k) b
    ∙ step-closer c inner (suc n + length u) (v ++ rest)
    ∙ inside_loop-Balanced p st (suc (suc n + length u)) rest h b'
    ∙ ap (λ m. inside_loop inner m rest) (omega (arith, length-append {0} u (c ∷ v)))

found_at :
    (w u v : Text) (o c : ℕ)
    → is_pair o c ≡ true
    → Balanced u
    → inside_loop (matching o ∷ []) (length w + 1) (u ++ c ∷ v) ≡ some (length w + 1 + length u + 1)
unfolding inside_loop
found_at w u v o c k b =
    ap (λ q. inside_loop (q ∷ []) (length w + 1) (u ++ c ∷ v)) (is_pair-matching o c k)
    ∙ inside_loop-Balanced c [] (length w + 1) (c ∷ v) (closes o c k) b
    ∙ step-closer c [] (length w + 1 + length u) v
    ∙ ap some (omega arith)

drop-behind : (w s : Text) (o : ℕ) → drop (length w + 1) (w ++ o ∷ s) ≡ s
drop-behind w s o =
    ap (drop (length w + 1)) (sym (append_assoc w (o ∷ []) s))
    ∙ ap (λ n. drop n ((w ++ o ∷ []) ++ s)) (omega (arith, length-append {0} w (o ∷ [])))
    ∙ drop-length-append (w ++ o ∷ []) s

take-before :
    (w u s : Text) (o : ℕ) → take (length w + 1 + length u) (w ++ o ∷ (u ++ s)) ≡ w ++ o ∷ u
take-before w u s o =
    ap (take (length w + 1 + length u)) (sym (append_assoc w (o ∷ u) s))
    ∙ ap (λ n. take n ((w ++ o ∷ u) ++ s)) (omega (arith, length-append {0} w (o ∷ u)))
    ∙ take-length-append (w ++ o ∷ u) s

from_punctuation-Balanced :
    (w u v : Text) (o c : ℕ)
    → is_pair o c ≡ true
    → Balanced u
    → from_punctuation (w ++ o ∷ (u ++ c ∷ v)) (length w + 1) (some o) ≡ some (some u)
from_punctuation-Balanced w u v o c k b =
    rw (opens o c k, drop-behind w (u ++ c ∷ v) o, found_at w u v o c k b)
      (ap (λ n. some (some (drop (length w + 1) (take n (w ++ o ∷ (u ++ c ∷ v)))))) (omega arith)
        ∙ ap (λ t. some (some (drop (length w + 1) t))) (take-before w u (c ∷ v) o)
        ∙ ap (λ t. some (some t)) (drop-behind w u o))

not_zero : (n : ℕ) → (n + 1 == 0) ≡ false
not_zero n = ground arith

-- If the match of the pattern ends behind an opening punctuation, and behind it stand a text without
-- angles in which the brackets match and the closing punctuation that belongs to it, then
-- `_GetTextInside` returns the text between the two.
pub get_text_inside-Balanced :
    (pattern : Re) (w u v : Text) (o c i : ℕ) (m : Cursor)
    → is_pair o c ≡ true
    → Balanced u
    → search pattern (w ++ o ∷ (u ++ c ∷ v)) ≡ some (i, m)
    → m.rest ≡ u ++ c ∷ v
    → get_text_inside pattern (w ++ o ∷ (u ++ c ∷ v)) ≡ some (some u)
unfolding get_text_inside
get_text_inside-Balanced pattern w u v o c i m k b e r =
    let text = w ++ o ∷ (u ++ c ∷ v) in
    let start : length text - length m.rest ≡ length w + 1 =
      omega (arith, length-append {0} w (o ∷ (u ++ c ∷ v)), ap (length {0}) r) in
    rw e (
      rw (start, not_zero (length w))
        (ap (λ n. from_punctuation text (length w + 1) (get_elem? text n)) (omega arith)
          ∙ ap (from_punctuation text (length w + 1)) (get_elem?-length-append w (u ++ c ∷ v) o)
          ∙ from_punctuation-Balanced w u v o c k b))
