-- ===== src/Regex/Every.antt =====
-- Properties of every place that a pattern may lead to, through the parts of `run`.
use dyod.Prelude.{ℕ, zero, suc, Bool, true, false, List, [], ◌∷◌, ◌++◌, length, All, leb, if_cases}
use dyod.Regex.{Cursor, each, repeat, repeat_lazy, advanced, keep_if}

pub All-append :
    (P : Cursor → Type 0) (cs ds : List Cursor) → All P cs → All P ds → All P (cs ++ ds)
All-append P [] ds p q = q
All-append P (c ∷ cs) ds (p, ps) q = (p, All-append P cs ds ps q)

pub All-advanced :
    (P : Cursor → Type 0) (c : Cursor) (ds : List Cursor) → All P ds → All P (advanced c ds)
All-advanced P c [] p = tt
All-advanced P c (d ∷ ds) (p, ps) =
    if_cases (All P) (leb (length c.rest) (length d.rest)) (λ e. All-advanced P c ds ps)
      (λ e. (p, All-advanced P c ds ps))

pub All-each :
    (P Q : Cursor → Type 0) (f : Cursor → List Cursor) (cs : List Cursor)
    → ((c : Cursor) → P c → All Q (f c))
    → All P cs
    → All Q (each f cs)
unfolding each
All-each P Q f [] h p = tt
All-each P Q f (c ∷ cs) h (p, ps) = All-append Q (f c) (each f cs) (h c p) (All-each P Q f cs h ps)

-- A property that one iteration keeps is kept by all.
module _ (P : Cursor → Type 0) (f : Cursor → List Cursor)
    (keep : (c : Cursor) → P c → All P (f c)) where
  pub All-repeat : (n : ℕ) (c : Cursor) → P c → All P (repeat f n c)
  unfolding repeat
  All-repeat zero c p = (p, tt)
  All-repeat (suc n) c p =
      All-append P (each (repeat f n) (advanced c (f c))) (c ∷ [])
        (All-each P P (repeat f n) (advanced c (f c)) (All-repeat n)
          (All-advanced P c (f c) (keep c p)))
        (p, tt)

  pub All-repeat_lazy : (n : ℕ) (c : Cursor) → P c → All P (repeat_lazy f n c)
  unfolding repeat_lazy
  All-repeat_lazy zero c p = (p, tt)
  All-repeat_lazy (suc n) c p = (
    p,
    All-each P P (repeat_lazy f n) (advanced c (f c)) (All-repeat_lazy n)
        (All-advanced P c (f c) (keep c p)),
  )

pub All-keep_if : (P : Cursor → Type 0) (b : Bool) (c : Cursor) → P c → All P (keep_if b c)
All-keep_if P true c p = (p, tt)
All-keep_if P false c p = tt
