-- ===== src/Regex/Weight.antt =====
-- How much of a text a match leaves: what its groups hold, what stands behind it and the characters
-- that the pattern consumes outside the groups fit into the text. The loops that go on with a group
-- of a match end for this reason.
use dyod.Prelude.{
  both_true, ℕ, ◌+◌, ◌-◌, ◌≤◌, ◌≡◌, ◌≢◌, refl, subst, Bool, true, false, ◌&&◌, Option, none, some,
  List, [], ◌∷◌, map, arith, length, length-take, All, Text, if◌then◌else◌, Bool-cases, inl, inr,
  if_cases,
}
use Prim.Native.Nat.{min}
use mathlib.Core.Option.{some-injective}
use mathlib.Core.Bool.{false≢true}
use dyod.Regex.{
  Re, chr, eps, seq, alt, star, lazy_star, grp, word_edge, at_start, at_end, ahead, not_ahead,
  Cursor, step_char, each, run, capture, at, match, first, lookup_group, or_nil,
}
use dyod.Regex.Every.{All-append, All-each, All-repeat, All-repeat_lazy, All-keep_if}
use dyod.Regex.Laws.{run-Behind, Suffix, Suffix-length}

-- no group inside
abbrev pub is_plain : Re → Bool
is_plain (seq r q) = is_plain r && is_plain q
is_plain (alt r q) = is_plain r && is_plain q
is_plain (star r) = is_plain r
is_plain (lazy_star r) = is_plain r
is_plain (grp n r) = false
is_plain _ = true

-- A pattern without groups leaves the groups alone.
abbrev SameGroups : List (ℕ × Text) → Cursor → Type 0
SameGroups gs d = d.groups ≡ gs

step_char-SameGroups :
    (p : ℕ → Bool) (prev : Option ℕ) (s : Text) (gs hs : List (ℕ × Text))
    → hs ≡ gs
    → All (SameGroups gs) (step_char p prev s hs)
unfolding step_char
step_char-SameGroups p prev [] gs hs e = tt
step_char-SameGroups p prev (c ∷ s) gs hs e =
    if_cases (All (SameGroups gs)) (p c) (λ x. (e, tt)) (λ x. tt)

run-SameGroups :
    (r : Re) (gs : List (ℕ × Text)) (c : Cursor)
    → is_plain r ≡ true
    → SameGroups gs c
    → All (SameGroups gs) (run r c)
unfolding run
run-SameGroups (chr p) gs c h e = step_char-SameGroups p c.prev c.rest gs c.groups e
run-SameGroups eps gs c h e = (e, tt)
run-SameGroups (seq r q) gs c h e =
    let both = both_true (is_plain r) (is_plain q) h in
    All-each (SameGroups gs) (SameGroups gs) (run q) (run r c)
      (λ d e'. run-SameGroups q gs d both.1 e') (run-SameGroups r gs c both.0 e)
run-SameGroups (alt r q) gs c h e =
    let both = both_true (is_plain r) (is_plain q) h in
    All-append (SameGroups gs) (run r c) (run q c) (run-SameGroups r gs c both.0 e)
      (run-SameGroups q gs c both.1 e)
run-SameGroups (star r) gs c h e =
    All-repeat (SameGroups gs) (run r) (λ d e'. run-SameGroups r gs d h e') (length c.rest) c e
run-SameGroups (lazy_star r) gs c h e =
    All-repeat_lazy (SameGroups gs) (run r) (λ d e'. run-SameGroups r gs d h e') (length c.rest) c e
run-SameGroups (grp n r) gs c h e = absurd (false≢true h)
run-SameGroups word_edge gs c h e = All-keep_if (SameGroups gs) _ c e
run-SameGroups at_start gs c h e = All-keep_if (SameGroups gs) _ c e
run-SameGroups at_end gs c h e = All-keep_if (SameGroups gs) _ c e
run-SameGroups (ahead r) gs c h e = All-keep_if (SameGroups gs) _ c e
run-SameGroups (not_ahead r) gs c h e = All-keep_if (SameGroups gs) _ c e

-- The groups `n` with `k n` are counted, and have no groups inside.
module _ (k : ℕ → Bool) where
  abbrev pub is_flat : Re → Bool
  is_flat (seq r q) = is_flat r && is_flat q
  is_flat (alt r q) = is_flat r && is_flat q
  is_flat (star r) = is_flat r
  is_flat (lazy_star r) = is_flat r
  is_flat (grp n r) = if k n then is_plain r else is_flat r
  is_flat _ = true

  -- the least number of characters that are consumed outside these groups
  abbrev pub min_length : Re → ℕ
  min_length (chr p) = 1
  min_length (seq r q) = min_length r + min_length q
  min_length (alt r q) = min (min_length r) (min_length q)
  min_length (grp n r) = if k n then 0 else min_length r
  min_length _ = 0

  abbrev pub held : List (ℕ × Text) → ℕ
  held [] = 0
  held ((n, t) ∷ gs) = (if k n then length t else 0) + held gs

  abbrev pub weight : Cursor → ℕ
  weight d = held d.groups + length d.rest

  -- `d` weighs at most `w`, less `m`
  abbrev Under : ℕ → ℕ → Cursor → Type 0
  Under m w d = weight d + m ≤ w

  step_char-Under :
      (p : ℕ → Bool) (prev : Option ℕ) (s : Text) (gs : List (ℕ × Text))
      → All (Under 1 (held gs + length s)) (step_char p prev s gs)
  unfolding step_char
  step_char-Under p prev [] gs = tt
  step_char-Under p prev (c ∷ s) gs =
      if_cases (All (Under 1 (held gs + length (c ∷ s)))) (p c) (λ e. (omega arith, tt)) (λ e. tt)

  -- the capture of a counted group, and of another one
  capture-held :
      (n : ℕ) (c d : Cursor)
      → k n ≡ true
      → d.groups ≡ c.groups
      → length d.rest ≤ length c.rest
      → Under 0 (weight c) (capture n c d)
  capture-held n c d h e le =
      rw (h, e) (omega (arith, length-take {0} (length c.rest - length d.rest) c.rest))

  capture-Under : (n m w : ℕ) (c d : Cursor) → k n ≡ false → Under m w d → Under m w (capture n c d)
  capture-Under n m w c d h u = rw h (omega arith)

  counted :
      (n : ℕ) (c : Cursor) (ds : List Cursor)
      → k n ≡ true
      → All (SameGroups c.groups) ds
      → All (λ d. Suffix d.rest c.rest) ds
      → All (Under 0 (weight c)) (map (capture n c) ds)
  counted n c [] h p q = tt
  counted n c (d ∷ ds) h (p, ps) (q, qs) =
      (capture-held n c d h p (Suffix-length c.rest d.rest q), counted n c ds h ps qs)

  All-capture :
      (P Q : Cursor → Type 0) (n : ℕ) (c : Cursor) (ds : List Cursor)
      → ((d : Cursor) → P d → Q (capture n c d))
      → All P ds
      → All Q (map (capture n c) ds)
  All-capture P Q n c [] f p = tt
  All-capture P Q n c (d ∷ ds) f (p, ps) = (f d p, All-capture P Q n c ds f ps)

  All-weaken :
      (m m' w w' : ℕ) (cs : List Cursor)
      → ((d : Cursor) → Under m w d → Under m' w' d)
      → All (Under m w) cs
      → All (Under m' w') cs
  All-weaken m m' w w' [] f p = tt
  All-weaken m m' w w' (c ∷ cs) f (p, ps) = (f c p, All-weaken m m' w w' cs f ps)

  iteration :
      (r : Re) (c d : Cursor)
      → Under 0 (weight c) d
      → All (Under (min_length r) (weight d)) (run r d)
      → All (Under 0 (weight c)) (run r d)
  iteration r c d u p =
      All-weaken (min_length r) 0 (weight d) (weight c) (run r d) (λ e v. omega arith) p

  -- both patterns of a sequence, and either of an alternative
  Under-seq :
      (m n w : ℕ) (f : Cursor → List Cursor) (cs : List Cursor)
      → ((c : Cursor) → All (Under n (weight c)) (f c))
      → All (Under m w) cs
      → All (Under (m + n) w) (each f cs)
  Under-seq m n w f cs h p =
      All-each (Under m w) (Under (m + n) w) f cs
        (λ c u. All-weaken n (m + n) (weight c) w (f c) (λ d v. omega arith) (h c)) p

  pub run-Under :
      (r : Re) (c : Cursor) → is_flat r ≡ true → All (Under (min_length r) (weight c)) (run r c)
  unfolding run
  run-Under (chr p) c h = step_char-Under p c.prev c.rest c.groups
  run-Under eps c h = (omega arith, tt)
  run-Under (seq r q) c h =
      let both = both_true (is_flat r) (is_flat q) h in
      Under-seq (min_length r) (min_length q) (weight c) (run q) (run r c)
        (λ d. run-Under q d both.1) (run-Under r c both.0)
  run-Under (alt r q) c h =
      let both = both_true (is_flat r) (is_flat q) h in
      let m = min_length (alt r q) in
      let w = weight c in
      All-append (Under m w) (run r c) (run q c)
        (All-weaken (min_length r) m w w (run r c) (λ d u. omega arith) (run-Under r c both.0))
        (All-weaken (min_length q) m w w (run q c) (λ d u. omega arith) (run-Under q c both.1))
  run-Under (star r) c h =
      All-repeat (Under 0 (weight c)) (run r) (λ d u. iteration r c d u (run-Under r d h))
        (length c.rest) c (omega arith)
  run-Under (lazy_star r) c h =
      All-repeat_lazy (Under 0 (weight c)) (run r) (λ d u. iteration r c d u (run-Under r d h))
        (length c.rest) c (omega arith)
  run-Under (grp n r) c h = elim (Bool-cases (k n)) [
    | inl e ↦
        rw e
          (counted n c (run r c) e (run-SameGroups r c.groups c (rw e at h) refl) (run-Behind r c))
    | inr e ↦ rw e (
        All-capture (Under (min_length r) (weight c)) (Under (min_length r) (weight c)) n c
          (run r c) (λ d u. capture-Under n (min_length r) (weight c) c d e u)
          (run-Under r c (rw e at h)))
  ]
  run-Under word_edge c h = All-keep_if (Under 0 (weight c)) _ c (omega arith)
  run-Under at_start c h = All-keep_if (Under 0 (weight c)) _ c (omega arith)
  run-Under at_end c h = All-keep_if (Under 0 (weight c)) _ c (omega arith)
  run-Under (ahead r) c h = All-keep_if (Under 0 (weight c)) _ c (omega arith)
  run-Under (not_ahead r) c h = All-keep_if (Under 0 (weight c)) _ c (omega arith)

  first-Under :
      (m w : ℕ) (cs : List Cursor) {d : Cursor}
      → All (Under m w) cs
      → first cs ≡ some d
      → Under m w d
  first-Under m w [] p e = cc
  first-Under m w (c ∷ cs) p e = subst (Under m w) (some-injective _ _ e) p.0

  -- The counted groups of a match, what stands behind it and what it consumes outside the groups
  -- fit into the text.
  pub match-Under :
      (r : Re) (s : Text) {d : Cursor}
      → is_flat r ≡ true
      → match r s ≡ some d
      → Under (min_length r) (length s) d
  unfolding match
  match-Under r s h e = omega (
    arith,
    first-Under (min_length r) (weight (at none s)) (run r (at none s)) (run-Under r (at none s) h)
        e,
  )

  pub group-held :
      (n : ℕ) (gs : List (ℕ × Text)) → k n ≡ true → length (or_nil (lookup_group n gs)) ≤ held gs
  unfolding lookup_group
  group-held n [] h = omega arith
  group-held n ((m, t) ∷ gs) h = ground (arith, group-held n gs h)

  -- Two different groups are held side by side.
  pub groups-held :
      (n m : ℕ) (gs : List (ℕ × Text))
      → k n ≡ true
      → k m ≡ true
      → n ≢ m
      → length (or_nil (lookup_group n gs)) + length (or_nil (lookup_group m gs)) ≤ held gs
  unfolding lookup_group
  groups-held n m [] h i ne = omega arith
  groups-held n m ((j, t) ∷ gs) h i ne =
      ground (arith, groups-held n m gs h i ne, group-held n gs h, group-held m gs i)
