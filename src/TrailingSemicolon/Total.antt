-- ===== src/TrailingSemicolon/Total.antt =====
-- `CheckTrailingSemicolon` answers on every line behind the marker, and what it does to the suppressions.
use mathlib.Core.Option.{some-injective}
use dyod.Prelude.{
  subst, sym, ℕ, zero, suc, ◌-◌, ◌≤◌, ◌<◌, Bool, true, false, Option, none, some, List, [], ◌∷◌,
  ◌≡◌, refl, ◌∙◌, arith, if◌then◌else◌, Text, drop, get_elem?, get_elem?-some, if_both, leb, length,
  ◌==◌, inl, inr,
}
use dyod.Regex.{Cursor, finds, match, matches, group_text}
use dyod.Regex.Weight.{match-Under, group-held}
use dyod.Nolint.{Suppressions, is_error_suppressed_by_nolint, parse_nolint_suppressions}
use dyod.Nolint.Laws.{parse_nolint_suppressions-suppressed}
use dyod.Driver.{Calls}
use dyod.Brackets.{Place}
use dyod.Brackets.Forward.{Forward, ForwardTo, close_expression-Forward}
use dyod.Brackets.Inside.{Inside, close_expression-Inside, reverse_close_expression-Upto}
use dyod.FileChecks.{get_previous_non_blank_line}
use dyod.TrailingSemicolon.{
  last_index, parenthesis_pattern, else_block_pattern, bare_block_pattern, exempt_at, ruled_out,
  unless, opening_parenthesis, prefix_length, statement_end_pattern, behind_statement, behind_else,
  block_start, Outcome, collect, redundant_on, redundant_at, closed_at, started_at,
  next_semicolon_pattern, check_trailing_semicolon,
}

abbrev first_group : ℕ → Bool
first_group n = n == 1

-- a position on the line, or none
abbrev Fits : Text → Option ℕ → Type 0
Fits line none = Unit
Fits line (some pos) = pos < length line

index-Fits :
    (c x : ℕ) (s : Text) (r : Option ℕ)
    → Fits s r
    → Fits (x ∷ s) (elim r [ none ↦ if x == c then some 0 else none | some i ↦ some (suc i) ])
index-Fits c x s none h = if_both (Fits (x ∷ s)) (x == c) (omega arith) tt
index-Fits c x s (some i) h = omega arith

last_index-Fits : (c : ℕ) (s : Text) → Fits s (last_index c s)
unfolding last_index
last_index-Fits c [] = tt
last_index-Fits c (x ∷ s) = index-Fits c x s (last_index c s) (last_index-Fits c s)

Fits-longer : (s line : Text) (i : Option ℕ) → length s < length line → Fits s i → Fits line i
Fits-longer s line none lt h = tt
Fits-longer s line (some i) lt h = omega arith

abbrev FitsAll : Text → Option (Option ℕ) → Type 0
FitsAll line o = (start : Option ℕ) × (o ≡ some start) × Fits line start

parenthesis-lt :
    (line : Text) {m : Cursor}
    → match parenthesis_pattern line ≡ some m
    → length (group_text 1 m) < length line
parenthesis-lt line {m} e = omega (
  arith,
  match-Under first_group parenthesis_pattern line refl e,
  group-held first_group 1 m.groups refl,
)

prefix_length-Fits :
    (line : Text) (m : Option Cursor)
    → match bare_block_pattern line ≡ m
    → Fits line (prefix_length m)
prefix_length-Fits line none e = tt
prefix_length-Fits line (some m) e = omega (
  arith,
  match-Under first_group bare_block_pattern line refl e,
  group-held first_group 1 m.groups refl,
)

behind_statement-Fits : (line : Text) (p : Option (Text × ℕ)) → Fits line (behind_statement line p)
behind_statement-Fits line none = tt
behind_statement-Fits line (some (previous, n)) =
    if_both (Fits line) (finds statement_end_pattern previous)
      (prefix_length-Fits line (match bare_block_pattern line) refl) tt

module _ (elided : List Text) (linenum : ℕ) (line : Text)
    (at_line : get_elem? elided linenum ≡ some line) (inside : linenum < length elided) where
  behind_else-Fits :
      (m : Option Cursor)
      → match else_block_pattern line ≡ m
      → Fits line (behind_else elided linenum line m)
  behind_else-Fits none e = behind_statement-Fits line (get_previous_non_blank_line elided linenum)
  behind_else-Fits (some m) e = omega (
    arith,
    match-Under first_group else_block_pattern line refl e,
    group-held first_group 1 m.groups refl,
  )

  ruled_out-some :
      (opening : Place)
      → opening.linenum ≤ linenum
      → (b : Bool) × (ruled_out elided opening ≡ some b)
  ruled_out-some opening le =
      let Q = λ (o : Option Bool). (b : Bool) × (o ≡ some b) in
      let (before, e) = get_elem?-some elided (opening.linenum - 1) (omega arith) in
      if_both Q (exempt_at opening.line opening.pos) (true, refl)
        (if_both Q (leb opening.linenum 1) (false, refl) (rw e (_, refl)))

  unless-FitsAll :
      (n : ℕ) (o : Option Bool)
      → n < length line
      → ((b : Bool) × (o ≡ some b))
      → FitsAll line (unless n o)
  unless-FitsAll n o lt (true, e) = rw e (none, refl, tt)
  unless-FitsAll n o lt (false, e) = rw e (some n, refl, lt)

  opening_parenthesis-some :
      (i : Option ℕ)
      → Fits line i
      → (q : Place) × (opening_parenthesis elided linenum line i ≡ some q) × (q.linenum ≤ linenum)
  opening_parenthesis-some none h = (_, refl, omega arith)
  opening_parenthesis-some (some i) h =
      let (c, k) = get_elem?-some line i h in
      reverse_close_expression-Upto elided linenum i at_line k

  block_start-FitsAll :
      (m : Option Cursor)
      → match parenthesis_pattern line ≡ m
      → FitsAll line (block_start elided linenum line m)
  block_start-FitsAll none e = (_, refl, behind_else-Fits (match else_block_pattern line) refl)
  block_start-FitsAll (some m) e =
      let lt = parenthesis-lt line e in
      let (q, f, le) =
        opening_parenthesis-some (last_index b')' (group_text 1 m))
          (Fits-longer (group_text 1 m) line _ lt (last_index-Fits b')' (group_text 1 m))) in
      rw f (unless-FitsAll (length (group_text 1 m)) (ruled_out elided q) lt (ruled_out-some q le))

-- An answer whose suppressions keep what is suppressed, and add nothing to the lines before the one
-- in front of `linenum`.
abbrev pub Collects : ℕ → Suppressions → Outcome → Type 0
Collects linenum sup o =
    (t : Suppressions) × (calls : Calls) × (o ≡ some (t, calls))
    × ((category : Text) (n : ℕ)
        → (is_error_suppressed_by_nolint category n sup ≡ true
            → is_error_suppressed_by_nolint category n t ≡ true)
          × (suc n < linenum
              → is_error_suppressed_by_nolint category n t
                ≡ is_error_suppressed_by_nolint category n sup))

module _ (filename : Text) (raw_lines : List Text) (sup : Suppressions) (linenum : ℕ) where
  unchanged : Collects linenum sup (some (sup, []))
  unchanged = (sup, [], refl, λ category n. (λ h. h, λ lt. refl))

  collect-Collects :
      (n : ℕ) (previous line : Text)
      → linenum ≤ suc n
      → Collects linenum sup (collect filename raw_lines sup n (some previous) (some line))
  collect-Collects n previous line le =
      let s1 = (parse_nolint_suppressions filename previous n sup).0 in
      (
        _,
        _,
        refl,
        λ category m.
            let one = parse_nolint_suppressions-suppressed filename previous category n m sup in
            let two = parse_nolint_suppressions-suppressed filename line category (suc n) m s1 in
            (
              λ h. two.0 (one.0 h),
              λ lt. two.1 (omega arith) (omega arith) ∙ one.1 (omega arith) (omega arith),
            ),
      )

  redundant_on-Collects :
      (n : ℕ)
      → n < length raw_lines
      → 0 < linenum
      → linenum ≤ n
      → Collects linenum sup (redundant_on filename raw_lines sup n)
  redundant_on-Collects zero lt pos le = absurd (omega arith)
  redundant_on-Collects (suc n) lt pos le =
      let (previous, e) = get_elem?-some raw_lines n (omega arith) in
      let (line, f) = get_elem?-some raw_lines (suc n) lt in
      rw (e, f) (collect-Collects n previous line le)

  redundant_at-Collects :
      (line : Text) (n lo : ℕ) (p : Option ℕ)
      → 0 < linenum
      → Inside (length raw_lines) (record { line = line; linenum = n; pos = p })
      → ForwardTo linenum lo n p
      → Collects linenum sup (redundant_at filename raw_lines sup line n p)
  redundant_at-Collects line n lo none pos i f = unchanged
  redundant_at-Collects line n lo (some p) pos i f =
      if_both (Collects linenum sup) (matches next_semicolon_pattern (drop p line))
        (redundant_on-Collects n i pos (elim f [ inl h ↦ omega arith | inr h ↦ omega arith ]))
        unchanged

  closed_at-Collects :
      (pos : ℕ) (q : Place)
      → 0 < linenum
      → Inside (length raw_lines) q
      → Forward linenum pos q
      → Collects linenum sup (closed_at filename raw_lines sup (some q))
  closed_at-Collects pos q lt i f = redundant_at-Collects q.line q.linenum pos q.pos lt i f

  module _ (elided : List Text) (same : length raw_lines ≡ length elided) (lt : 0 < linenum) where
    started_at-Collects :
        (line : Text) (start : Option ℕ)
        → get_elem? elided linenum ≡ some line
        → Fits line start
        → Collects linenum sup (started_at filename raw_lines sup elided linenum (some start))
    started_at-Collects line none e h = unchanged
    started_at-Collects line (some pos) e h =
        let (c, k) = get_elem?-some line pos h in
        let (q, g, forward) = close_expression-Forward elided linenum pos e k in
        let (q', g', inside) = close_expression-Inside elided linenum pos e k in
        let on_line = subst (Inside (length elided)) (some-injective q' q (sym g' ∙ g)) inside in
        rw g (closed_at-Collects pos q lt (subst (λ m. Inside m q) (sym same) on_line) forward)

    -- `CheckTrailingSemicolon` answers at every line of a file but the first one: it keeps what is
    -- suppressed, and the suppressions of the lines before the one in front of this line do not change.
    pub check_trailing_semicolon_total :
        linenum < length elided
        → Collects linenum sup (check_trailing_semicolon filename raw_lines sup elided linenum)
    unfolding check_trailing_semicolon
    check_trailing_semicolon_total inside =
        let (line, e) = get_elem?-some elided linenum inside in
        let (start, f, fits) =
          block_start-FitsAll elided linenum line e inside (match parenthesis_pattern line) refl in
        rw e (rw f (started_at-Collects line start e fits))
