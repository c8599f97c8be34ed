-- ===== src/Nesting/Braces/Depth.antt =====
-- What the braces of a line do to the depth of the stack.
use dyod.Prelude.{
  ℕ, zero, suc, ◌-◌, ◌<◌, Bool, true, false, not, ◌||◌, ◌&&◌, Option, none, some, List, [], ◌∷◌,
  ◌++◌, ◌≡◌, refl, sym, ap, ◌∙◌, arith, length, All, Text, codes, char_mem, text_eq, ◌==◌,
  if◌then◌else◌, if_both, if_cases, Bool-cases, inl, inr,
}
use dyod.Regex.{Cursor, match, matches}
use dyod.Regex.Scan.{token}
use dyod.Regex.Token.{InLine, Matches, others, match-token}
use dyod.Report.{Report, add_reports}
use dyod.Cleanse.{CleansedLines}
use dyod.Nesting.{BlockInfo, seen_brace}
use dyod.Nesting.Braces.{
  brace_pattern, extern_c_pattern, opened_block, pop, brace_stack, next_brace, brace_loop,
}

-- The depth behind a character: `{` opens a block, and `}` closes one if there is one.
abbrev pub depth_step : ℕ → ℕ → ℕ
depth_step c d = if c == b'{' then suc d else if c == b'}' then d - 1 else d

-- the depth behind a text
unfoldable pub depth_behind : Text → ℕ → ℕ
depth_behind [] d = d
depth_behind (c ∷ s) d = depth_behind s (depth_step c d)

abbrev pub AllSeen : List BlockInfo → Type 0
AllSeen st = All (λ b. b.seen_open_brace ≡ true) st

abbrev is_token : ℕ → Bool
is_token x = char_mem x (codes "{;)}")

-- only tokens change the depth
abbrev DepthAt : ℕ → ℕ → Option (ℕ × Text) → Type 0
DepthAt n d none = n ≡ d
DepthAt n d (some (y, r)) = n ≡ depth_behind r (depth_step y d)

other-depth : (x d : ℕ) → not (is_token x) ≡ true → depth_step x d ≡ d
other-depth x d e = ground arith

token-DepthAt : (s : Text) (d : ℕ) → DepthAt (depth_behind s d) d (token (others is_token) s)
unfolding token depth_behind
token-DepthAt [] d = refl
token-DepthAt (x ∷ s) d =
    if_cases (DepthAt (depth_behind s (depth_step x d)) d) (others is_token x)
      (λ e. rw (other-depth x d e) (token-DepthAt s d)) (λ e. refl)

seen-AllSeen : (st : List BlockInfo) → AllSeen st → seen_brace st ≡ true
seen-AllSeen [] h = refl
seen-AllSeen (b ∷ st) (h, hs) = h

-- a stack whose blocks have all been opened, of the given depth
abbrev Opened : ℕ → List BlockInfo → Type 0
Opened n st = AllSeen st × (length st ≡ n)

opened_block-Opened :
    (linenum : ℕ) (line : Text) (st : List BlockInfo)
    → AllSeen st
    → Opened (suc (length st)) (opened_block linenum line ∷ st)
opened_block-Opened linenum line st h =
    if_both (λ b. Opened (suc (length st)) (b ∷ st)) (matches extern_c_pattern line)
      ((refl, h), refl) ((refl, h), refl)

pop-Opened : (st : List BlockInfo) → AllSeen st → Opened (length st - 1) (pop st)
pop-Opened [] h = (tt, omega arith)
pop-Opened (b ∷ st) (h, hs) = (hs, omega arith)

brace_stack-Opened :
    (linenum : ℕ) (line : Text) (y : ℕ) (st : List BlockInfo)
    → is_token y ≡ true
    → AllSeen st
    → Opened (depth_step y (length st)) (brace_stack linenum line (y ∷ []) st)
unfolding brace_stack text_eq
brace_stack-Opened linenum line y st t h = elim (Bool-cases (y == b'{')) [
  | inl e ↦ rw (e, seen-AllSeen st h) (opened_block-Opened linenum line st h)
  | inr e ↦ elim (Bool-cases (y == b'}')) [
    | inl e' ↦
        let no : (y == b';') ≡ false = ground (arith, e') in
        let nor : (y == b')') ≡ false = ground (arith, e') in rw (e, e', no, nor) (pop-Opened st h)
    | inr e' ↦
        let keeps : ((y == b';') && true || (y == b')') && true) ≡ true = ground (arith, t) in
        rw (e, e', keeps, seen-AllSeen st h) (h, refl)
  ]
]

abbrev EndsOpened : ℕ → Option (List BlockInfo × List Report) → Type 0
EndsOpened n o =
    (st : List BlockInfo) × (reports : List Report) × (o ≡ some (st, reports)) × Opened n st

add_reports-EndsOpened :
    (n : ℕ) (reports : List Report) (o : Option (List BlockInfo × List Report))
    → EndsOpened n o
    → EndsOpened n (add_reports reports o)
add_reports-EndsOpened n reports o (st, later, e, h) = rw e (st, reports ++ later, refl, h)

EndsOpened-eq :
    (n m : ℕ) (o : Option (List BlockInfo × List Report)) → m ≡ n → EndsOpened n o → EndsOpened m o
EndsOpened-eq n m o e h = rw e h

-- a token is shorter than the line, and one of the class
abbrev TokenOf : Text → Option (ℕ × Text) → Type 0
TokenOf s none = Unit
TokenOf s (some (y, r)) = (is_token y ≡ true) × (length r < length s) × (InLine s → InLine r)

token-TokenOf : (s : Text) → TokenOf s (token (others is_token) s)
unfolding token
token-TokenOf [] = tt
token-TokenOf (x ∷ s) =
    if_cases (TokenOf (x ∷ s)) (others is_token x)
      (λ e. later (token (others is_token) s) (token-TokenOf s))
      (λ e. (ground (arith, e), omega arith, λ h. h.1))
  where
    later : (o : Option (ℕ × Text)) → TokenOf s o → TokenOf (x ∷ s) o
    later none f = tt
    later (some (y, r)) (t, lt, f) = (t, omega arith, λ h. f h.1)

module _ (filename : Text) (clean_lines : CleansedLines) (linenum : ℕ) where
  next_brace-EndsOpened :
      (next : Text → List BlockInfo → Option (List BlockInfo × List Report)) (line : Text)
      (st : List BlockInfo) (o : Option Cursor) (t : Option (ℕ × Text)) (n : ℕ)
      → ((r : Text) (st' : List BlockInfo)
          → length r < length line
          → InLine r
          → AllSeen st'
          → EndsOpened (depth_behind r (length st')) (next r st'))
      → InLine line
      → AllSeen st
      → Matches o t
      → TokenOf line t
      → DepthAt n (length st) t
      → EndsOpened n (next_brace next filename clean_lines linenum line st o)
  next_brace-EndsOpened next line st o none n f h seen e t d = rw e (st, [], refl, (seen, sym d))
  next_brace-EndsOpened next line st o (some (y, r)) n f h seen (m, e, one, two) (t, lt, g) d =
      let (seen', depth) = brace_stack-Opened linenum line y st t seen in
      rw (e, one, two)
        (add_reports-EndsOpened n _ _
          (EndsOpened-eq _ n _ (d ∙ ap (depth_behind r) (sym depth)) (f r _ lt (g h) seen')))

  brace_loop-EndsOpened :
      (fuel : ℕ) (line : Text) (st : List BlockInfo)
      → length line < fuel
      → InLine line
      → AllSeen st
      → EndsOpened
          (depth_behind line (length st))
          (brace_loop fuel filename clean_lines linenum line st)
  unfolding brace_loop
  brace_loop-EndsOpened zero line st lt h seen = absurd (omega arith)
  brace_loop-EndsOpened (suc fuel) line st lt h seen =
      next_brace-EndsOpened (brace_loop fuel filename clean_lines linenum) line st
        (match brace_pattern line) (token (others is_token) line) (depth_behind line (length st))
        (λ r st' less h' seen'. brace_loop-EndsOpened fuel r st' (omega arith) h' seen') h seen
        (match-token is_token line h) (token-TokenOf line) (token-DepthAt line (length st))

  -- On what is left of a line, without an end of line in it, and from a stack all of whose opening
  -- braces have been seen, the loop over the braces ends; its stack is again such a stack, and as
  -- deep as the characters say, each `{` adding a block and each `}` taking one, if there is one.
  pub brace_loop-depth_behind :
      (line : Text) (st : List BlockInfo)
      → InLine line
      → AllSeen st
      → (st' : List BlockInfo) × (reports : List Report) × (brace_loop
            (suc (length line))
            filename
            clean_lines
            linenum
            line
            st
          ≡ some (st', reports))
        × AllSeen st'
        × (length st' ≡ depth_behind line (length st))
  brace_loop-depth_behind line st h seen =
      let (st', reports, e, opened) =
        brace_loop-EndsOpened (suc (length line)) line st (omega arith) h seen in
      (st', reports, e, opened.0, opened.1)
