-- ===== src/Regex.antt =====
-- The part of Python's `re` that cpplint.py uses: patterns as data, and a backtracking matcher.
-- `run` lists the ways in which a pattern matches at a place, in the order in which `re` tries
-- them, so its head is the match that `re` returns. White space, word characters and `.` are
-- those of patterns without flags: ASCII, and no newline for `.`. An iteration of a repeated
-- pattern has to consume something. `match`, `search` and `sub` are cpplint.py's `Match`, `Search`
-- and `ReplaceAll`; the cache of compiled patterns has no effect that a caller can see.
pub mod Laws
pub mod Every
pub mod Weight
pub mod Scan
pub mod Token
use dyod.Prelude.{
  ℕ, zero, suc, ◌-◌, Bool, true, false, not, ◌&&◌, ◌||◌, Option, none, some, List, [], ◌∷◌, ◌++◌,
  map, length, take, is_empty, Text, leb, ◌==◌, if◌then◌else◌, is_space, char_mem,
}

pub data Re : Type 0 where
  -- one character of a class
  chr : (ℕ → Bool) → Re
  eps : Re
  seq : Re → Re → Re
  alt : Re → Re → Re
  -- `r*` and `r*?`
  star : Re → Re
  lazy_star : Re → Re
  -- `(r)`, with the number of the group
  grp : ℕ → Re → Re
  -- `\b`, `^` and `$`
  word_edge : Re
  at_start : Re
  at_end : Re
  -- `(?=r)` and `(?!r)`
  ahead : Re → Re
  not_ahead : Re → Re

-- A place in a text: the character before it, what follows, and the groups set so far.
pub record Cursor : Type 0 where
  pub prev : Option ℕ
  pub rest : Text
  pub groups : List (ℕ × Text)

abbrev pub is_digit : ℕ → Bool
is_digit c = leb b'0' c && leb c b'9'

abbrev pub is_alpha : ℕ → Bool
is_alpha c = leb b'a' c && leb c b'z' || leb b'A' c && leb c b'Z'

-- `\w`
abbrev pub is_word : ℕ → Bool
is_word c = is_alpha c || is_digit c || c == b'_'

abbrev opt_word : Option ℕ → Bool
opt_word none = false
opt_word (some c) = is_word c

abbrev first_char : Text → Option ℕ
first_char [] = none
first_char (c ∷ s) = some c

-- exactly one of the two neighbours is a word character
abbrev is_edge : Option ℕ → Text → Bool
is_edge prev rest =
    if opt_word prev then not (opt_word (first_char rest)) else opt_word (first_char rest)

abbrev is_end : Text → Bool
is_end [] = true
is_end (c ∷ s) = c == 10 && is_empty s

abbrev is_none : Option ℕ → Bool
is_none none = true
is_none (some c) = false

abbrev keep_if : Bool → Cursor → List Cursor
keep_if b c = if b then c ∷ [] else []

pub step_char : (ℕ → Bool) → Option ℕ → Text → List (ℕ × Text) → List Cursor
step_char p prev [] gs = []
step_char p prev (c ∷ s) gs =
    if p c then record { prev = some c; rest = s; groups = gs } ∷ [] else []

pub each : (Cursor → List Cursor) → List Cursor → List Cursor
each f [] = []
each f (c ∷ cs) = f c ++ each f cs

-- the places after an iteration that has consumed something
abbrev advanced : Cursor → List Cursor → List Cursor
advanced c [] = []
advanced c (d ∷ ds) =
    if leb (length c.rest) (length d.rest) then advanced c ds else d ∷ advanced c ds

-- Greedy repetition, on fuel: every iteration consumes a character, so that the length of what
-- follows is enough.
pub repeat : (Cursor → List Cursor) → ℕ → Cursor → List Cursor
unfolding each
repeat f zero c = c ∷ []
repeat f (suc n) c = each (repeat f n) (advanced c (f c)) ++ c ∷ []

pub repeat_lazy : (Cursor → List Cursor) → ℕ → Cursor → List Cursor
unfolding each
repeat_lazy f zero c = c ∷ []
repeat_lazy f (suc n) c = c ∷ each (repeat_lazy f n) (advanced c (f c))

-- the text between two places
abbrev pub between : Cursor → Cursor → Text
between c d = take (length c.rest - length d.rest) c.rest

abbrev capture : ℕ → Cursor → Cursor → Cursor
capture n c d = record d { groups = (n, between c d) ∷ d.groups }

unfoldable pub run : Re → Cursor → List Cursor
unfolding step_char each repeat repeat_lazy
run (chr p) c = step_char p c.prev c.rest c.groups
run eps c = c ∷ []
run (seq r q) c = each (run q) (run r c)
run (alt r q) c = run r c ++ run q c
run (star r) c = repeat (run r) (length c.rest) c
run (lazy_star r) c = repeat_lazy (run r) (length c.rest) c
run (grp n r) c = map (capture n c) (run r c)
run word_edge c = keep_if (is_edge c.prev c.rest) c
run at_start c = keep_if (is_none c.prev) c
run at_end c = keep_if (is_end c.rest) c
run (ahead r) c = keep_if (not (is_empty (run r c))) c
run (not_ahead r) c = keep_if (is_empty (run r c)) c

abbrev pub at : Option ℕ → Text → Cursor
at prev s = record { prev = prev; rest = s; groups = [] }

abbrev pub first : List Cursor → Option Cursor
first [] = none
first (c ∷ cs) = some c

-- `Match(r, s)`: the place behind the match.
unfoldable pub match : Re → Text → Option Cursor
unfolding run
match r s = first (run r (at none s))

-- `Search(r, s)`: the start of the leftmost match, and the place behind it.
pub search_from : Re → ℕ → Option ℕ → Text → Option (ℕ × Cursor)
unfolding run
search_from r i prev [] = elim (first (run r (at prev []))) [ some d ↦ some (i, d) | none ↦ none ]
search_from r i prev (c ∷ s) =
    let later = search_from r (suc i) (some c) s in
    elim (first (run r (at prev (c ∷ s)))) [ some d ↦ some (i, d) | none ↦ later ]

unfoldable pub search : Re → Text → Option (ℕ × Cursor)
unfolding search_from
search r s = search_from r 0 none s

-- the same as tests
unfoldable pub matches : Re → Text → Bool
unfolding match
matches r s = elim (match r s) [ some d ↦ true | none ↦ false ]

unfoldable pub finds : Re → Text → Bool
unfolding search
finds r s = elim (search r s) [ some d ↦ true | none ↦ false ]

-- `r.sub(rep, s)`, where the replacement may read the groups. `skip` characters of a match are
-- still to be passed over. No pattern that is replaced matches the empty text, so an empty match
-- is taken for none.
unfoldable pub sub_from : ℕ → Re → (Cursor → Text) → Option ℕ → Text → Text
unfolding run
sub_from skip r rep prev [] = []
sub_from (suc k) r rep prev (c ∷ s) = sub_from k r rep (some c) s
sub_from zero r rep prev (c ∷ s) =
    let miss = c ∷ sub_from zero r rep (some c) s in
    elim (first (run r (at prev (c ∷ s)))) [
      | none ↦ miss
      | some d ↦
          let width = length (c ∷ s) - length d.rest in
          let hit = rep d ++ sub_from (width - 1) r rep (some c) s in
          if width == 0 then miss else hit
    ]

abbrev pub sub : Re → (Cursor → Text) → Text → Text
sub r rep s = sub_from zero r rep none s

unfoldable pub lookup_group : ℕ → List (ℕ × Text) → Option Text
lookup_group n [] = none
lookup_group n ((m, t) ∷ gs) = if m == n then some t else lookup_group n gs

-- `m.group(n)`; `none` is a group that took no part.
abbrev pub group : ℕ → Cursor → Option Text
group n d = lookup_group n d.groups

abbrev pub or_nil : Option Text → Text
or_nil none = []
or_nil (some t) = t

-- `m.group(n)` where the group takes part in every match.
abbrev pub group_text : ℕ → Cursor → Text
group_text n d = or_nil (group n d)

-- Notation for patterns.
abbrev pub lit : Text → Re
lit [] = eps
lit (c ∷ []) = chr (λ x. x == c)
lit (c ∷ s) = seq (chr (λ x. x == c)) (lit s)

abbrev pub seqs : List Re → Re
seqs [] = eps
seqs (r ∷ []) = r
seqs (r ∷ rs) = seq r (seqs rs)

abbrev pub alts : List Re → Re
alts [] = chr (λ x. false)
alts (r ∷ []) = r
alts (r ∷ rs) = alt r (alts rs)

-- `[abc]` and `[^abc]`
abbrev pub one_of : Text → Re
one_of cs = chr (λ x. char_mem x cs)

abbrev pub none_of : Text → Re
none_of cs = chr (λ x. not (char_mem x cs))

abbrev pub opt : Re → Re
opt r = alt r eps

abbrev pub plus : Re → Re
plus r = seq r (star r)

-- `\s`, `\S`, `\w`, `\W`, `\d`, `.` and a space
abbrev pub space : Re
space = chr is_space

abbrev pub non_space : Re
non_space = chr (λ x. not (is_space x))

abbrev pub word : Re
word = chr is_word

abbrev pub non_word : Re
non_word = chr (λ x. not (is_word x))

abbrev pub digit : Re
digit = chr is_digit

abbrev pub dot : Re
dot = chr (λ x. not (x == 10))

abbrev pub blank : Re
blank = chr (λ x. x == b' ')
