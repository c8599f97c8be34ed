-- ===== src/Prelude/Strings.antt =====
-- Texts as lists of code points, with the methods of Python's `str` that cpplint.py calls.
use Prim.Native.Char.{code}
use Prim.Native.Nat.{ℕ, zero, suc, ◌+◌, ◌-◌}
use Prim.Native.String.{String}
use mathlib.Core.Bool.{Bool, true, false, ◌||◌, ◌&&◌}
use mathlib.Core.List.{List, [], ◌∷◌, ◌++◌, reverse}
use mathlib.Core.Option.{Option, none, some}
use mathlib.Core.Path.{◌≡◌, refl}
use mathlib.Core.Logic.{◌↔◌}
use native.Mathlib.Omega.{arith}
use dyod.Prelude.Tests.{leb, ◌==◌, if◌then◌else◌}
use dyod.Prelude.Lists.{length}

abbrev pub Text : Type 0
Text = List ℕ

abbrev pub codes : String → Text
codes String.[] = []
codes (String.◌∷◌ c s) = code c ∷ codes s

-- Python's `==` on texts.
unfoldable pub text_eq : Text → Text → Bool
text_eq [] [] = true
text_eq (x ∷ xs) (y ∷ ys) = x == y && text_eq xs ys
text_eq _ _ = false

-- `t in ts` for a list of texts.
unfoldable pub text_mem : Text → List Text → Bool
unfolding text_eq
text_mem t [] = false
text_mem t (s ∷ ss) = text_eq t s || text_mem t ss

-- `c in s` for one character.
abbrev pub char_mem : ℕ → Text → Bool
char_mem c [] = false
char_mem c (x ∷ xs) = c == x || char_mem c xs

-- `s.startswith(p)`, with the arguments `p s`.
unfoldable pub is_prefix : Text → Text → Bool
is_prefix [] s = true
is_prefix (p ∷ ps) [] = false
is_prefix (p ∷ ps) (c ∷ s) = p == c && is_prefix ps s

-- `s.endswith(p)`, with the arguments `p s`.
unfoldable pub is_suffix : Text → Text → Bool
unfolding is_prefix
is_suffix p s = is_prefix (reverse p) (reverse s)

-- `s.find(p)`: the first position of `p`, or `none` where Python answers -1.
unfoldable pub find : Text → Text → Option ℕ
unfolding is_prefix
find p [] = if is_prefix p [] then some 0 else none
find p (c ∷ s) =
    let rest = find p s in
    if is_prefix p (c ∷ s) then some 0 else elim rest [ none ↦ none | some i ↦ some (suc i) ]

-- `s.count(c)` for one character.
unfoldable pub count_char : ℕ → Text → ℕ
count_char c [] = 0
count_char c (x ∷ s) = (if x == c then 1 else 0) + count_char c s

-- `s.replace(p, r)` and `s.count(p)` for a text `p` that is not empty, from left to right with
-- no overlap: `skip` characters of an occurrence are still to be passed over.
unfoldable pub replace_from : ℕ → Text → Text → Text → Text
unfolding is_prefix
replace_from skip p r [] = []
replace_from (suc k) p r (c ∷ s) = replace_from k p r s
replace_from zero p r (c ∷ s) =
    let hit = r ++ replace_from (length p - 1) p r s in
    let miss = c ∷ replace_from zero p r s in if is_prefix p (c ∷ s) then hit else miss

abbrev pub replace : Text → Text → Text → Text
replace p r s = replace_from zero p r s

unfoldable pub count_from : ℕ → Text → Text → ℕ
unfolding is_prefix
count_from skip p [] = 0
count_from (suc k) p (c ∷ s) = count_from k p s
count_from zero p (c ∷ s) =
    let hit = suc (count_from (length p - 1) p s) in
    let miss = count_from zero p s in if is_prefix p (c ∷ s) then hit else miss

abbrev pub count : Text → Text → ℕ
count p s = count_from zero p s

-- `s.split(c)` for one character: never the empty list.
unfoldable pub split_onto : Text → ℕ → Text → List Text
split_onto part c [] = part ∷ []
split_onto part c (x ∷ s) =
    let cut = part ∷ split_onto [] c s in
    let keep = split_onto (part ++ x ∷ []) c s in if x == c then cut else keep

abbrev pub split : ℕ → Text → List Text
split c s = split_onto [] c s

-- The part before the first `c`: `s.split(c)[0]`.
unfoldable pub before : ℕ → Text → Text
before c [] = []
before c (x ∷ s) = if x == c then [] else x ∷ before c s

-- White space of byte strings, which `\s` stands for too.
abbrev pub is_space : ℕ → Bool
is_space c = c == 32 || leb 9 c && leb c 13

-- White space of Python 2's `unicode` strings.
abbrev pub is_unicode_space : ℕ → Bool
is_unicode_space c =
    is_space c
    || leb 28 c && leb c 31
    || c == 133
    || c == 160
    || c == 5760
    || c == 6158
    || leb 8192 c && leb c 8202
    || c == 8232
    || c == 8233
    || c == 8239
    || c == 8287
    || c == 12288

unfoldable pub drop_while : (ℕ → Bool) → Text → Text
drop_while p [] = []
drop_while p (c ∷ s) = if p c then drop_while p s else c ∷ s

-- `s.lstrip()`, `s.rstrip()` and `s.strip()` for the given white space.
abbrev pub lstrip : (ℕ → Bool) → Text → Text
lstrip p s = drop_while p s

unfoldable pub rstrip : (ℕ → Bool) → Text → Text
unfolding drop_while
rstrip p s = reverse (drop_while p (reverse s))

abbrev pub strip : (ℕ → Bool) → Text → Text
strip p s = rstrip p (lstrip p s)

-- `c.upper()` and `c.lower()` on ASCII letters.
abbrev pub upper_char : ℕ → ℕ
upper_char c = if leb b'a' c && leb c b'z' then c - 32 else c

abbrev pub lower_char : ℕ → ℕ
lower_char c = if leb b'A' c && leb c b'Z' then c + 32 else c

pub text_eq_iff : (s t : Text) → (text_eq s t ≡ true) ↔ (s ≡ t)
unfolding text_eq
text_eq_iff (x ∷ s) (y ∷ t) = ground (arith, text_eq_iff s t)
text_eq_iff _ _ = ground arith

pub text_eq_self : (s : Text) → text_eq s s ≡ true
text_eq_self s = (text_eq_iff s s).1 refl

pub is_prefix-append : (p s : Text) → is_prefix p (p ++ s) ≡ true
unfolding is_prefix
is_prefix-append [] s = refl
is_prefix-append (c ∷ p) s = ground (arith, is_prefix-append p s)
