-- ===== src/Cleanse/Comments.antt =====
-- cpplint.py: `IsCppString` and `CleanseComments`, with the patterns they use.
use dyod.Prelude.{
  ℕ, ◌+◌, ◌%◌, ◌≤◌, ◌≡◌, refl, ap, arith, Bool, not, Option, none, some, [], ◌∷◌, length,
  length-take, take, Text, codes, find, count, count_char, replace, rstrip, drop_while,
  is_unicode_space, ◌==◌, if◌then◌else◌, if_cases, length-append,
}
use mathlib.Core.List.{reverse, reverse-append}
use dyod.Regex.{
  Re, alt, seq, star, at_end, ahead, not_ahead, lit, seqs, alts, none_of, plus, space, non_word,
  sub, Cursor,
}
use dyod.Regex.Laws.{length-sub_from}

-- `/\*(?:[^*]|\*(?!/))*\*/`
abbrev pub c_comments_pattern : Re
c_comments_pattern = seqs (
    lit (codes "/*")
    ∷ star (alt (none_of (codes "*")) (seq (lit (codes "*")) (not_ahead (lit (codes "/")))))
    ∷ lit (codes "*/")
    ∷ [])

-- `_RE_PATTERN_CLEANSE_LINE_C_COMMENTS`
abbrev pub cleanse_line_c_comments_pattern : Re
cleanse_line_c_comments_pattern = alts (
    seqs (star space ∷ c_comments_pattern ∷ star space ∷ at_end ∷ [])
    ∷ seqs (c_comments_pattern ∷ plus space ∷ [])
    ∷ seqs (plus space ∷ c_comments_pattern ∷ ahead non_word ∷ [])
    ∷ c_comments_pattern
    ∷ [])

-- `IsCppString`. The counts are added where the source subtracts: only the parity is asked for.
unfoldable pub is_cpp_string : Text → Bool
is_cpp_string line =
    let line' = replace (codes "\\\\") (codes "XX") line in
    (count_char b'"' line' + count (codes "\\\"") line' + count (codes "'\"'") line') % 2 == 1

-- the line without its //-comment, which starts at the given place
abbrev pub cut_comment : Text → Option ℕ → Text
cut_comment line none = line
cut_comment line (some p) =
    if not (is_cpp_string (take p line)) then rstrip is_unicode_space (take p line) else line

abbrev pub no_text : Cursor → Text
no_text m = []

unfoldable pub cleanse_comments : Text → Text
cleanse_comments line =
    sub cleanse_line_c_comments_pattern no_text (cut_comment line (find (codes "//") line))

length-drop_while : (p : ℕ → Bool) (s : Text) → length (drop_while p s) ≤ length s
unfolding drop_while
length-drop_while p [] = omega arith
length-drop_while p (c ∷ s) = ground (arith, length-drop_while p s)

length-reverse : (s : Text) → length (reverse s) ≡ length s
length-reverse [] = refl
length-reverse (c ∷ s) = omega (
  arith,
  ap length (reverse-append (c ∷ []) s),
  length-append {0} (reverse s) (c ∷ []),
  length-reverse s,
)

length-rstrip : (p : ℕ → Bool) (s : Text) → length (rstrip p s) ≤ length s
unfolding rstrip
length-rstrip p s = omega (
  arith,
  length-reverse (drop_while p (reverse s)),
  length-drop_while p (reverse s),
  length-reverse s,
)

length-cut_comment : (line : Text) (o : Option ℕ) → length (cut_comment line o) ≤ length line
length-cut_comment line none = omega arith
length-cut_comment line (some p) =
    if_cases (λ t. length t ≤ length line) (not (is_cpp_string (take p line)))
      (λ e. omega (arith, length-rstrip is_unicode_space (take p line), length-take {0} p line))
      (λ e. omega arith)

-- Taking comments out never makes a line longer.
pub length-cleanse_comments : (line : Text) → length (cleanse_comments line) ≤ length line
unfolding cleanse_comments
length-cleanse_comments line =
    let cut = cut_comment line (find (codes "//") line) in
    omega (
      arith,
      length-sub_from 0 cleanse_line_c_comments_pattern no_text none cut (λ m. refl),
      length-cut_comment line (find (codes "//") line),
    )
