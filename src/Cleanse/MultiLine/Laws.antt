-- ===== src/Cleanse/MultiLine/Laws.antt =====
-- What `RemoveMultiLineComments` leaves: as many lines, and no start of a comment.
use dyod.Prelude.{
  ℕ, zero, suc, ◌+◌, ◌≤◌, ◌<◌, Bool, true, false, not, List, [], ◌∷◌, ◌++◌, ◌≡◌, refl, ap, arith,
  length, length-append, length-take, length-drop, is_prefix, find, rstrip, drop_while, take, drop,
  all, Text, codes, leb, if_cases, leb→le,
}
use dyod.Report.{Report}
use dyod.Cleanse.MultiLine.{
  starts_comment, find_next_multi_line_comment_start, find_next_multi_line_comment_end,
  remove_multi_line_comments_from_range, onto_lines, blank_lines, remove_loop,
  remove_multi_line_comments,
}

-- no line of the list begins a comment that goes beyond it
abbrev pub no_start : List Text → Bool
no_start lines = all (λ line. not (starts_comment line)) lines

length-blank : (n : ℕ) (lines : List Text) → n ≤ length lines → length (blank_lines n lines) ≡ n
unfolding remove_multi_line_comments_from_range
length-blank zero lines h = refl
length-blank (suc n) [] h = absurd (omega arith)
length-blank (suc n) (line ∷ lines) h = ap suc (length-blank n lines (omega arith))

-- the dummy comment is complete
dummy_is_complete : starts_comment (codes "/**/") ≡ false
unfolding starts_comment is_prefix find rstrip drop_while
dummy_is_complete = refl

no_start-blank : (n : ℕ) (lines : List Text) → no_start (blank_lines n lines) ≡ true
unfolding remove_multi_line_comments_from_range
no_start-blank zero lines = refl
no_start-blank (suc n) [] = refl
no_start-blank (suc n) (line ∷ lines) = rw dummy_is_complete (no_start-blank n lines)

no_start-take :
    (lines : List Text) → no_start (take (find_next_multi_line_comment_start lines) lines) ≡ true
unfolding find_next_multi_line_comment_start
no_start-take [] = refl
no_start-take (line ∷ lines) = ground (arith, no_start-take lines)

no_start-all :
    (lines : List Text)
    → length lines ≤ find_next_multi_line_comment_start lines
    → no_start lines ≡ true
unfolding find_next_multi_line_comment_start
no_start-all [] h = refl
no_start-all (line ∷ lines) h = ground (arith, no_start-all lines)

no_start-append :
    (xs ys : List Text) → no_start xs ≡ true → no_start ys ≡ true → no_start (xs ++ ys) ≡ true
no_start-append [] ys p q = q
no_start-append (x ∷ xs) ys p q = ground (arith, no_start-append xs ys)

-- as many lines as before, and without a report no start of a comment among them
abbrev pub Removes : List Text → List Text × List Report → Type 0
Removes lines r = (length r.0 ≡ length lines) × (r.1 ≡ [] → no_start r.0 ≡ true)

Removes-onto :
    (front lines rest : List Text) (r : List Text × List Report)
    → length front + length rest ≡ length lines
    → no_start front ≡ true
    → Removes rest r
    → Removes lines (onto_lines front r)
Removes-onto front lines rest (out, reports) l p (e, f) =
    (omega (arith, length-append {0} front out), λ h. no_start-append front out p (f h))

not_leb : (a b : ℕ) → leb a b ≡ false → b < a
not_leb a b h = ground arith

pieces-length :
    (lines : List Text) (begin end : ℕ)
    → begin < length lines
    → end < length (drop begin lines)
    → length (take begin lines ++ blank_lines (end + 1) (drop begin lines))
        + length (drop (end + 1) (drop begin lines))
      ≡ length lines
pieces-length lines begin end h k = omega (
  arith,
  length-append {0} (take begin lines) (blank_lines (end + 1) (drop begin lines)),
  length-take {0} begin lines,
  length-blank (end + 1) (drop begin lines),
  length-drop {0} (end + 1) (drop begin lines),
  length-drop {0} begin lines,
)

remove_loop-Removes :
    (fuel : ℕ) (filename : Text) (lineix : ℕ) (lines : List Text)
    → length lines < fuel
    → Removes lines (remove_loop fuel filename lineix lines)
unfolding remove_loop
remove_loop-Removes zero filename lineix lines h = absurd (omega arith)
remove_loop-Removes (suc fuel) filename lineix lines h =
    let begin = find_next_multi_line_comment_start lines in
    let comment = drop begin lines in
    let end = find_next_multi_line_comment_end comment in
    let P = Removes lines in
    if_cases P (leb (length lines) begin)
      (λ no_begin. (refl, λ e. no_start-all lines (leb→le _ _ no_begin)))
      (λ begins.
        if_cases P (leb (length comment) end) (λ no_end. (refl, λ e. cc))
          (λ ends.
            Removes-onto (take begin lines ++ blank_lines (end + 1) comment) lines
              (drop (end + 1) comment) _
              (pieces-length lines begin end (not_leb _ _ begins) (not_leb _ _ ends))
              (no_start-append (take begin lines) (blank_lines (end + 1) comment)
                (no_start-take lines) (no_start-blank (end + 1) comment))
              (remove_loop-Removes fuel filename (lineix + begin + end + 1) (drop (end + 1) comment)
                (omega (
                  arith,
                  h,
                  length-drop {0} (end + 1) comment,
                  length-drop {0} begin lines,
                  not_leb _ _ begins,
                )))))

-- `RemoveMultiLineComments` keeps the number of lines, and unless it reports a comment without an
-- end, no line is left that begins a comment which goes beyond it.
pub remove_multi_line_comments-Removes :
    (filename : Text) (lines : List Text)
    → Removes lines (remove_multi_line_comments filename lines)
unfolding remove_multi_line_comments
remove_multi_line_comments-Removes filename lines =
    remove_loop-Removes (suc (length lines)) filename 0 lines (omega arith)
