-- ===== src/Config/Overrides/Values.antt =====
-- The walk over the configuration files ends, and what it makes of their lines.
use dyod.Prelude.{
  Bool, true, false, ◌||◌, Option, none, some, List, [], ◌∷◌, ◌++◌, ℕ, zero, suc, ◌<◌, ◌≡◌, refl,
  sym, ◌∙◌, arith, Text, is_empty, length, if◌then◌else◌, Bool-cases, inl, inr,
}
use mathlib.Core.List.{reverse, append_assoc, append-nil}
use dyod.LintState.{CppLintState, Result, ok, value_error}
use dyod.Config.{Settings}
use dyod.Files.Paths.{split_path}
use dyod.Files.Repository.{dirname-lt_name}
use dyod.Config.Overrides.{
  Walk, Step, go, excluded, bad_pattern, write, config_path, config_file, walk, Overridden, proceed,
  skip, pattern_raised, filter_raised, add_all, apply_filters, process_config_overrides, next_walk,
  with_filters, start,
}
use dyod.Config.Overrides.Says.{
  Sayings, join, line_says, says, last_number, last_root, and_above, lines_for,
}
use dyod.Config.Overrides.Follows.{
  Follows, Sound, went, left_out, raised, Follows-nothing, Sound-join, config_lines-Sound,
}

or_assoc : (a b c : Bool) → (a || (b || c)) ≡ ((a || b) || c)
or_assoc a b c = ground arith

join_assoc : (a b c : Sayings) → join a (join b c) ≡ join (join a b) c
join_assoc a b c = ground (
  arith,
  append_assoc a.lengths b.lengths c.lengths,
  append_assoc a.roots b.roots c.roots,
  append_assoc a.filters b.filters c.filters,
  or_assoc a.noparent b.noparent c.noparent,
)

says-append : (xs ys : List Text) → says (xs ++ ys) ≡ join (says xs) (says ys)
unfolding says
says-append [] ys = refl
says-append (x ∷ xs) ys = rw (says-append xs ys) (join_assoc (line_says x) (says xs) (says ys))

-- What a walk leaves says nothing on whether it stopped at a `set noparent`.
abbrev WalkSound : Walk → List Text → Option Step → Type 0
WalkSound w lines o =
    (step : Step) × (b : Bool) × (o ≡ some step)
    × Sound w (record (says lines) { noparent = b }) step

module _ (excludes : Text → Text → Option Bool) (filename : Text) (isfile : Text → Bool)
    (read_config : Text → Option (List Text)) where
  walk_stopped :
      (fuel : ℕ) (path : Text) (w : Walk)
      → 0 < fuel
      → w.keep_looking ≡ false
      → walk excludes filename isfile read_config fuel path w ≡ some (go w)
  unfolding walk
  walk_stopped zero path w h e = absurd (omega arith)
  walk_stopped (suc fuel) path w h e = rw e

  -- what the walk does behind a file, by what the file says
  after_file :
      (lines above : List Text) (fuel : ℕ) (dir : Text) (w : Walk) {step : Step}
      → 0 < fuel
      → w.keep_looking ≡ true
      → ((v : Walk)
          → v.keep_looking ≡ true
          → WalkSound v above (walk excludes filename isfile read_config fuel dir v))
      → Sound w (says lines) step
      → WalkSound w
          (lines ++ (if (says lines).noparent then [] else above))
          (next_walk (walk excludes filename isfile read_config fuel dir) step)
  after_file lines above fuel dir w pos e rec (left_out v f f') =
      (excluded v, false, refl, left_out v f f')
  after_file lines above fuel dir w pos e rec (raised p) = (bad_pattern p, false, refl, raised p)
  after_file lines above fuel dir w pos e rec (went v f) = elim (Bool-cases (says lines).noparent) [
    | inl stop ↦
        rw (stop, append-nil lines)
          (
            go v,
            (says lines).noparent,
            walk_stopped fuel dir v pos (f.keep ∙ rw (stop, e)),
            went v f,
          )
    | inr on ↦
        rw (on, says-append lines above)
          (let (step, b, went_on, g) = rec v (f.keep ∙ rw (on, e)) in
            (
              step,
              (says lines).noparent || b,
              went_on,
              Sound-join w (says lines) (record (says above) { noparent = b }) f g,
            ))
  ]

  -- The file of a directory, where there is one; `none` is the file that cannot be read.
  at_file :
      (read : Option (List Text)) (above : List Text) (fuel : ℕ) (dir cfg_file base_name : Text)
      (w : Walk)
      → 0 < fuel
      → w.keep_looking ≡ true
      → ((v : Walk)
          → v.keep_looking ≡ true
          → WalkSound v above (walk excludes filename isfile read_config fuel dir v))
      → WalkSound w (and_above above read) (
          next_walk
            (walk excludes filename isfile read_config fuel dir)
            (config_file excludes filename cfg_file base_name read w))
  unfolding config_file says
  at_file none above fuel dir cfg_file base_name w pos e rec = (
    go (write _ (record w { keep_looking = false })),
    true,
    walk_stopped fuel dir _ pos refl,
    went _ (record {
      line_length = refl;
      root = refl;
      filters = sym (append-nil w.cfg_filters);
      keep = ground arith;
      state = refl;
      extensions = refl;
    }),
  )
  at_file (some lines) above fuel dir cfg_file base_name w pos e rec =
      after_file lines above fuel dir w pos e rec
        (config_lines-Sound excludes filename cfg_file base_name lines w)

  walk-Sound :
      (fuel : ℕ) (path : Text) (w : Walk)
      → length path < fuel
      → w.keep_looking ≡ true
      → WalkSound w
          (lines_for isfile read_config fuel path)
          (walk excludes filename isfile read_config fuel path w)
  unfolding walk lines_for says
  walk-Sound zero path w lt e = absurd (omega arith)
  walk-Sound (suc fuel) path w lt e = elim (Bool-cases (is_empty (split_path path).1)) [
    | inl top ↦ simp (e, top) (go w, false, refl, went w (Follows-nothing w))
    | inr below ↦
        let (dir, base_name) = split_path path in
        let shorter : length dir < fuel = omega (arith, dirname-lt_name path below) in
        elim (Bool-cases (isfile (config_path dir))) [
          | inl there ↦
              simp (e, below, there)
                (at_file (read_config (config_path dir)) (lines_for isfile read_config fuel dir)
                  fuel dir (config_path dir) base_name w (omega arith) e
                  (λ v k. walk-Sound fuel dir v shorter k))
          | inr missing ↦ simp (e, below, missing) (walk-Sound fuel dir w shorter e)
        ]
  ]

-- What the lines make of the settings `s`. Nothing is said of the two exceptions.
abbrev pub Agrees : Settings → List Text → Overridden → Type 0
Agrees s lines (proceed t written) =
    (t.line_length ≡ last_number (says lines).lengths s.line_length)
    × (t.root ≡ last_root (says lines).roots s.root)
    × (add_all (reverse (says lines).filters) s.state ≡ ok t.state)
    × (t.valid_extensions ≡ s.valid_extensions)
Agrees s lines (skip t written) = (t.state ≡ s.state) × (t.valid_extensions ≡ s.valid_extensions)
Agrees s lines (pattern_raised p) = Unit
Agrees s lines (filter_raised f) = Unit

with_filters-Agrees :
    (s : Settings) (lines : List Text) (b : Bool) (w : Walk) (r : Result CppLintState)
    → Follows (start s) (record (says lines) { noparent = b }) w
    → add_all (reverse (says lines).filters) s.state ≡ r
    → Agrees s lines (with_filters w r)
unfolding with_filters
with_filters-Agrees s lines b w (ok t) f e = (f.line_length, f.root, e, f.extensions)
with_filters-Agrees s lines b w (value_error v) f e = tt

apply_filters-Agrees :
    (s : Settings) (lines : List Text) (b : Bool) {step : Step}
    → Sound (start s) (record (says lines) { noparent = b }) step
    → Agrees s lines (apply_filters step)
unfolding apply_filters
apply_filters-Agrees s lines b (went w f) =
    with_filters-Agrees s lines b w _ f (rw (f.filters, f.state))
apply_filters-Agrees s lines b (left_out w e e') = (e, e')
apply_filters-Agrees s lines b (raised p) = tt

-- For any file system, `ProcessConfigOverrides` ends for every file. Where it tells to go on, the
-- files CPPLINT.cfg that count are those of the directories from that of the file up, as far as the
-- first that says `set noparent` or cannot be read. Of their lines, from the nearest file to the
-- outermost, the last numeric `linelength` and the last `root` are the settings, or those before if
-- there are none; the values of `filter` are added from the last one to the first; the extensions
-- stay. Where it tells to leave out the file, the state with the filters and the extensions are those
-- before.
pub process_config_overrides-Agrees :
    (abspath : Text → Text) (isfile : Text → Bool) (read_config : Text → Option (List Text))
    (excludes : Text → Text → Option Bool) (filename : Text) (s : Settings)
    → (r : Overridden) × (process_config_overrides abspath isfile read_config excludes filename s
        ≡ some r)
      × Agrees s
          (lines_for isfile read_config (suc (length (abspath filename))) (abspath filename))
          r
unfolding process_config_overrides
process_config_overrides-Agrees abspath isfile read_config excludes filename s =
    let (step, b, e, h) =
      walk-Sound excludes filename isfile read_config (suc (length (abspath filename)))
        (abspath filename) (start s) (omega arith) refl in
    (apply_filters step, rw e, apply_filters-Agrees s _ b h)
