-- ===== src/HeaderGuard/Scan.antt =====
-- The one pass over the lines of a header against three searches.
use dyod.Prelude.{
  ℕ, suc, Bool, true, false, Option, none, some, List, [], ◌∷◌, ◌++◌, ◌≡◌, refl, ◌∙◌, Text, codes,
  All, is_empty, is_unicode_space, text_eq, if◌then◌else◌, if_both,
}
use dyod.HeaderGuard.{
  words_onto, words, GuardScan, new_scan, argument_of, note_ifndef, note_define, is_endif,
  scan_line, scan_lines,
}

-- the first line with an argument of the directive, from line `n` on
abbrev or_later : ℕ → Option Text → Option (Text × ℕ) → Option (Text × ℕ)
or_later n none later = later
or_later n (some argument) later = some (argument, n)

unfoldable pub first_argument : Text → ℕ → List Text → Option (Text × ℕ)
first_argument directive n [] = none
first_argument directive n (line ∷ lines) =
    or_later n (argument_of directive (words line)) (first_argument directive (suc n) lines)

-- the last line that begins with #endif
abbrev or_here : Option (Text × ℕ) → Option (Text × ℕ) → Option (Text × ℕ)
or_here (some p) here = some p
or_here none here = here

unfoldable pub last_endif : ℕ → List Text → Option (Text × ℕ)
last_endif n [] = none
last_endif n (line ∷ lines) =
    or_here (last_endif (suc n) lines) (if is_endif line then some (line, n) else none)

-- what is found, or the empty text and the line 0
abbrev pub or_none : Option (Text × ℕ) → Text × ℕ
or_none none = ([], 0)
or_none (some p) = p

abbrev pub found : List Text → GuardScan
found lines =
    let ifndef = or_none (first_argument (codes "#ifndef") 0 lines) in
    let endif = or_none (last_endif 0 lines) in
    record {
      ifndef = ifndef.0;
      ifndef_linenum = ifndef.1;
      define = (or_none (first_argument (codes "#define") 0 lines)).0;
      endif = endif.0;
      endif_linenum = endif.1;
    }

-- no word is empty
abbrev Full : List Text → Type 0
Full ws = All (λ w. is_empty w ≡ false) ws

snoc-ne : (part : Text) (c : ℕ) → is_empty (part ++ c ∷ []) ≡ false
snoc-ne [] c = refl
snoc-ne (x ∷ part) c = refl

words_onto-Full : (part s : Text) → Full (words_onto part s)
unfolding words_onto
words_onto-Full [] [] = tt
words_onto-Full (x ∷ part) [] = (refl, tt)
words_onto-Full [] (c ∷ s) =
    if_both Full (is_unicode_space c) (words_onto-Full [] s) (words_onto-Full (c ∷ []) s)
words_onto-Full (x ∷ part) (c ∷ s) =
    if_both Full (is_unicode_space c) (refl, words_onto-Full [] s)
      (words_onto-Full ((x ∷ part) ++ c ∷ []) s)

-- an argument is not empty
abbrev FullOption : Option Text → Type 0
FullOption none = Unit
FullOption (some t) = is_empty t ≡ false

argument_of-FullOption :
    (directive : Text) (ws : List Text) → Full ws → FullOption (argument_of directive ws)
argument_of-FullOption directive [] h = tt
argument_of-FullOption directive (w ∷ []) h = tt
argument_of-FullOption directive (w ∷ argument ∷ rest) (h, (k, hs)) =
    if_both FullOption (text_eq w directive) k tt

-- an earlier find goes before a later one
abbrev or_first : Text × ℕ → Option (Text × ℕ) → Text × ℕ
or_first (t, n) none = (t, n)
or_first (t, n) (some p) = if is_empty t then p else (t, n)

abbrev or_last : Text × ℕ → Option (Text × ℕ) → Text × ℕ
or_last noted none = noted
or_last noted (some p) = p

note_ifndef-or_first :
    (n : ℕ) (o : Option Text) (noted : Text × ℕ) (later : Option (Text × ℕ))
    → FullOption o
    → or_first (note_ifndef n o noted) later ≡ or_first noted (or_later n o later)
note_ifndef-or_first n none noted later h = refl
note_ifndef-or_first n (some (x ∷ argument)) ([], m) none h = refl
note_ifndef-or_first n (some (x ∷ argument)) ([], m) (some p) h = refl
note_ifndef-or_first n (some (x ∷ argument)) (c ∷ t, m) none h = refl
note_ifndef-or_first n (some (x ∷ argument)) (c ∷ t, m) (some p) h = refl
note_ifndef-or_first n (some []) noted later h = cc

note_define-or_first :
    (n m : ℕ) (o : Option Text) (t : Text) (later : Option (Text × ℕ))
    → FullOption o
    → (or_first (note_define o t, m) later).0 ≡ (or_first (t, m) (or_later n o later)).0
note_define-or_first n m none t later h = refl
note_define-or_first n m (some (x ∷ argument)) [] none h = refl
note_define-or_first n m (some (x ∷ argument)) [] (some p) h = refl
note_define-or_first n m (some (x ∷ argument)) (c ∷ t) none h = refl
note_define-or_first n m (some (x ∷ argument)) (c ∷ t) (some p) h = refl
note_define-or_first n m (some []) t later h = cc

note_endif-or_last :
    (n : ℕ) (line : Text) (noted : Text × ℕ) (later : Option (Text × ℕ)) (b : Bool)
    → or_last (if b then (line, n) else noted) later
      ≡ or_last noted (or_here later (if b then some (line, n) else none))
note_endif-or_last n line noted none true = refl
note_endif-or_last n line noted none false = refl
note_endif-or_last n line noted (some p) b = refl

-- from what has been noted before line `n`
abbrev found_from : ℕ → List Text → GuardScan → GuardScan
found_from n lines s =
    let ifndef = or_first (s.ifndef, s.ifndef_linenum) (first_argument (codes "#ifndef") n lines) in
    let endif = or_last (s.endif, s.endif_linenum) (last_endif n lines) in
    record {
      ifndef = ifndef.0;
      ifndef_linenum = ifndef.1;
      define = (or_first (s.define, 0) (first_argument (codes "#define") n lines)).0;
      endif = endif.0;
      endif_linenum = endif.1;
    }

scan_lines-found_from :
    (n : ℕ) (lines : List Text) (s : GuardScan) → scan_lines n lines s ≡ found_from n lines s
unfolding scan_lines first_argument last_endif
scan_lines-found_from n [] s = refl
scan_lines-found_from n (line ∷ lines) s =
    let ifndef =
      note_ifndef-or_first n (argument_of (codes "#ifndef") (words line))
        (s.ifndef, s.ifndef_linenum) (first_argument (codes "#ifndef") (suc n) lines)
        (argument_of-FullOption (codes "#ifndef") (words line) (words_onto-Full [] line)) in
    let define =
      note_define-or_first n 0 (argument_of (codes "#define") (words line)) s.define
        (first_argument (codes "#define") (suc n) lines)
        (argument_of-FullOption (codes "#define") (words line) (words_onto-Full [] line)) in
    let endif =
      note_endif-or_last n line (s.endif, s.endif_linenum) (last_endif (suc n) lines)
        (is_endif line) in
    scan_lines-found_from (suc n) lines (scan_line n line s) ∙ cc

or_first-or_none : (o : Option (Text × ℕ)) → or_first ([], 0) o ≡ or_none o
or_first-or_none none = refl
or_first-or_none (some p) = refl

or_last-or_none : (o : Option (Text × ℕ)) → or_last ([], 0) o ≡ or_none o
or_last-or_none none = refl
or_last-or_none (some p) = refl

-- The loop of `CheckForHeaderGuard` over the lines of a header finds the argument and the line of
-- the first #ifndef that has an argument, the argument of the first such #define, and the last line
-- that begins with #endif, with its number; what there is none of is empty, on line 0.
pub scan_lines-found : (lines : List Text) → scan_lines 0 lines new_scan ≡ found lines
scan_lines-found lines =
    let ifndef = or_first-or_none (first_argument (codes "#ifndef") 0 lines) in
    let define = or_first-or_none (first_argument (codes "#define") 0 lines) in
    let endif = or_last-or_none (last_endif 0 lines) in scan_lines-found_from 0 lines new_scan ∙ cc
