-- ===== src/IncludeWhatYouUse/Known.antt =====
-- Which headers count as included, and when nothing is reported.
use dyod.Prelude.{
  ℕ, suc, Bool, true, false, not, ◌&&◌, ◌||◌, Option, none, some, List, [], ◌∷◌, ◌++◌, ◌≡◌, refl,
  sym, ap, ◌∙◌, arith, Text, codes, is_empty, is_suffix, any, all, text_eq, text_eq_iff, Bool-cases,
  inl, inr,
}
use dyod.Regex.{Cursor, group_text, search}
use dyod.Cleanse.Comments.{cleanse_comments}
use dyod.Cleanse.Collapse.{include_line_pattern}
use dyod.Files.Modules.{files_belong_to_same_module}
use dyod.IncludeWhatYouUse.{
  Requirements, IncludeDict, insert, has, set_default, add_include, update_lines,
  update_include_state, flat_dict, own_name, try_header, header_loop, bare, missing_reports,
  report_missing, require_lines, check_for_include_what_you_use,
}
use dyod.IncludeWhatYouUse.Required.{needs, insert_needs, require_lines-needs}

abbrev named : Text → Option (ℕ × Cursor) → Bool
named key none = false
named key (some (start, m)) = text_eq key (group_text 2 m)

-- whether one of the lines includes a header
pub mentions : Text → List Text → Bool
mentions key [] = false
mentions key (line ∷ lines) =
    named key (search include_line_pattern (cleanse_comments line)) || mentions key lines

has-append : (key : Text) (xs ys : IncludeDict) → has key (xs ++ ys) ≡ (has key xs || has key ys)
unfolding has
has-append key [] ys = refl
has-append key ((k, v) ∷ xs) ys = ground (arith, has-append key xs ys)

has-single : (key k : Text) (v : ℕ) → has key ((k, v) ∷ []) ≡ text_eq key k
unfolding has
has-single key k v = ground arith

-- a key that is there is found under any equal text
or_there :
    (key k : Text) (m : IncludeDict) → has k m ≡ true → has key m ≡ (has key m || text_eq key k)
or_there key k m there = elim (Bool-cases (text_eq key k)) [
  | inl same ↦ rw (same, ap (λ t. has t m) ((text_eq_iff key k).0 same), there) refl
  | inr other ↦ rw other (ground arith)
]

has-set_default :
    (key k : Text) (v : ℕ) (m : IncludeDict)
    → has key (set_default k v m) ≡ (has key m || text_eq key k)
unfolding set_default
has-set_default key k v m = elim (Bool-cases (has k m)) [
  | inl there ↦ rw there (or_there key k m there)
  | inr missing ↦
      rw missing (has-append key m ((k, v) ∷ []) ∙ ap (λ b. has key m || b) (has-single key k v))
]

has-add_include :
    (key : Text) (found : Option (ℕ × Cursor)) (linenum : ℕ) (dict : IncludeDict)
    → has key (add_include found linenum dict) ≡ (has key dict || named key found)
has-add_include key none linenum dict = ground arith
has-add_include key (some (start, m)) linenum dict =
    has-set_default key (group_text 2 m) linenum dict

or_assoc : (a b c : Bool) → ((a || b) || c) ≡ (a || (b || c))
or_assoc a b c = ground arith

has-update_lines :
    (key : Text) (linenum : ℕ) (lines : List Text) (dict : IncludeDict)
    → has key (update_lines linenum lines dict) ≡ (has key dict || mentions key lines)
unfolding update_lines mentions
has-update_lines key linenum [] dict = ground arith
has-update_lines key linenum (line ∷ lines) dict =
    let found = search include_line_pattern (cleanse_comments line) in
    has-update_lines key (suc linenum) lines (add_include found linenum dict)
    ∙ ap (λ b. b || mentions key lines) (has-add_include key found linenum dict)
    ∙ or_assoc (has key dict) (named key found) (mentions key lines)

or_false : (a : Bool) → a ≡ (a || false)
or_false a = ground arith

any-append :
    (p : List Text → Bool) (xs ys : List (List Text)) → any p (xs ++ ys) ≡ (any p xs || any p ys)
any-append p [] ys = refl
any-append p (x ∷ xs) ys = ground (arith, any-append p xs ys)

-- A step adds what the headers that it opens mention.
abbrev Adds : List (List Text) → IncludeDict × Bool → IncludeDict × Bool → Type 0
Adds headers (dict, found) (dict', found') =
    ((key : Text) → has key dict' ≡ (has key dict || any (mentions key) headers))
    × (found' ≡ (found || not (is_empty headers)))

abbrev opened_lines : Option (List Text) → List (List Text)
opened_lines none = []
opened_lines (some lines) = lines ∷ []

update_include_state-Adds :
    (read : Option (List Text)) (dict : IncludeDict) (found : Bool)
    → Adds
        (opened_lines read)
        (dict, found)
        ((update_include_state read dict).0, (update_include_state read dict).1 || found)
unfolding update_include_state
update_include_state-Adds none dict found = ((λ key. or_false (has key dict)), or_false found)
update_include_state-Adds (some lines) dict found = (
  (λ key.
      has-update_lines key 1 lines dict
      ∙ ap (λ b. has key dict || b) (or_false (mentions key lines))),
  ground arith,
)

found_append :
    (f : Bool) (xs ys : List (List Text))
    → ((f || not (is_empty xs)) || not (is_empty ys)) ≡ (f || not (is_empty (xs ++ ys)))
found_append f [] ys = ground arith
found_append f (x ∷ xs) ys = ground arith

Adds-append :
    (xs ys : List (List Text)) (a b c : IncludeDict × Bool)
    → Adds xs a b
    → Adds ys b c
    → Adds (xs ++ ys) a c
Adds-append xs ys (d, f) (d', f') (d'', f'') (h, e) (h', e') = (
  (λ key.
      h' key
      ∙ ap (λ b. b || any (mentions key) ys) (h key)
      ∙ or_assoc (has key d) (any (mentions key) xs) (any (mentions key) ys)
      ∙ ap (λ b. has key d || b) (sym (any-append (mentions key) xs ys))),
  e' ∙ ap (λ b. b || not (is_empty ys)) e ∙ found_append f xs ys,
)

module _ (read_lines : Text → Option (List Text)) (repository abs_filename : Text) where
  -- the lines of a header, if it belongs to the module of the file and can be opened
  abbrev opened : Text → Bool × Text → List (List Text)
  opened header (false, common_path) = []
  opened header (true, common_path) = opened_lines (read_lines (common_path ++ header))

  -- the headers of the module that can be opened, out of those of a dict
  pub own_headers : IncludeDict → List (List Text)
  own_headers [] = []
  own_headers ((header, linenum) ∷ keys) =
      opened header (files_belong_to_same_module repository abs_filename header) ++ own_headers keys

  try_header-Adds :
      (header : Text) (same : Bool × Text) (state : IncludeDict × Bool)
      → Adds
          (opened header same)
          state
          (try_header read_lines repository abs_filename header same state)
  try_header-Adds header (false, common_path) (dict, found) =
      ((λ key. or_false (has key dict)), or_false found)
  try_header-Adds header (true, common_path) (dict, found) =
      update_include_state-Adds (read_lines (common_path ++ header)) dict found

  header_loop-Adds :
      (keys : IncludeDict) (state : IncludeDict × Bool)
      → Adds (own_headers keys) state (header_loop read_lines repository abs_filename keys state)
  unfolding header_loop own_headers
  header_loop-Adds [] (dict, found) = ((λ key. or_false (has key dict)), or_false found)
  header_loop-Adds ((header, linenum) ∷ keys) state =
      let same = files_belong_to_same_module repository abs_filename header in
      let next = try_header read_lines repository abs_filename header same state in
      Adds-append (opened header same) (own_headers keys) state next
        (header_loop read_lines repository abs_filename keys next)
        (try_header-Adds header same state) (header_loop-Adds keys next)

-- what holds of the keys of a list
abbrev keys_all : (Text → Bool) → Requirements → Bool
keys_all p = all (λ r. p r.0)

keys_all-insert :
    (p : Text → Bool) (k : Text) (v : ℕ × Text) (m : Requirements)
    → keys_all p (insert k v m) ≡ (p k && keys_all p m)
unfolding insert
keys_all-insert p k v [] = refl
keys_all-insert p k v ((j, w) ∷ m) = elim (Bool-cases (text_eq k j)) [
  | inl same ↦ rw (same, (text_eq_iff k j).0 same) (ground arith)
  | inr other ↦ rw (other, keys_all-insert p k v m) (ground arith)
]

keys_all-insert_needs :
    (p : Text → Bool) (ns m : Requirements)
    → keys_all p (insert_needs ns m) ≡ (keys_all p ns && keys_all p m)
unfolding insert_needs
keys_all-insert_needs p [] m = refl
keys_all-insert_needs p ((k, v) ∷ ns) m =
    rw (keys_all-insert_needs p ns (insert k v m), keys_all-insert p k v m) (ground arith)

keys_all-cong :
    (p q : Text → Bool) (m : Requirements) → ((h : Text) → p h ≡ q h) → keys_all p m ≡ keys_all q m
keys_all-cong p q [] e = refl
keys_all-cong p q ((k, v) ∷ m) e =
    ap (λ b. b && keys_all p m) (e k) ∙ ap (λ b. q k && b) (keys_all-cong p q m e)

missing_reports-empty :
    (filename : Text) (dict : IncludeDict) (required : Requirements)
    → is_empty (missing_reports filename dict required) ≡ keys_all (λ h. has (bare h) dict) required
unfolding missing_reports
missing_reports-empty filename dict [] = refl
missing_reports-empty filename dict ((h, (linenum, template)) ∷ required) =
    elim (Bool-cases (has (bare h) dict)) [
      | inl there ↦ rw there (missing_reports-empty filename dict required)
      | inr missing ↦ rw missing refl
    ]

report_missing-empty :
    (filename : Text) (required : Requirements) (state : IncludeDict × Bool)
    → is_empty (report_missing filename required state) ≡ (
        is_suffix (codes ".cc") filename && not state.1
        || keys_all (λ h. has (bare h) state.0) required)
unfolding report_missing
report_missing-empty filename required (dict, found) =
    elim (Bool-cases (is_suffix (codes ".cc") filename && not found)) [
      | inl gives_up ↦ rw gives_up refl
      | inr on ↦ rw on (missing_reports-empty filename dict required)
    ]

not_found : (b c : Bool) → b ≡ (false || not c) → not b ≡ c
not_found b c e = rw e (not_not c)
  where
    not_not : (c : Bool) → not (not c) ≡ c
    not_not true = refl
    not_not false = refl

and_true : (a : Bool) → (a && true) ≡ a
and_true a = ground arith

keys_all-require_lines :
    (p q : Text → Bool) (elided : List Text)
    → ((h : Text) → p h ≡ q h)
    → keys_all p (require_lines 0 elided []) ≡ keys_all q (needs 0 elided)
keys_all-require_lines p q elided e =
    ap (keys_all p) (require_lines-needs 0 elided [])
    ∙ keys_all-insert_needs p (needs 0 elided) []
    ∙ and_true (keys_all p (needs 0 elided))
    ∙ keys_all-cong p q (needs 0 elided) e

-- `CheckForIncludeWhatYouUse` reports nothing exactly if the name of the file ends with `.cc` and
-- none of the headers that it includes is one of its module that can be opened, or if every header
-- that a line of the file needs is included by the file or by a line of such a header.
pub check_for_include_what_you_use-empty :
    (read_lines : Text → Option (List Text)) (repository full_name filename : Text)
    (elided : List Text) (include_list : List (List (Text × ℕ)))
    → let dict = flat_dict include_list [] in
      let headers = own_headers read_lines repository (own_name full_name) dict in
      is_empty (
        check_for_include_what_you_use read_lines repository full_name filename elided include_list)
      ≡ (is_suffix (codes ".cc") filename && is_empty headers
          || all
              (λ need. has (bare need.0) dict || any (mentions (bare need.0)) headers)
              (needs 0 elided))
unfolding check_for_include_what_you_use
check_for_include_what_you_use-empty read_lines repository full_name filename elided include_list =
    let dict = flat_dict include_list [] in
    let headers = own_headers read_lines repository (own_name full_name) dict in
    let state = header_loop read_lines repository (own_name full_name) dict (dict, false) in
    let (known, found) =
      header_loop-Adds read_lines repository (own_name full_name) dict (dict, false) in
    report_missing-empty filename (require_lines 0 elided []) state
    ∙ ap
        (λ b.
          is_suffix (codes ".cc") filename && b
          || keys_all (λ h. has (bare h) state.0) (require_lines 0 elided []))
        (not_found state.1 (is_empty headers) found)
    ∙ ap (λ b. is_suffix (codes ".cc") filename && is_empty headers || b)
        (keys_all-require_lines (λ h. has (bare h) state.0)
          (λ h. has (bare h) dict || any (mentions (bare h)) headers) elided (λ h. known (bare h)))
