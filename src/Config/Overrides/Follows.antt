-- ===== src/Config/Overrides/Follows.antt =====
-- An option, a line and a file of `ProcessConfigOverrides` do what the lines say.
use dyod.Prelude.{
  Bool, true, false, not, ◌&&◌, ◌||◌, Option, none, some, List, [], ◌∷◌, ◌++◌, ◌≡◌, refl, sym, ◌∙◌,
  arith, Text, codes, before, text_eq, text_eq_iff, ℤ, Bool-cases, inl, inr, subst,
}
use mathlib.Core.List.{append_assoc, append-nil}
use dyod.Config.{parse_int}
use dyod.Config.Overrides.{
  Walk, Step, go, excluded, bad_pattern, write, option_of, is_blank, config_option, config_line,
  config_lines, set_line_length, exclude, next_step,
}
use dyod.Config.Overrides.Says.{
  Sayings, nothing, join, option_says, line_says, says, last_number, last_root,
}

-- a walk that has followed what lines say
pub record Follows (w : Walk) (s : Sayings) (w' : Walk) : Type 0 where
  pub line_length : w'.settings.line_length ≡ last_number s.lengths w.settings.line_length
  pub root : w'.settings.root ≡ last_root s.roots w.settings.root
  pub filters : w'.cfg_filters ≡ w.cfg_filters ++ s.filters
  pub keep : w'.keep_looking ≡ (w.keep_looking && not s.noparent)
  pub state : w'.settings.state ≡ w.settings.state
  pub extensions : w'.settings.valid_extensions ≡ w.settings.valid_extensions

last_number-append :
    (xs ys : List Text) (n : ℤ) → last_number (xs ++ ys) n ≡ last_number ys (last_number xs n)
last_number-append [] ys n = refl
last_number-append (x ∷ xs) ys n = last_number-append xs ys _

last_root-append :
    (xs ys : List Text) (r : Option Text) → last_root (xs ++ ys) r ≡ last_root ys (last_root xs r)
last_root-append [] ys r = refl
last_root-append (x ∷ xs) ys r = last_root-append xs ys _

and_not_or : (a b c : Bool) → ((a && not b) && not c) ≡ (a && not (b || c))
and_not_or a b c = ground arith

pub Follows-nothing : (w : Walk) → Follows w nothing w
Follows-nothing w = record {
  line_length = refl;
  root = refl;
  filters = sym (append-nil w.cfg_filters);
  keep = ground arith;
  state = refl;
  extensions = refl;
}

pub Follows-write : (t : Text) (w : Walk) → Follows w nothing (write t w)
Follows-write t w = record {
  line_length = refl;
  root = refl;
  filters = sym (append-nil w.cfg_filters);
  keep = ground arith;
  state = refl;
  extensions = refl;
}

pub Follows-join :
    (a b : Sayings) {u v w : Walk} → Follows u a v → Follows v b w → Follows u (join a b) w
Follows-join a b {u} {v} {w} f g = record {
  line_length =
      g.line_length
      ∙ rw f.line_length (sym (last_number-append a.lengths b.lengths u.settings.line_length));
  root = g.root ∙ rw f.root (sym (last_root-append a.roots b.roots u.settings.root));
  filters = g.filters ∙ rw f.filters (append_assoc u.cfg_filters a.filters b.filters);
  keep = g.keep ∙ rw f.keep (and_not_or u.keep_looking a.noparent b.noparent);
  state = g.state ∙ f.state;
  extensions = g.extensions ∙ f.extensions;
}

-- the ends of a step
pub data Sound (w : Walk) (s : Sayings) : Step → Type 0 where
  went : (w' : Walk) → Follows w s w' → Sound w s (go w')
  left_out :
      (w' : Walk)
      → w'.settings.state ≡ w.settings.state
      → w'.settings.valid_extensions ≡ w.settings.valid_extensions
      → Sound w s (excluded w')
  raised : (p : Text) → Sound w s (bad_pattern p)

set_line_length-Follows :
    (val : Text) (w : Walk) (n : Option ℤ)
    → parse_int val ≡ n
    → Follows w (option_says (codes "linelength", val)) (set_line_length n w)
unfolding set_line_length text_eq
set_line_length-Follows val w none e = record {
  line_length = rw (e, last_number);
  root = refl;
  filters = sym (append-nil w.cfg_filters);
  keep = ground arith;
  state = refl;
  extensions = refl;
}
set_line_length-Follows val w (some n) e = record {
  line_length = rw (e, last_number);
  root = refl;
  filters = sym (append-nil w.cfg_filters);
  keep = ground arith;
  state = refl;
  extensions = refl;
}

pub Sound-join :
    (w : Walk) (a b : Sayings) {v : Walk} {step : Step}
    → Follows w a v
    → Sound v b step
    → Sound w (join a b) step
Sound-join w a b f (went u g) = went u (Follows-join a b f g)
Sound-join w a b f (left_out u e e') = left_out u (e ∙ f.state) (e' ∙ f.extensions)
Sound-join w a b f (raised p) = raised p

next_step-Sound :
    (a b : Sayings) (next : Walk → Step) (w : Walk) {step : Step}
    → ((v : Walk) → Sound v b (next v))
    → Sound w a step
    → Sound w (join a b) (next_step next step)
next_step-Sound a b next w h (went v f) = Sound-join w a b f (h v)
next_step-Sound a b next w h (left_out v e e') = left_out v e e'
next_step-Sound a b next w h (raised p) = raised p

module _ (excludes : Text → Text → Option Bool) (filename cfg_file base_name : Text) where
  exclude-Sound :
      (r : Option Bool) (val message : Text) (w : Walk)
      → Sound w (option_says (codes "exclude_files", val)) (exclude r val message w)
  unfolding exclude text_eq
  exclude-Sound none val message w = raised val
  exclude-Sound (some false) val message w = went w (Follows-nothing w)
  exclude-Sound (some true) val message w = left_out _ refl refl

  abbrev SoundAt : Text → Walk → Text → Type 0
  SoundAt val w name =
      Sound w (option_says (name, val))
        (config_option excludes filename cfg_file base_name (name, val) w)

  noparent-SoundAt : (val : Text) (w : Walk) → SoundAt val w (codes "set noparent")
  unfolding config_option
  noparent-SoundAt val w = went _ (record {
    line_length = refl;
    root = refl;
    filters = sym (append-nil w.cfg_filters);
    keep = ground arith;
    state = refl;
    extensions = refl;
  })

  filter-SoundAt : (val : Text) (w : Walk) → SoundAt val w (codes "filter")
  unfolding config_option
  filter-SoundAt val w = went _ (record {
    line_length = refl;
    root = refl;
    filters = refl;
    keep = ground arith;
    state = refl;
    extensions = refl;
  })

  root-SoundAt : (val : Text) (w : Walk) → SoundAt val w (codes "root")
  unfolding config_option
  root-SoundAt val w = went _ (record {
    line_length = refl;
    root = refl;
    filters = sym (append-nil w.cfg_filters);
    keep = ground arith;
    state = refl;
    extensions = refl;
  })

  exclude-SoundAt : (val : Text) (w : Walk) → SoundAt val w (codes "exclude_files")
  unfolding config_option
  exclude-SoundAt val w = exclude-Sound (excludes val base_name) val _ w

  line_length-SoundAt : (val : Text) (w : Walk) → SoundAt val w (codes "linelength")
  unfolding config_option
  line_length-SoundAt val w = went _ (set_line_length-Follows val w (parse_int val) refl)

  -- Where a text is a certain one, it is enough to look at that one.
  at_text : (P : Text → Type 0) (name key : Text) → text_eq name key ≡ true → P key → P name
  at_text P name key e p = subst P (sym ((text_eq_iff name key).0 e)) p

  -- an option with another name
  other-SoundAt :
      (val : Text) (w : Walk) (name : Text)
      → text_eq name (codes "set noparent") ≡ false
      → text_eq name (codes "filter") ≡ false
      → text_eq name (codes "exclude_files") ≡ false
      → text_eq name (codes "linelength") ≡ false
      → text_eq name (codes "root") ≡ false
      → SoundAt val w name
  unfolding config_option
  other-SoundAt val w name e1 e2 e3 e4 e5 = rw (e1, e2, e3, e4, e5) (went _ (Follows-write _ w))

  config_option-SoundAt : (name val : Text) (w : Walk) → SoundAt val w name
  config_option-SoundAt name val w = elim (Bool-cases (text_eq name (codes "set noparent"))) [
    | inl e ↦ at_text (SoundAt val w) name _ e (noparent-SoundAt val w)
    | inr e1 ↦ elim (Bool-cases (text_eq name (codes "filter"))) [
      | inl e ↦ at_text (SoundAt val w) name _ e (filter-SoundAt val w)
      | inr e2 ↦ elim (Bool-cases (text_eq name (codes "exclude_files"))) [
        | inl e ↦ at_text (SoundAt val w) name _ e (exclude-SoundAt val w)
        | inr e3 ↦ elim (Bool-cases (text_eq name (codes "linelength"))) [
          | inl e ↦ at_text (SoundAt val w) name _ e (line_length-SoundAt val w)
          | inr e4 ↦ elim (Bool-cases (text_eq name (codes "root"))) [
            | inl e ↦ at_text (SoundAt val w) name _ e (root-SoundAt val w)
            | inr e5 ↦ other-SoundAt val w name e1 e2 e3 e4 e5
          ]
        ]
      ]
    ]
  ]

  config_line-Sound :
      (line : Text) (w : Walk)
      → Sound w (line_says line) (config_line excludes filename cfg_file base_name line w)
  unfolding config_line
  config_line-Sound line w = elim (Bool-cases (is_blank line)) [
    | inl e ↦ rw e (went w (Follows-nothing w))
    | inr e ↦
        rw e (
          config_option-SoundAt (option_of (before b'#' line)).0 (option_of (before b'#' line)).1 w)
  ]

  pub config_lines-Sound :
      (lines : List Text) (w : Walk)
      → Sound w (says lines) (config_lines excludes filename cfg_file base_name lines w)
  unfolding config_lines says
  config_lines-Sound [] w = went w (Follows-nothing w)
  config_lines-Sound (line ∷ lines) w =
      next_step-Sound (line_says line) (says lines) _ w (config_lines-Sound lines)
        (config_line-Sound line w)
