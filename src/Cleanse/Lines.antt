-- ===== src/Cleanse/Lines.antt =====
-- The lists of a `CleansedLines` have the same length.
use dyod.Prelude.{ℕ, suc, Option, some, List, [], ◌∷◌, ◌≡◌, refl, ap, ◌∙◌, length, Text, map}
use dyod.Cleanse.{CleansedLines, cons_elided, elide, cleansed, cleansed_without, cleanse_lines}
use dyod.Cleanse.Comments.{cleanse_comments}
use dyod.Cleanse.Collapse.Laws.{collapse_strings_total}
use dyod.Cleanse.RawStrings.Laws.{cleanse_raw_strings_total}

pub record SameLength (c : CleansedLines) (n : ℕ) : Type 0 where
  pub elided : length c.elided ≡ n
  pub lines : length c.lines ≡ n
  pub raw : length c.raw_lines ≡ n
  pub number : c.num_lines ≡ n
  pub without : length c.lines_without_raw_strings ≡ n

length-map : (f : Text → Text) (xs : List Text) → length (map f xs) ≡ length xs
length-map f [] = refl
length-map f (x ∷ xs) = ap suc (length-map f xs)

cons_elided-length :
    (n : ℕ) (r : Option (List Text)) (line : Text)
    → (out : List Text) × (r ≡ some out) × (length out ≡ n)
    → (out : List Text) × (cons_elided (some line) r ≡ some out) × (length out ≡ suc n)
cons_elided-length n r line (out, e, l) =
    (cleanse_comments line ∷ out, ap (cons_elided (some line)) e, ap suc l)

elide_total :
    (lines : List Text) → (out : List Text) × (elide lines ≡ some out) × (length out ≡ length lines)
unfolding elide
elide_total [] = ([], refl, refl)
elide_total (line ∷ lines) =
    let (text, e, l) = collapse_strings_total line in
    let (out, f, k) = cons_elided-length (length lines) (elide lines) text (elide_total lines) in
    (out, ap (λ o. cons_elided o (elide lines)) e ∙ f, k)

-- A `CleansedLines` is built from every list of lines, and its four lists and its number of lines
-- agree with that list in length.
pub cleanse_lines_total :
    (raw : List Text)
    → (c : CleansedLines) × (cleanse_lines raw ≡ some c)
      × (c.raw_lines ≡ raw)
      × SameLength c (length raw)
unfolding cleanse_lines
cleanse_lines_total raw =
    let (without, e, l) = cleanse_raw_strings_total raw in
    let (out, f, k) = elide_total without in
    (
      record {
        elided = out;
        lines = map cleanse_comments without;
        raw_lines = raw;
        num_lines = length raw;
        lines_without_raw_strings = without;
      },
      ap (cleansed_without raw) e ∙ ap (cleansed raw without) f,
      refl,
      record {
        elided = k ∙ l;
        lines = length-map cleanse_comments without ∙ l;
        raw = refl;
        number = refl;
        without = l;
      },
    )
