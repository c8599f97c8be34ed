-- ===== src/Files/Repository.antt =====
-- The search for the top of a checkout: it ends, or not, and what it cuts off.
use dyod.Prelude.{
  ℕ, zero, suc, ◌≤◌, ◌<◌, Bool, true, false, not, Option, none, some, [], ◌∷◌, ◌++◌, ◌≡◌, refl, sym,
  ap, ◌∙◌, arith, Text, length, length-append, length-drop, is_empty, drop, take, take-append-drop,
  drop_while, rstrip, text_eq, text_eq_iff, all, if_both, if_cases, Bool-cases, inl, inr, ◌==◌,
  ==_iff,
}
use mathlib.Core.List.{reverse, reverse-append, reverse-reverse, append_assoc, append-nil}
use mathlib.Core.Bool.{false≢true}
use dyod.Files.Paths.{path_head, dirname, split_path}
use dyod.Files.{
  has_svn, has_checkout, svn_loop, checkout_loop, repository_name_of, repository_name, full_name,
}

-- `a` begins `p`
abbrev Begins : Text → Text → Type 0
Begins a p = (u : Text) × (a ++ u ≡ p)

drop_while-ends : (f : ℕ → Bool) (s : Text) → (t : Text) × (t ++ drop_while f s ≡ s)
unfolding drop_while
drop_while-ends f [] = ([], refl)
drop_while-ends f (c ∷ s) =
    let (t, e) = drop_while-ends f s in
    if_cases (λ r. (t' : Text) × (t' ++ r ≡ c ∷ s)) (f c) (λ h. (c ∷ t, ap (◌∷◌ c) e))
      (λ h. ([], refl))

strip-Begins : (f : ℕ → Bool) (p : Text) → Begins (reverse (drop_while f (reverse p))) p
strip-Begins f p =
    let (t, e) = drop_while-ends f (reverse p) in
    (
      reverse t,
      sym (reverse-append t (drop_while f (reverse p))) ∙ ap reverse e ∙ reverse-reverse p,
    )

Begins-trans : (a b c : Text) → Begins a b → Begins b c → Begins a c
Begins-trans a b c (u, e) (v, g) = (u ++ v, sym (append_assoc a u v) ∙ ap (λ x. x ++ v) e ∙ g)

dirname-Begins : (p : Text) → Begins (dirname p) p
unfolding dirname path_head rstrip
dirname-Begins p =
    if_both (λ d. Begins d p) (all (λ c. c == b'/') (path_head p)) (strip-Begins _ p)
      (Begins-trans _ (path_head p) p (strip-Begins _ (path_head p)) (strip-Begins _ p))

-- A path with a name behind its last slash is longer than its directory.
pub dirname-lt_name : (p : Text) → is_empty (split_path p).1 ≡ false → length (dirname p) < length p
unfolding dirname rstrip
dirname-lt_name p h = shorter (
    if_both (λ d. Begins d (path_head p)) (all (λ c. c == b'/') (path_head p))
      ([], append-nil (path_head p)) (strip-Begins _ (path_head p)))
  where
    some_left : (s : Text) → is_empty s ≡ false → 0 < length s
    some_left [] e = cc
    some_left (c ∷ s) e = omega arith

    shorter : Begins (dirname p) (path_head p) → length (dirname p) < length p
    shorter (u, g) = omega (
      arith,
      some_left (drop (length (path_head p)) p) h,
      length-drop {0} (length (path_head p)) p,
      length-append {0} (dirname p) u,
      ap (length {0}) g,
    )

Begins-length : (a p : Text) → Begins a p → length a ≡ length p → a ≡ p
Begins-length a p ([], e) h = sym (append-nil a) ∙ e
Begins-length a p (x ∷ u, e) h =
    absurd (omega (arith, length-append {0} a (x ∷ u), ap (length {0}) e))

-- A directory other than its own directory is longer than it.
dirname-lt : (p : Text) → text_eq p (dirname p) ≡ false → length (dirname p) < length p
dirname-lt p h = elim (Bool-cases (length (dirname p) == length p)) [
  | inl e ↦ absurd (
      false≢true (
        sym h
        ∙ (text_eq_iff p (dirname p)).1
            (sym (Begins-length (dirname p) p (dirname-Begins p) ((==_iff _ _).0 e)))))
  | inr e ↦ shorter e (dirname-Begins p)
]
  where
    shorter :
        (length (dirname p) == length p) ≡ false
        → Begins (dirname p) p
        → length (dirname p) < length p
    shorter e (u, g) = ground (arith, e, length-append {0} (dirname p) u, ap (length {0}) g)

dirname-le : (p : Text) → length (dirname p) ≤ length p
dirname-le p = shorter (dirname-Begins p)
  where
    shorter : Begins (dirname p) p → length (dirname p) ≤ length p
    shorter (u, g) = omega (arith, length-append {0} (dirname p) u, ap (length {0}) g)

module _ (exists : Text → Bool) where
  checkout_loop-some :
      (fuel : ℕ) (root_dir current_dir : Text)
      → length current_dir < fuel
      → (r : Text) × (checkout_loop exists fuel root_dir current_dir ≡ some r)
  unfolding checkout_loop
  checkout_loop-some zero root_dir current_dir lt = absurd (omega arith)
  checkout_loop-some (suc fuel) root_dir current_dir lt =
      if_cases (λ o. (r : Text) × (o ≡ some r)) (text_eq current_dir (dirname current_dir))
        (λ e. (root_dir, refl))
        (λ e.
          checkout_loop-some fuel _ (dirname current_dir) (omega (arith, dirname-lt current_dir e)))

  svn_loop-some :
      (fuel : ℕ) (root_dir one_up_dir : Text)
      → ((d : Text) → dirname d ≡ d → has_svn exists d ≡ false)
      → length one_up_dir < fuel
      → (r : Text) × (svn_loop exists fuel root_dir one_up_dir ≡ some r)
  unfolding svn_loop
  svn_loop-some zero root_dir one_up_dir top lt = absurd (omega arith)
  svn_loop-some (suc fuel) root_dir one_up_dir top lt =
      if_cases (λ o. (r : Text) × (o ≡ some r)) (has_svn exists one_up_dir)
        (λ e.
          svn_loop-some fuel (dirname root_dir) (dirname one_up_dir) top
            (omega (arith, dirname-lt one_up_dir (not_top e))))
        (λ e. (root_dir, refl))
    where
      not_top : has_svn exists one_up_dir ≡ true → text_eq one_up_dir (dirname one_up_dir) ≡ false
      not_top e = elim (Bool-cases (text_eq one_up_dir (dirname one_up_dir))) [
        | inl same ↦ absurd (
            false≢true (
              sym (top one_up_dir (sym ((text_eq_iff one_up_dir (dirname one_up_dir)).0 same)))
              ∙ e))
        | inr other ↦ other
      ]

  -- a name that the text ends with
  abbrev Names : Text → Option Text → Type 0
  Names full o = (name : Text) × (cut : Text) × (o ≡ some name) × (cut ++ name ≡ full)

  drop-Names : (full : Text) (n : ℕ) → Names full (some (drop n full))
  drop-Names full n = (drop n full, take n full, refl, take-append-drop n full)

  -- If no directory that is its own directory, such as `/`, has a `.svn`, then `RepositoryName`
  -- ends for every file, and its result is what is left of the full name behind a part cut off at
  -- its front.
  pub repository_name_total :
      (abspath : Text → Text) (filename : Text)
      → ((d : Text) → dirname d ≡ d → has_svn exists d ≡ false)
      → (name : Text) × (cut : Text) × (repository_name abspath exists filename ≡ some name)
        × (cut ++ name ≡ full_name abspath filename)
  unfolding repository_name_of
  repository_name_total abspath filename top =
      let full = full_name abspath filename in
      let dir = dirname full in
      let P = Names full in
      let fuel = suc (suc (length full)) in
      let (root, svn) =
        svn_loop-some fuel dir (dirname dir) top (omega (arith, dirname-le dir, dirname-le full)) in
      let (root', checkout) = checkout_loop-some fuel dir dir (omega (arith, dirname-le full)) in
      if_both P (not (exists full)) (full, [], refl, refl)
        (if_both P (has_svn exists dir) (rw svn (drop-Names full _)) (
          rw checkout (
            if_both (λ n. P (some n)) (has_checkout exists root') (drop-Names full _)
              (drop-Names full 0))))

  -- Once the search for the top of a Subversion checkout looks at a directory that has a `.svn` and
  -- is its own directory, such as `/`, it never ends.
  pub svn_loop-stuck :
      (fuel : ℕ) (root_dir one_up_dir : Text)
      → dirname one_up_dir ≡ one_up_dir
      → has_svn exists one_up_dir ≡ true
      → svn_loop exists fuel root_dir one_up_dir ≡ none
  unfolding svn_loop
  svn_loop-stuck zero root_dir one_up_dir top h = refl
  svn_loop-stuck (suc fuel) root_dir one_up_dir top h =
      rw (h, top) (svn_loop-stuck fuel (dirname root_dir) one_up_dir top h)
