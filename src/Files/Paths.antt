-- ===== src/Files/Paths.antt =====
-- The functions of Python's `os.path` that cpplint.py calls, for POSIX paths.
use dyod.Prelude.{
  ℕ, ◌-◌, Bool, false, not, ◌&&◌, ◌||◌, List, [], ◌∷◌, ◌++◌, Text, codes, length, drop, take, all,
  is_empty, is_prefix, is_suffix, drop_while, rstrip, split, text_eq, ◌==◌, if◌then◌else◌,
}
use mathlib.Core.List.{reverse}

abbrev is_slash : ℕ → Bool
is_slash c = c == b'/'

abbrev not_slash : ℕ → Bool
not_slash c = not (c == b'/')

abbrev not_dot : ℕ → Bool
not_dot c = not (c == b'.')

-- what goes up to the last slash
unfoldable pub path_head : Text → Text
path_head p = reverse (drop_while not_slash (reverse p))

-- `dirname(p)`, which is the first part of `split(p)`: the slashes at its end are cut off, unless
-- there is nothing else.
unfoldable pub dirname : Text → Text
dirname p = let head = path_head p in if all is_slash head then head else rstrip is_slash head

abbrev pub split_path : Text → Text × Text
split_path p = (dirname p, drop (length (path_head p)) p)

-- what goes up to the last dot of a name
abbrev dotted : Text → Text
dotted name = reverse (drop_while not_dot (reverse name))

-- `splitext(name)` of a name without slashes: the dots that it begins with do not count.
unfoldable pub splitext : Text → Text × Text
splitext name =
    let width = length (dotted name) - 1 in
    if all (λ c. c == b'.') (take width name)
    then (name, [])
    else (take width name, drop width name)

-- `join(a, b)` for a relative path `b`
abbrev pub join_path : Text → Text → Text
join_path a b = if is_empty a || is_suffix (codes "/") a then a ++ b else a ++ codes "/" ++ b

-- `commonprefix([a, b])`
unfoldable pub common_prefix : Text → Text → Text
common_prefix [] b = []
common_prefix (x ∷ a) [] = []
common_prefix (x ∷ a) (y ∷ b) = if x == y then x ∷ common_prefix a b else []

abbrev top_is_up : List Text → Bool
top_is_up [] = false
top_is_up (c ∷ cs) = text_eq c (codes "..")

-- the loop of `normpath`; the components that are kept stand in reverse order
unfoldable pub normal_components : Bool → List Text → List Text → List Text
normal_components rooted kept [] = reverse kept
normal_components rooted kept (c ∷ cs) =
    let skipped = normal_components rooted kept cs in
    let added = normal_components rooted (c ∷ kept) cs in
    let popped = normal_components rooted (drop 1 kept) cs in
    if is_empty c || text_eq c (codes ".")
    then skipped
    else if not (text_eq c (codes "..")) || not rooted && is_empty kept || top_is_up kept
    then added
    else popped

abbrev join_components : List Text → Text
join_components [] = []
join_components (c ∷ []) = c
join_components (c ∷ d ∷ cs) = c ++ codes "/" ++ join_components (d ∷ cs)

abbrev initial_slashes : Text → Text
initial_slashes p =
    if is_prefix (codes "//") p && not (is_prefix (codes "///") p)
    then codes "//"
    else if is_prefix (codes "/") p
    then codes "/"
    else []

-- `normpath(p)`
unfoldable pub normpath : Text → Text
normpath p =
    let normal =
      initial_slashes p
      ++ join_components (normal_components (is_prefix (codes "/") p) [] (split b'/' p)) in
    if is_empty normal then codes "." else normal
