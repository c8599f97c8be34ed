-- ===== src/Files.antt =====
-- cpplint.py: `FileInfo`, over the functions of `os.path` that it calls. The paths are POSIX ones.
-- What the file system and the working directory decide is a parameter: `abspath` stands for
-- `os.path.abspath`, and `exists` for `os.path.exists`.
pub mod Paths
pub mod Repository
pub mod Modules
use dyod.Prelude.{
  ℕ, zero, suc, ◌+◌, Bool, not, ◌||◌, Option, none, some, [], ◌∷◌, ◌++◌, map, Text, codes, length,
  drop, text_eq, text_mem, ◌==◌, if◌then◌else◌,
}
use Paths.{split_path, dirname, splitext, join_path, common_prefix}

-- `_IsSourceExtension`
abbrev pub is_source_extension : Text → Bool
is_source_extension s = text_mem s (codes "c" ∷ codes "cc" ∷ codes "cpp" ∷ codes "cxx" ∷ [])

abbrev slash_for_backslash : ℕ → ℕ
slash_for_backslash c = if c == b'\\' then b'/' else c

unfoldable pub full_name : (Text → Text) → Text → Text
full_name abspath filename = map slash_for_backslash (abspath filename)

module _ (exists : Text → Bool) where
  abbrev pub has_svn : Text → Bool
  has_svn dir = exists (join_path dir (codes ".svn"))

  abbrev pub has_checkout : Text → Bool
  has_checkout dir =
      exists (join_path dir (codes ".git")) || exists (join_path dir (codes ".hg")) || has_svn dir

  -- The loop over the directories of a Subversion checkout; `one_up_dir` is the directory around
  -- `root_dir`. On fuel, whose end is `none`: the loop need not end.
  unfoldable pub svn_loop : ℕ → Text → Text → Option Text
  svn_loop zero root_dir one_up_dir = none
  svn_loop (suc fuel) root_dir one_up_dir =
      let more = svn_loop fuel (dirname root_dir) (dirname one_up_dir) in
      if has_svn one_up_dir then more else some root_dir

  -- The loop over the directories up to the root, which is its own directory.
  unfoldable pub checkout_loop : ℕ → Text → Text → Option Text
  checkout_loop zero root_dir current_dir = none
  checkout_loop (suc fuel) root_dir current_dir =
      let more =
        checkout_loop fuel (if has_checkout current_dir then current_dir else root_dir)
          (dirname current_dir) in
      if text_eq current_dir (dirname current_dir) then some root_dir else more

  -- `fullname[len(prefix) + 1:]`
  abbrev pub below : Text → Text → Text → Text
  below fullname project_dir root_dir =
      drop (length (common_prefix root_dir project_dir) + 1) fullname

  abbrev pub below_svn : Text → Text → Option Text → Option Text
  below_svn fullname project_dir none = none
  below_svn fullname project_dir (some root_dir) = some (below fullname project_dir root_dir)

  abbrev pub below_checkout : Text → Text → Option Text → Option Text
  below_checkout fullname project_dir none = none
  below_checkout fullname project_dir (some root_dir) =
      some (if has_checkout root_dir then below fullname project_dir root_dir else fullname)

  -- `RepositoryName` of the file with the given full name; `none` is a loop that does not end
  -- within as many rounds as the name has characters, and two more.
  unfoldable pub repository_name_of : Text → Option Text
  repository_name_of fullname =
      let project_dir = dirname fullname in
      let fuel = suc (suc (length fullname)) in
      if not (exists fullname)
      then some fullname
      else if has_svn project_dir
      then below_svn fullname project_dir (svn_loop fuel project_dir (dirname project_dir))
      else below_checkout fullname project_dir (checkout_loop fuel project_dir project_dir)

abbrev pub repository_name : (Text → Text) → (Text → Bool) → Text → Option Text
repository_name abspath exists filename = repository_name_of exists (full_name abspath filename)

-- `Split` and what is built on it, from the repository name
unfoldable pub split_name : Text → Text × Text × Text
split_name googlename =
    let (project, rest) = split_path googlename in
    let (base, extension) = splitext rest in (project, base, extension)

abbrev pub base_name : Text → Text
base_name googlename = (split_name googlename).1

abbrev pub extension : Text → Text
extension googlename = (split_name googlename).2

abbrev pub no_extension : Text → Text
no_extension googlename =
    let (project, base, ext) = split_name googlename in project ++ codes "/" ++ base

abbrev pub is_source : Text → Bool
is_source googlename = is_source_extension (drop 1 (extension googlename))
