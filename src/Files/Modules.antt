-- ===== src/Files/Modules.antt =====
-- cpplint.py: `FilesBelongToSameModule`. The file is known by its `RepositoryName` too.
pub mod Prefix
use dyod.Prelude.{
  ℕ, ◌-◌, Bool, true, false, Option, none, some, [], ◌∷◌, Text, codes, is_suffix, length, replace,
  take, ◌==◌, if◌then◌else◌,
}
use dyod.Regex.{Re, Cursor, alts, at_end, grp, group_text, lit, search, seqs}
use dyod.Files.{base_name, extension, is_source}

-- `_TEST_FILE_SUFFIX`: `(_test|_unittest|_regtest)$`
abbrev pub test_file_suffix : Re
test_file_suffix = seqs (
    grp 1 (alts (lit (codes "_test") ∷ lit (codes "_unittest") ∷ lit (codes "_regtest") ∷ []))
    ∷ at_end
    ∷ [])

-- `s[:-n]`
abbrev pub cut_end : ℕ → Text → Text
cut_end n s = if n == 0 then [] else take (length s - n) s

abbrev without_suffix : Text → Option (ℕ × Cursor) → Text
without_suffix filename none = filename
without_suffix filename (some (start, m)) = cut_end (length (group_text 1 m)) filename

abbrev without_dirs : Text → Text
without_dirs filename =
    replace (codes "/internal/") (codes "/") (replace (codes "/public/") (codes "/") filename)

-- the module of a source file; `none` is another file
unfoldable pub source_module : Text → Text → Option Text
source_module repository filename =
    if is_source repository
    then some (
        without_dirs (
          without_suffix (cut_end (length (extension repository)) filename)
            (search test_file_suffix (base_name repository))))
    else none

abbrev without_inl : Text → Text
without_inl filename = if is_suffix (codes "-inl") filename then cut_end 4 filename else filename

-- the module of a header; `none` is another file
unfoldable pub header_module : Text → Option Text
header_module filename =
    if is_suffix (codes ".h") filename
    then some (without_dirs (without_inl (cut_end 2 filename)))
    else none

abbrev pub same_module : Text → Text → Bool × Text
same_module source header =
    if is_suffix header source then (true, cut_end (length header) source) else (false, [])

abbrev pub same_modules : Option Text → Option Text → Bool × Text
same_modules none header = (false, [])
same_modules (some source) none = (false, [])
same_modules (some source) (some header) = same_module source header

unfoldable pub files_belong_to_same_module : Text → Text → Text → Bool × Text
files_belong_to_same_module repository filename_cc filename_h =
    same_modules (source_module repository filename_cc) (header_module filename_h)
