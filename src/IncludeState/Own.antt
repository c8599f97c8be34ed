-- ===== src/IncludeState/Own.antt =====
-- cpplint.py: `CheckHeaderFileIncluded`. The file and its header are known by their
-- `RepositoryName` too, and `exists` stands for `os.path.exists`.
pub mod Silent
use dyod.Prelude.{
  ℕ, ◌-◌, Bool, true, false, not, ◌||◌, Option, none, some, List, [], ◌∷◌, ◌++◌, Text, codes, find,
  length, take, ◌==◌, if◌then◌else◌,
}
use dyod.Regex.{finds}
use dyod.Report.{Report, report}
use dyod.Files.{base_name, extension}
use dyod.Files.Modules.{test_file_suffix}
use dyod.IncludeState.{IncludeState}

-- `p in s`
abbrev pub contains : Text → Text → Bool
contains p s = elim (find p s) [ some i ↦ true | none ↦ false ]

-- the name of the header that belongs to the file
abbrev pub own_header : Text → Text → Text
own_header repository filename =
    take (length filename - length (extension repository)) filename ++ codes ".h"

-- one of the names is part of the other
abbrev pub names_match : Text → Text × ℕ → Bool
names_match headername (f, n) = contains headername f || contains f headername

-- The loop over the headers of one list: the line of the first #include, or `none` where the header
-- has been found.
unfoldable pub own_in_section : Text → ℕ → List (Text × ℕ) → Option ℕ
own_in_section headername first_include [] = some first_include
own_in_section headername first_include (f ∷ fs) =
    let later = own_in_section headername (if first_include == 0 then f.1 else first_include) fs in
    if names_match headername f then none else later

abbrev pub then_section : (ℕ → Option ℕ) → Option ℕ → Option ℕ
then_section next none = none
then_section next (some first_include) = next first_include

-- the loop over the lists
unfoldable pub own_in_list : Text → ℕ → List (List (Text × ℕ)) → Option ℕ
own_in_list headername first_include [] = some first_include
own_in_list headername first_include (section_list ∷ rest) =
    then_section (λ n. own_in_list headername n rest)
      (own_in_section headername first_include section_list)

pub own_header_report : Text → Text → Text → ℕ → Report
own_header_report filename repository headername first_include =
    report filename first_include (codes "build/include") 5
      (repository ++ codes " should include its header file " ++ headername)

abbrev pub own_reports : Text → Text → Text → Option ℕ → List Report
own_reports filename repository headername none = []
own_reports filename repository headername (some first_include) =
    own_header_report filename repository headername first_include ∷ []

-- `headername` is the `RepositoryName` of the header.
unfoldable pub check_header_file_included :
    (Text → Bool) → Text → Text → Text → IncludeState → List Report
check_header_file_included exists filename repository headername s =
    if finds test_file_suffix (base_name repository)
    then []
    else if not (exists (own_header repository filename))
    then []
    else own_reports filename repository headername (own_in_list headername 0 s.include_list)
