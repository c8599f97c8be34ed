-- ===== src/Tests/Driver.antt =====
-- A whole file.
use dyod.Prelude.{Bool, false, Option, none, some, List, [], ◌∷◌, Text, codes}
use dyod.Driver.{OtherChecks, Surroundings}

abbrev no_other_checks : OtherChecks
no_other_checks = record {
  check_style = λ filename c linenum s sup. (sup, []);
  check_language = λ filename c linenum s. [];
  check_rest = λ filename c linenum s. [];
  flag_cxx11_features = λ c linenum. [];
}

abbrev here : Surroundings
here = record {
  repository = codes "p/a.cc";
  header_repository = codes "p/a.h";
  guard_repository = codes "p/a.cc";
  full_name = codes "/p/a.cc";
  exists = λ path. false;
  read_lines = λ path. none;
  root = none;
  verbosity = 1;
  same_object = λ a b. false;
}

abbrev some_file : List Text
some_file =
    codes "// Copyright"
    ∷ codes "#include <map>"
    ∷ codes "#include <algorithm>  // NOLINT"
    ∷ codes "int f() {"
    ∷ codes "  return 0;"
    ∷ codes "}"
    ∷ codes ""
    ∷ []

abbrev some_path : Text → Text
some_path path = path

abbrev no_config : Text → Bool
no_config path = false

abbrev no_lines : Text → Option (List Text)
no_lines path = none

abbrev no_pattern : Text → Text → Option Bool
no_pattern pattern name = none

abbrev some_text : Text → Option Text
some_text path = some (codes "// Copyright\nint f() {\n")
