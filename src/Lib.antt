-- ===== src/Lib.antt =====
-- Verification library for cpplint.py, the style checker of the repository.
--
-- The program. cpplint.py reads a C++ file as a list of lines and runs checks on them. A run of
-- ProcessFileData goes as follows. The suppressions of the last file are forgotten and those of this
-- one collected (NOLINT comments). Comments over several lines are replaced, and CleansedLines makes
-- four lists of the lines: the raw ones, those without raw strings, those without comments and those
-- without strings, the `elided` lines. Then ProcessLine runs the checks line by line. Three objects
-- keep the state of the file between lines: NestingState (the stack of classes, namespaces and other
-- blocks, and the conditionals), _IncludeState (the headers included, and their order) and
-- _FunctionState (the length of the function at hand). The checks look for matching brackets with
-- CloseExpression and ReverseCloseExpression. What a check finds goes to Error, which asks the
-- suppressions, the verbosity and the filters of _CppLintState whether to print it, and counts it.
-- Around this, main reads the command line with ParseArguments and calls ProcessFile for each file,
-- which asks the configuration files in the directories above it (ProcessConfigOverrides), reads the
-- file and puts the filters back.
--
-- The files. Each component has a file with its definitions and a folder with its theorems; the
-- functions keep the names of cpplint.py in lower case with underscores.
--
--   Prelude        texts as lists of code points with the methods of `str`, lists, Boolean tests and
--                  integers over the native numbers. No code of cpplint.py.
--   Regex          the part of `re` that is used: patterns as data and a backtracking matcher, with
--                  Match, Search and ReplaceAll as `match`, `search` and `sub`. Regex/Laws, Regex/Every
--                  and Regex/Weight are about what a match leaves of a text, Regex/Scan and
--                  Regex/Token about patterns that look for a character.
--   Report         the arguments of `error`, and decimal printing.
--   Nolint         ParseNolintSuppressions, ProcessGlobalSuppresions, ResetNolintSuppressions,
--                  IsErrorSuppressedByNolint. The global _error_suppressions and
--                  _global_error_suppressions are the fields of Suppressions.
--   LintState      _CppLintState, _ShouldPrintError and Error.
--   Brackets       FindEndOfExpressionInLine, CloseExpression, FindStartOfExpressionInLine and
--                  ReverseCloseExpression. A position -1 is `none`. Brackets/Balance, Brackets/Reverse,
--                  Brackets/Range, Brackets/Forward and Brackets/Inside hold the theorems.
--   Cleanse        CleansedLines, with CleanseRawStrings, FindNextMultiLineCommentStart,
--                  FindNextMultiLineCommentEnd, RemoveMultiLineCommentsFromRange,
--                  RemoveMultiLineComments, IsCppString, CleanseComments and _CollapseStrings in the
--                  files below it.
--   IncludeState   _IncludeState; in IncludeState/Line also _CPP_HEADERS, _DropCommonSuffixes,
--                  _ClassifyInclude and CheckIncludeLine, and in IncludeState/Own
--                  CheckHeaderFileIncluded.
--   FunctionState  _FunctionState, and CheckForFunctionLengths in FunctionState/Lines.
--   Nesting        _BlockInfo, _ExternCInfo, _ClassInfo, _NamespaceInfo, _PreprocessorInfo and
--                  NestingState. Nesting/Blocks has the constructors and CheckBegin and CheckEnd,
--                  Nesting/Preprocessor UpdatePreprocessor, Nesting/Template InTemplateArgumentList,
--                  Nesting/Braces the two loops of Update, Nesting/Update the rest of it, and
--                  Nesting/Indentation CheckForNamespaceIndentation.
--   Files          FileInfo and _IsSourceExtension, over the functions of `os.path` in Files/Paths,
--                  and FilesBelongToSameModule in Files/Modules.
--   FileChecks     CheckForCopyright, CheckForBadCharacters, CheckForNewlineAtEOF,
--                  CheckForMultilineCommentsAndStrings, IsBlankLine and GetPreviousNonBlankLine, with
--                  the lines that ProcessFileData puts around a file.
--   HeaderGuard    GetHeaderGuardCPPVariable and CheckForHeaderGuard.
--   IncludeWhatYouUse  UpdateIncludeState and CheckForIncludeWhatYouUse, with the tables of headers and
--                  templates in IncludeWhatYouUse/Headers.
--   TextInside     _GetTextInside.
--   CheckMacros    FindCheckMacro and CheckCheck, with _CHECK_REPLACEMENT; its loop over the operands is
--                  in CheckMacros/Expression.
--   TrailingSemicolon  CheckTrailingSemicolon.
--   FileData       the preparation of the lines of a file and the walk of NestingState over them, by
--                  themselves.
--   Driver         ProcessLine and ProcessFileData, with the suppressions and the three objects as one
--                  state; Driver/Finish puts them below ProcessFile.
--   Config         ParseArguments in Config/Arguments, with the getopt of Python's library,
--                  ProcessConfigOverrides in Config/Overrides, and ProcessFile and main in Config/Run.
--   Tests          runs on small inputs, and the theorems at concrete data.
--
-- All of it but Prelude and Tests is code of cpplint.py at the root of the repository.
--
-- How the code is represented. An object with methods is a record, and a method that changes it is a
-- function from the old record to the new one, with the reports beside it. A call of `error` is a
-- Report in the list that a function returns; Error itself is modelled in LintState. An index out of
-- range, which raises in Python, is `none`. Numbers are natural, as no number of the code gets below
-- zero but the verbosity, the length of a line, the number of open parentheses and the depth of braces
-- in a class, which are integers, and the position -1, which is `none`; the driver takes a natural
-- verbosity. A line number that is -1 in Python, the one before the first line,
-- is written out where the code can come to it. `previous_stack_top` of NestingState is the object
-- itself in Python; here it is the value that the object had.
--
-- Loops and fuel. Loops over lists and characters are structural recursion. Those whose rounds go on
-- with a part of a match run on fuel and return `none` when it is used up: the loops of
-- CleanseRawStrings and _CollapseStrings, the two loops of Update, that of InTemplateArgumentList and
-- that of CheckCheck. Their fuel is the length of the line, or the size of the lines, and one
-- more, because every round leaves less: a match holds no more in its groups and behind it than the
-- text has (Regex/Weight), and CloseExpression moves forward (Brackets/Forward). The loops of
-- RepositoryName run on two more than the length of the name; the one over the directories of a
-- Subversion checkout need not end in Python. The walk of ProcessConfigOverrides over the directories
-- has one more than the length of the path, as each directory is a shorter text. The iterations of a repeated pattern run on the length
-- of the text, as each consumes something.
--
-- Parameters. `os.path.abspath`, `os.path.exists` and `os.path.isfile`, the text of a file, the lines
-- of a configuration file and of a header, and whether an exclude_files pattern matches are arguments
-- of the definitions that use them, as is the identity of two blocks. The names that FileInfo gives a
-- file are arguments of the checks. The driver takes the checks on a line that it leaves open as the
-- functions of the record OtherChecks, and the decisions from outside of the file as the record
-- Surroundings.
--
-- Not modelled: the checks on the style of a line, which are patterns with a message for the most part:
-- CheckStyle, with CheckSpacing, CheckBraces, CheckEmptyBlockBody, CheckAltTokens, CheckSectionSpacing
-- and the others, and CheckLanguage behind the #include lines, with CheckCasts,
-- CheckForNonConstReference, FlagCxx11Features and the others. They enter the driver by OtherChecks, and
-- so do CheckCheck and CheckTrailingSemicolon, which CheckStyle calls. The end of a block on line 0,
-- the marker, has no model in CheckTrailingSemicolon. The usage text, the list of categories and all
-- input and output are left out. The programs of the repository in C++ (the Opossum database in src/)
-- have no model here.
pub mod Prelude
pub mod Regex
pub mod Report
pub mod Nolint
pub mod LintState
pub mod Brackets
pub mod IncludeState
pub mod FunctionState
pub mod Cleanse
pub mod Tests
pub mod Nesting
pub mod Config
pub mod Files
pub mod FileChecks
pub mod HeaderGuard
pub mod FileData
pub mod IncludeWhatYouUse
pub mod Driver
pub mod TextInside
pub mod TrailingSemicolon
pub mod CheckMacros
