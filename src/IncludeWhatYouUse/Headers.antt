-- ===== src/IncludeWhatYouUse/Headers.antt =====
-- cpplint.py: `_HEADERS_CONTAINING_TEMPLATES`, `_HEADERS_MAYBE_TEMPLATES` and the patterns that are
-- made of them. An entry of a list of patterns is the pattern, the name and the header.
use dyod.Prelude.{List, [], ◌∷◌, ◌++◌, Text, codes}
use dyod.Regex.{Re, alt, dot, grp, lazy_star, lit, none_of, opt, seqs, space, star, word_edge}

abbrev pub headers_containing_templates : List (Text × List Text)
headers_containing_templates =
    (codes "<deque>", codes "deque" ∷ [])
    ∷ (
      codes "<functional>",
      codes "unary_function"
          ∷ codes "binary_function"
          ∷ codes "plus"
          ∷ codes "minus"
          ∷ codes "multiplies"
          ∷ codes "divides"
          ∷ codes "modulus"
          ∷ codes "negate"
          ∷ codes "equal_to"
          ∷ codes "not_equal_to"
          ∷ codes "greater"
          ∷ codes "less"
          ∷ codes "greater_equal"
          ∷ codes "less_equal"
          ∷ codes "logical_and"
          ∷ codes "logical_or"
          ∷ codes "logical_not"
          ∷ codes "unary_negate"
          ∷ codes "not1"
          ∷ codes "binary_negate"
          ∷ codes "not2"
          ∷ codes "bind1st"
          ∷ codes "bind2nd"
          ∷ codes "pointer_to_unary_function"
          ∷ codes "pointer_to_binary_function"
          ∷ codes "ptr_fun"
          ∷ codes "mem_fun_t"
          ∷ codes "mem_fun"
          ∷ codes "mem_fun1_t"
          ∷ codes "mem_fun1_ref_t"
          ∷ codes "mem_fun_ref_t"
          ∷ codes "const_mem_fun_t"
          ∷ codes "const_mem_fun1_t"
          ∷ codes "const_mem_fun_ref_t"
          ∷ codes "const_mem_fun1_ref_t"
          ∷ codes "mem_fun_ref"
          ∷ [],
    )
    ∷ (codes "<limits>", codes "numeric_limits" ∷ [])
    ∷ (codes "<list>", codes "list" ∷ [])
    ∷ (codes "<map>", codes "map" ∷ codes "multimap" ∷ [])
    ∷ (
      codes "<memory>",
      codes "allocator"
          ∷ codes "make_shared"
          ∷ codes "make_unique"
          ∷ codes "shared_ptr"
          ∷ codes "unique_ptr"
          ∷ codes "weak_ptr"
          ∷ [],
    )
    ∷ (codes "<queue>", codes "queue" ∷ codes "priority_queue" ∷ [])
    ∷ (codes "<set>", codes "set" ∷ codes "multiset" ∷ [])
    ∷ (codes "<stack>", codes "stack" ∷ [])
    ∷ (codes "<string>", codes "char_traits" ∷ codes "basic_string" ∷ [])
    ∷ (codes "<tuple>", codes "tuple" ∷ [])
    ∷ (codes "<unordered_map>", codes "unordered_map" ∷ codes "unordered_multimap" ∷ [])
    ∷ (codes "<unordered_set>", codes "unordered_set" ∷ codes "unordered_multiset" ∷ [])
    ∷ (codes "<utility>", codes "pair" ∷ [])
    ∷ (codes "<vector>", codes "vector" ∷ [])
    ∷ (codes "<hash_map>", codes "hash_map" ∷ codes "hash_multimap" ∷ [])
    ∷ (codes "<hash_set>", codes "hash_set" ∷ codes "hash_multiset" ∷ [])
    ∷ (codes "<slist>", codes "slist" ∷ [])
    ∷ []

abbrev pub headers_maybe_templates : List (Text × List Text)
headers_maybe_templates =
    (
      codes "<algorithm>",
      codes "copy"
          ∷ codes "max"
          ∷ codes "min"
          ∷ codes "min_element"
          ∷ codes "sort"
          ∷ codes "transform"
          ∷ [],
    )
    ∷ (codes "<utility>", codes "forward" ∷ codes "make_pair" ∷ codes "move" ∷ codes "swap" ∷ [])
    ∷ []

-- `\bstring\b`
abbrev pub string_pattern : Re
string_pattern = seqs (word_edge ∷ lit (codes "string") ∷ word_edge ∷ [])

-- `[^>.]\bname(<.*?>)?\([^\)]`
abbrev pub maybe_template : Text → Re
maybe_template name = seqs (
    none_of (codes ">.")
    ∷ word_edge
    ∷ lit name
    ∷ opt (grp 1 (seqs (lit (codes "<") ∷ lazy_star dot ∷ lit (codes ">") ∷ [])))
    ∷ lit (codes "(")
    ∷ none_of (codes ")")
    ∷ [])

-- `(\<|\b)name\s*\<`
abbrev pub containing_template : Text → Re
containing_template name =
    seqs (grp 1 (alt (lit (codes "<")) word_edge) ∷ lit name ∷ star space ∷ lit (codes "<") ∷ [])

abbrev pub Entry : Type 0
Entry = Re × Text × Text

abbrev maybe_entries : Text → List Text → List Entry
maybe_entries header [] = []
maybe_entries header (t ∷ ts) = (maybe_template t, t, header) ∷ maybe_entries header ts

abbrev containing_entries : Text → List Text → List Entry
containing_entries header [] = []
containing_entries header (t ∷ ts) =
    (containing_template t, t ++ codes "<>", header) ∷ containing_entries header ts

abbrev flatten : (Text → List Text → List Entry) → List (Text × List Text) → List Entry
flatten entries [] = []
flatten entries ((header, ts) ∷ rest) = entries header ts ++ flatten entries rest

-- `_re_pattern_headers_maybe_templates` and `_re_pattern_templates`
unfoldable pub patterns_maybe_templates : List Entry
patterns_maybe_templates = flatten maybe_entries headers_maybe_templates

unfoldable pub patterns_templates : List Entry
patterns_templates = flatten containing_entries headers_containing_templates
