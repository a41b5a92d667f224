-- ===== src/Cache/DebFilename.antt =====
-- internal/cache/parser.go: the name, version and architecture in the name of a .deb file.
pub mod Parts
use debswarm.Prelude.{
  Option, none, some, Bool, true, false, not, ◌||◌, List, [], ◌∷◌, ◌++◌, if◌then◌else◌, length,
  GoString, codes, str_eq,
}
use debswarm.Prelude.Strings.{to_lower, split, take, cut_suffix, base_name}

pub record DebName : Type 0 where
  pub name : GoString
  pub version : GoString
  pub arch : GoString

abbrev pub no_name : DebName
no_name = record { name = []; version = []; arch = [] }

-- The parts from the right: the architecture, the version, and the rest, which is the name.
unfoldable pub of_parts : List GoString → Option DebName
of_parts [] = none
of_parts (a ∷ []) = none
of_parts (a ∷ b ∷ []) = none
of_parts (a ∷ b ∷ c ∷ []) = some (record { name = a; version = b; arch = c })
of_parts (a ∷ b ∷ c ∷ d ∷ rest) = elim (of_parts (b ∷ c ∷ d ∷ rest)) [
  | none ↦ none
  | some n ↦ some (record n { name = a ++ b'_' ∷ n.name })
]

abbrev pub is_empty : GoString → Bool
is_empty [] = true
is_empty (a ∷ s) = false

abbrev pub is_whole : DebName → Bool
is_whole n = not (is_empty n.name || is_empty n.version || is_empty n.arch)

-- The name, or none where the source gives empty strings and false.
unfoldable pub parse : GoString → Option DebName
parse filename =
    let base = base_name filename in
    elim (cut_suffix (codes ".deb") (to_lower base)) [
      | none ↦ none
      | some stem ↦ elim (of_parts (split b'_' (take (length stem) base))) [
        | none ↦ none
        | some n ↦ if is_whole n then some n else none
      ]
    ]

-- `ParseDebFilename`, as its callers read it that ignore the Boolean.
unfoldable pub parse_deb_filename : GoString → DebName
unfolding parse
parse_deb_filename filename = elim (parse filename) [ none ↦ no_name | some n ↦ n ]
