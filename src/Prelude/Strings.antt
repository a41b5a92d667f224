-- ===== src/Prelude/Strings.antt =====
-- The functions of Go's `strings` and `path/filepath` on byte strings that the source uses. Case is
-- that of ASCII, which is all that hashes, host names and file names of repositories have.
pub mod Laws
use Prim.Native.Nat.{ℕ, zero, suc, ◌+◌}
use mathlib.Core.Bool.{Bool, true, false, ◌&&◌, ◌||◌}
use mathlib.Core.List.{List, [], ◌∷◌, ◌++◌, map}
use mathlib.Core.Option.{Option, none, some}
use debswarm.Prelude.Tests.{leb, ◌==◌, if◌then◌else◌}
use debswarm.Prelude.Text.{GoString, str_eq, codes}

abbrev pub lower_byte : ℕ → ℕ
lower_byte c = if leb b'A' c && leb c b'Z' then c + 32 else c

-- `ToLower`
unfoldable pub to_lower : GoString → GoString
to_lower = map lower_byte

-- `s[n:]`
abbrev pub drop : ℕ → GoString → GoString
drop zero s = s
drop (suc n) [] = []
drop (suc n) (a ∷ s) = drop n s

-- `s[:n]`
abbrev pub take : ℕ → GoString → GoString
take zero s = []
take (suc n) [] = []
take (suc n) (a ∷ s) = a ∷ take n s

-- `CutPrefix`: what stands behind the prefix.
unfoldable pub cut_prefix : GoString → GoString → Option GoString
cut_prefix [] s = some s
cut_prefix (a ∷ p) [] = none
cut_prefix (a ∷ p) (b ∷ s) = let rest = cut_prefix p s in if a == b then rest else none

-- `Cut` at the first place where the separator stands: what is before it and behind it.
unfoldable pub cut : GoString → GoString → Option (GoString × GoString)
unfolding cut_prefix
cut sep [] = elim (cut_prefix sep []) [ none ↦ none | some after ↦ some ([], after) ]
cut sep (a ∷ s) = elim (cut_prefix sep (a ∷ s)) [
  | some after ↦ some ([], after)
  | none ↦ elim (cut sep s) [ none ↦ none | some (before, after) ↦ some (a ∷ before, after) ]
]

abbrev pub contains : GoString → GoString → Bool
contains sep s = elim (cut sep s) [ none ↦ false | some parts ↦ true ]

-- `CutSuffix`: what stands before the suffix.
unfoldable pub cut_suffix : GoString → GoString → Option GoString
cut_suffix p [] = if str_eq p [] then some [] else none
cut_suffix p (a ∷ s) =
    let rest = cut_suffix p s in
    if str_eq p (a ∷ s)
    then some []
    else elim rest [ none ↦ none | some before ↦ some (a ∷ before) ]

unfoldable pub has_byte : ℕ → GoString → Bool
has_byte c [] = false
has_byte c (a ∷ s) = a == c || has_byte c s

-- `Split` at a byte.
abbrev pub grow_first : ℕ → List GoString → List GoString
grow_first a [] = (a ∷ []) ∷ []
grow_first a (p ∷ ps) = (a ∷ p) ∷ ps

unfoldable pub split : ℕ → GoString → List GoString
split c [] = [] ∷ []
split c (a ∷ s) = let rest = split c s in if a == c then [] ∷ rest else grow_first a rest

-- `Join` with a byte.
unfoldable pub join : ℕ → List GoString → GoString
join c [] = []
join c (p ∷ []) = p
join c (p ∷ q ∷ ps) = p ++ c ∷ join c (q ∷ ps)

-- What stands behind the last byte c, or all of it.
unfoldable pub after_last : ℕ → GoString → GoString
unfolding has_byte
after_last c [] = []
after_last c (a ∷ s) =
    let later = after_last c s in if has_byte c s then later else if a == c then s else a ∷ s

unfoldable pub trim_right_byte : ℕ → GoString → GoString
trim_right_byte c [] = []
trim_right_byte c (a ∷ s) =
    let rest = trim_right_byte c s in
    elim rest [ [] ↦ if a == c then [] else a ∷ [] | b ∷ t ↦ a ∷ b ∷ t ]

-- `filepath.Base` with slashes.
unfoldable pub base_name : GoString → GoString
unfolding after_last trim_right_byte
base_name [] = codes "."
base_name (a ∷ s) = elim (after_last b'/' (trim_right_byte b'/' (a ∷ s))) [
  | [] ↦ codes "/"
  | b ∷ t ↦ b ∷ t
]

-- White space in ASCII.
abbrev pub is_space : ℕ → Bool
is_space c = c == 32 || leb 9 c && leb c 13

-- `Fields`: the words between white space.
unfoldable pub fields : GoString → List GoString
fields [] = []
fields (a ∷ s) =
    let rest = fields s in
    if is_space a then rest else elim s [
      | [] ↦ (a ∷ []) ∷ []
      | b ∷ t ↦ if is_space b then (a ∷ []) ∷ rest else grow_first a rest
    ]

abbrev pub trim_left : GoString → GoString
trim_left [] = []
trim_left (a ∷ s) = let rest = trim_left s in if is_space a then rest else a ∷ s

abbrev pub trim_right : GoString → GoString
trim_right [] = []
trim_right (a ∷ s) = elim (trim_right s) [
  | [] ↦ if is_space a then [] else a ∷ []
  | b ∷ t ↦ a ∷ b ∷ t
]

-- `TrimSpace`
unfoldable pub trim_space : GoString → GoString
trim_space s = trim_right (trim_left s)

-- `TrimPrefix`
abbrev pub trim_prefix : GoString → GoString → GoString
trim_prefix p s = elim (cut_prefix p s) [ none ↦ s | some rest ↦ rest ]
