-- ===== src/Index.antt =====
-- internal/index/index.go: the index of the packages that the proxy can verify. A `*PackageInfo` is
-- a value with a number that tells it from every other; Go's comparison of pointers is that of these
-- numbers. The lock of the index is held for the whole of each operation.
pub mod Urls
pub mod Packages
pub mod Sources
pub mod Load
pub mod Members
pub mod Rounds
pub mod Forget
pub mod Indexed
pub mod Growth
pub mod Adding
pub mod Reading
pub mod Stanzas
pub mod Runs
pub mod Calls
pub mod Counting
pub mod Limit
pub mod Refines
mod Examples
use debswarm.Prelude.{
  ℕ, ◌+◌, ◌==◌, Option, none, some, Bool, true, false, not, ◌||◌, List, [], ◌∷◌, ◌++◌,
  if◌then◌else◌, select, length, GoString, str_eq,
}
use debswarm.Prelude.Int.{ℤ, pos}
use debswarm.Prelude.Assoc.{Map, lookup, insert, delete}
use debswarm.Prelude.Strings.{base_name, cut_suffix}
use debswarm.Index.Urls.{index_file_key}

pub record PackageInfo : Type 0 where
  pub id : ℕ
  pub name : GoString
  pub version : GoString
  pub architecture : GoString
  pub filename : GoString
  pub size : ℤ
  pub sha256 : GoString
  pub repo : GoString

-- `next` is the number of the next package that is made.
pub record Index : Type 0 where
  pub next : ℕ
  pub packages : Map PackageInfo
  pub by_repo : Map (Map PackageInfo)
  pub by_basename : Map (List PackageInfo)
  pub by_index_file : Map (List PackageInfo)

unfoldable pub new_index : Index
new_index = record { next = 0; packages = []; by_repo = []; by_basename = []; by_index_file = [] }

-- The maps of `Clear` are new, and so are the packages made after it.
unfoldable pub clear_index : Index → Index
clear_index idx = record idx { packages = []; by_repo = []; by_basename = []; by_index_file = [] }

-- A missing key reads as an empty list, or as an empty map.
abbrev pub or_empty {ℓ} : {A : Type ℓ} → Option (List A) → List A
or_empty none = []
or_empty (some xs) = xs

abbrev pub new_package : ℕ → PackageInfo
new_package id = record {
  id = id;
  name = [];
  version = [];
  architecture = [];
  filename = [];
  size = pos 0;
  sha256 = [];
  repo = [];
}

-- A package enters the maps; without a file name it has no path.
unfoldable pub add_package : PackageInfo → Index → Index
add_package p idx = elim p.filename [
  | [] ↦ record idx { packages = insert p.sha256 p idx.packages }
  | a ∷ s ↦ record idx {
    packages = insert p.sha256 p idx.packages;
    by_repo = insert p.repo (insert (a ∷ s) p (or_empty (lookup p.repo idx.by_repo))) idx.by_repo;
    by_basename =
        insert (base_name (a ∷ s)) (or_empty (lookup (base_name (a ∷ s)) idx.by_basename) ++ p ∷ [])
          idx.by_basename;
  }
]

abbrev pub is_among : List PackageInfo → PackageInfo → Bool
is_among [] p = false
is_among (q ∷ qs) p = q.id == p.id || is_among qs p

-- An entry of a map is deleted if it is still this package.
unfoldable pub delete_own : GoString → PackageInfo → Map PackageInfo → Map PackageInfo
delete_own k p m = elim (lookup k m) [
  | none ↦ m
  | some cur ↦ if cur.id == p.id then delete k m else m
]

-- The rounds of `clearIndexFileLocked`, on each of the three maps.
unfoldable pub forget_hash : PackageInfo → Map PackageInfo → Map PackageInfo
unfolding delete_own
forget_hash p m = delete_own p.sha256 p m

unfoldable pub forget_path : PackageInfo → Map (Map PackageInfo) → Map (Map PackageInfo)
unfolding delete_own
forget_path p m = elim (lookup p.repo m) [
  | none ↦ m
  | some paths ↦ elim (delete_own p.filename p paths) [
    | [] ↦ delete p.repo m
    | e ∷ es ↦ insert p.repo (e ∷ es) m
  ]
]

unfoldable pub keep_basename :
    (PackageInfo → Bool) → GoString → Map (List PackageInfo) → Map (List PackageInfo)
keep_basename is_kept filename m = elim filename [
  | [] ↦ m
  | a ∷ s ↦ elim (or_empty (lookup (base_name (a ∷ s)) m)) [
    | [] ↦ m
    | q ∷ qs ↦ elim (select is_kept (q ∷ qs)) [
      | [] ↦ delete (base_name (a ∷ s)) m
      | r ∷ rs ↦ insert (base_name (a ∷ s)) (r ∷ rs) m
    ]
  ]
]

unfoldable pub forget : List PackageInfo → List PackageInfo → Index → Index
unfolding forget_hash forget_path keep_basename
forget old [] idx = idx
forget old (p ∷ ps) idx = forget old ps (record idx {
  packages = forget_hash p idx.packages;
  by_repo = forget_path p idx.by_repo;
  by_basename = keep_basename (λ q. not (is_among old q)) p.filename idx.by_basename;
})

unfoldable pub clear_index_file : GoString → Index → Index
unfolding forget
clear_index_file key idx = elim (or_empty (lookup key idx.by_index_file)) [
  | [] ↦ idx
  | p ∷ ps ↦
      let idx' = forget (p ∷ ps) (p ∷ ps) idx in
      record idx' { by_index_file = delete key idx'.by_index_file }
]

-- `ClearRepo`, which no part of the program calls.
unfoldable pub forget_repo : GoString → Map PackageInfo → Index → Index
unfolding forget_hash keep_basename
forget_repo repo [] idx = idx
forget_repo repo ((path, p) ∷ ps) idx = forget_repo repo ps (record idx {
  packages = forget_hash p idx.packages;
  by_basename = keep_basename (λ q. not (str_eq q.repo repo)) p.filename idx.by_basename;
})

unfoldable pub keep_files : GoString → Map (List PackageInfo) → Map (List PackageInfo)
keep_files repo [] = []
keep_files repo ((key, gen) ∷ m) =
    let rest = keep_files repo m in
    elim (select (λ q. not (str_eq q.repo repo)) gen) [ [] ↦ rest | p ∷ ps ↦ (key, p ∷ ps) ∷ rest ]

unfoldable pub clear_repo : GoString → Index → Index
unfolding forget_repo keep_files
clear_repo repo idx =
    let idx' = forget_repo repo (or_empty (lookup repo idx.by_repo)) idx in
    record idx' {
      by_repo = delete repo idx'.by_repo;
      by_index_file = keep_files repo idx'.by_index_file;
    }

unfoldable pub has_index_file : GoString → Index → Bool
has_index_file url idx = elim (or_empty (lookup (index_file_key url) idx.by_index_file)) [
  | [] ↦ false
  | p ∷ ps ↦ true
]

unfoldable pub get_by_sha256 : GoString → Index → Option PackageInfo
get_by_sha256 h idx = lookup h idx.packages

unfoldable pub get_by_repo_and_path : GoString → GoString → Index → Option PackageInfo
get_by_repo_and_path repo path idx = lookup path (or_empty (lookup repo idx.by_repo))

-- The first repository with the path. Go's order of a map is open; here it is the list's.
unfoldable pub search_path : GoString → Map (Map PackageInfo) → Option PackageInfo
search_path path [] = none
search_path path ((repo, paths) ∷ m) = elim (lookup path paths) [
  | some p ↦ some p
  | none ↦ search_path path m
]

abbrev pub first {ℓ} : {A : Type ℓ} → List A → Option A
first [] = none
first (x ∷ xs) = some x

unfoldable pub get_by_path : GoString → Index → Option PackageInfo
unfolding search_path
get_by_path path idx = elim (search_path path idx.by_repo) [
  | some p ↦ some p
  | none ↦ first (or_empty (lookup (base_name path) idx.by_basename))
]

unfoldable pub prefer : GoString → List PackageInfo → Option PackageInfo
prefer repo [] = none
prefer repo (p ∷ ps) = elim (str_eq p.repo repo) [ true ↦ some p | false ↦ prefer repo ps ]

unfoldable pub get_by_basename : GoString → GoString → Index → Option PackageInfo
unfolding prefer
get_by_basename base repo idx =
    let ps = or_empty (lookup base idx.by_basename) in
    elim repo [
      | [] ↦ first ps
      | a ∷ s ↦ elim (prefer (a ∷ s) ps) [ some p ↦ some p | none ↦ first ps ]
    ]

unfoldable pub count_packages : Index → ℕ
count_packages idx = length idx.packages
