-- ===== src/Index/Packages.antt =====
-- internal/index/index.go: `parseForRepo`, the parser of Packages files. What is read is the bytes
-- up to the end of the file or to an error of the reader.
use debswarm.Prelude.{
  ℕ, ◌+◌, ◌-◌, ◌*◌, ◌^◌, Option, none, some, Bool, true, false, not, ◌&&◌, ◌||◌, List, [], ◌∷◌,
  ◌++◌, ◌==◌, ltb, leb, if◌then◌else◌, length, GoString, codes, str_eq,
}
use debswarm.Prelude.Int.{ℤ, pos, negsuc}
use debswarm.Prelude.Assoc.{lookup, insert}
use debswarm.Prelude.Strings.{cut, split, trim_space}
use debswarm.Release.{drop_cr, lines_of, number_of}
use debswarm.Index.{PackageInfo, Index, new_package, or_empty, add_package, clear_index_file}

abbrev pub max_packages_per_repo : ℕ
max_packages_per_repo = 500000

abbrev pub max_line : ℕ
max_line = 1024 * 1024

-- What a `bufio.Scanner` gives of the parts between newlines: the lines up to one that does not fit
-- into the buffer, and whether there is such a line.
unfoldable pub scan_parts : ℕ → List GoString → List GoString × Bool
scan_parts limit [] = ([], false)
scan_parts limit (l ∷ []) = if leb limit (length l) then ([], true) else (lines_of (l ∷ []), false)
scan_parts limit (l ∷ m ∷ ls) =
    let (lines, stuck) = scan_parts limit (m ∷ ls) in
    if leb limit (length l) then ([], true) else (drop_cr l ∷ lines, stuck)

-- `strconv.ParseInt(s, 10, 64)`
unfoldable pub parse_int64 : GoString → Option ℤ
parse_int64 [] = none
parse_int64 (a ∷ s) =
    if a == b'-'
    then elim (number_of s) [
      | none ↦ none
      | some n ↦
          if n == 0 then some (pos 0) else if leb n (2 ^ 63) then some (negsuc (n - 1)) else none
    ]
    else elim (number_of (if a == b'+' then s else a ∷ s)) [
      | none ↦ none
      | some n ↦ if ltb n (2 ^ 63) then some (pos n) else none
    ]

abbrev pub or_old : ℤ → Option ℤ → ℤ
or_old old none = old
or_old old (some n) = n

unfoldable pub set_package_field : GoString → GoString → PackageInfo → PackageInfo
unfolding parse_int64
set_package_field field value p =
    if str_eq field (codes "Package")
    then record p { name = value }
    else if str_eq field (codes "Version")
    then record p { version = value }
    else if str_eq field (codes "Architecture")
    then record p { architecture = value }
    else if str_eq field (codes "Filename")
    then record p { filename = value }
    else if str_eq field (codes "Size")
    then record p { size = or_old p.size (parse_int64 value) }
    else if str_eq field (codes "SHA256")
    then record p { sha256 = value }
    else p

unfoldable pub read_field : GoString → PackageInfo → PackageInfo
unfolding set_package_field
read_field line p = elim (cut (codes ":") line) [
  | none ↦ p
  | some (field, value) ↦ set_package_field field (trim_space value) p
]

-- The variables of the loop, with the index.
pub record Loading : Type 0 where
  pub index : Index
  pub generation : List PackageInfo
  pub current : Option PackageInfo
  pub count : ℕ

-- A package starts if none is there.
unfoldable pub start_package : Loading → Loading × PackageInfo
start_package c = elim c.current [
  | some p ↦ (c, p)
  | none ↦
      (record c { index = record (c.index) { next = c.index.next + 1 } }, new_package c.index.next)
]

unfoldable pub read_line : GoString → Loading → Loading
unfolding start_package read_field
read_line line c = let (c', p) = start_package c in record c' { current = some (read_field line p) }

-- A package with a hash enters the index and the generation. It is the same pointer where it does
-- so twice.
unfoldable pub finish_package : GoString → PackageInfo → Loading → Loading
finish_package repo p c = elim p.sha256 [
  | [] ↦ c
  | a ∷ s ↦
      let p' = record p { repo = repo } in
      record c {
        index = add_package p' c.index;
        generation = c.generation ++ p' ∷ [];
        current = some p';
        count = c.count + 1;
      }
]

-- The loop over the lines. At the limit it ends, and the package stays the current one.
unfoldable pub read_lines : ℕ → GoString → List GoString → Loading → Loading
unfolding read_line finish_package
read_lines limit repo [] c = c
read_lines limit repo ((a ∷ line) ∷ lines) c = read_lines limit repo lines (read_line (a ∷ line) c)
read_lines limit repo ([] ∷ lines) c = elim c.current [
  | none ↦ read_lines limit repo lines c
  | some p ↦
      elim (ltb c.count (finish_package repo p c).count
        && leb limit (finish_package repo p c).count) [
          | true ↦ finish_package repo p c
          | false ↦
              read_lines limit repo lines (record (finish_package repo p c) { current = none })
        ]
]

abbrev pub finish_last : GoString → Loading → Loading
finish_last repo c = elim c.current [ none ↦ c | some p ↦ finish_package repo p c ]

-- The repository has a map of its own from here on, be it empty.
unfoldable pub open_repo : GoString → Index → Index
open_repo repo idx = record idx {
  by_repo = insert repo (or_empty (lookup repo idx.by_repo)) idx.by_repo;
}

unfoldable pub record_generation : GoString → List PackageInfo → Index → Index
record_generation key gen idx = elim gen [
  | [] ↦ idx
  | p ∷ ps ↦ record idx { by_index_file = insert key (p ∷ ps) idx.by_index_file }
]

-- The index with the lines loaded, and whether the loop ended at the limit.
unfoldable pub load_lines : ℕ → GoString → GoString → List GoString → Index → Index × Bool
unfolding read_lines open_repo record_generation clear_index_file
load_lines limit repo key lines idx =
    let start : Loading = record {
      index = open_repo repo (clear_index_file key idx);
      generation = [];
      current = none;
      count = 0;
    } in
    let looped = read_lines limit repo lines start in
    let c = finish_last repo looped in
    (record_generation key c.generation c.index, leb limit looped.count)

-- `parseForRepo`, of a body whose reader ends with an error if `broken`. The result is whether it
-- returns an error: what stands behind the limit is not read.
unfoldable pub parse_for_repo : GoString → GoString → List ℕ → Bool → Index → Index × Bool
unfolding load_lines scan_parts
parse_for_repo repo key body broken idx =
    let (lines, stuck) = scan_parts max_line (split 10 body) in
    let (idx', full) = load_lines max_packages_per_repo repo key lines idx in
    (idx', (stuck || broken) && not full)
