-- ===== src/Index/Sources.antt =====
-- internal/index/sources.go: `parseSourcesForRepo`, the parser of Sources files.
use debswarm.Prelude.{
  ℕ, ◌+◌, none, some, Bool, true, false, not, ◌&&◌, ◌||◌, List, [], ◌∷◌, ◌++◌, ◌==◌, leb,
  if◌then◌else◌, length, GoString, codes, str_eq,
}
use debswarm.Prelude.Int.{ℤ}
use debswarm.Prelude.Strings.{cut, split, trim_space, fields, to_lower, trim_right_byte}
use debswarm.Release.{parse_int}
use debswarm.Index.{PackageInfo, Index, new_package, add_package, clear_index_file}
use debswarm.Index.Packages.{
  max_packages_per_repo, max_line, scan_parts, open_repo, record_generation,
}

abbrev pub is_hex_byte : ℕ → Bool
is_hex_byte c =
    (leb b'0' c && leb c b'9') || ((leb b'a' c && leb c b'f') || (leb b'A' c && leb c b'F'))

abbrev pub all_hex : GoString → Bool
all_hex [] = true
all_hex (c ∷ s) = is_hex_byte c && all_hex s

unfoldable pub is_hex64 : GoString → Bool
is_hex64 s = length s == 64 && all_hex s

pub record FileEntry : Type 0 where
  pub sha256 : GoString
  pub size : ℤ
  pub name : GoString

-- The variables of the loop, with the index.
pub record Stanza : Type 0 where
  pub index : Index
  pub generation : List PackageInfo
  pub count : ℕ
  pub src_name : GoString
  pub directory : GoString
  pub files : List FileEntry
  pub in_checksums : Bool

unfoldable pub add_file : GoString → FileEntry → Stanza → Stanza
add_file repo fe c =
    let p = record (new_package c.index.next) {
      name = c.src_name;
      filename = c.directory ++ b'/' ∷ fe.name;
      size = fe.size;
      sha256 = fe.sha256;
      repo = repo;
    } in
    record c {
      index = add_package p (record (c.index) { next = c.index.next + 1 });
      generation = c.generation ++ p ∷ [];
      count = c.count + 1;
    }

abbrev pub is_nameless : FileEntry → Bool
is_nameless fe = elim fe.sha256 [ [] ↦ true | a ∷ s ↦ elim fe.name [ [] ↦ true | b ∷ t ↦ false ] ]

-- The loop of `emit` over the files, and whether it has hit the limit.
unfoldable pub emit_files : ℕ → GoString → List FileEntry → Stanza → Stanza × Bool
unfolding add_file
emit_files limit repo [] c = (c, false)
emit_files limit repo (fe ∷ files) c = elim (is_nameless fe) [
  | true ↦ emit_files limit repo files c
  | false ↦ elim (leb limit (add_file repo fe c).count) [
    | true ↦ (add_file repo fe c, true)
    | false ↦ emit_files limit repo files (add_file repo fe c)
  ]
]

abbrev pub reset_stanza : Stanza → Stanza
reset_stanza c = record c { src_name = []; directory = []; files = []; in_checksums = false }

unfoldable pub emit : ℕ → GoString → Stanza → Stanza × Bool
unfolding emit_files
emit limit repo c = elim c.directory [
  | [] ↦ (reset_stanza c, false)
  | a ∷ s ↦ let (c', full) = emit_files limit repo c.files c in (reset_stanza c', full)
]

abbrev pub file_entry : List GoString → List FileEntry
file_entry (h ∷ size ∷ name ∷ more) =
    if is_hex64 h
    then record { sha256 = to_lower h; size = parse_int size; name = name } ∷ []
    else []
file_entry _ = []

unfoldable pub set_source_field : GoString → GoString → Stanza → Stanza
set_source_field field value c =
    if str_eq field (codes "Package")
    then record c { src_name = value }
    else if str_eq field (codes "Directory")
    then record c { directory = trim_right_byte b'/' value }
    else if str_eq field (codes "Checksums-Sha256")
    then record c { in_checksums = true }
    else c

unfoldable pub read_source_line : ℕ → GoString → Stanza → Stanza
unfolding is_hex64 set_source_field
read_source_line a line c =
    if c.in_checksums && (a == 32 || a == 9)
    then record c { files = c.files ++ file_entry (fields (a ∷ line)) }
    else elim (cut (codes ":") (a ∷ line)) [
      | none ↦ record c { in_checksums = false }
      | some (field, value) ↦
          set_source_field field (trim_space value) (record c { in_checksums = false })
    ]

-- The loop over the lines, and whether it ended at the limit.
unfoldable pub read_source_lines : ℕ → GoString → List GoString → Stanza → Stanza × Bool
unfolding emit read_source_line
read_source_lines limit repo [] c = (c, false)
read_source_lines limit repo ((a ∷ line) ∷ lines) c =
    read_source_lines limit repo lines (read_source_line a line c)
read_source_lines limit repo ([] ∷ lines) c = elim ((emit limit repo c).1) [
  | true ↦ ((emit limit repo c).0, true)
  | false ↦ read_source_lines limit repo lines (emit limit repo c).0
]

abbrev pub emit_last : ℕ → GoString → Stanza × Bool → Stanza
emit_last limit repo (c, true) = c
emit_last limit repo (c, false) = (emit limit repo c).0

unfoldable pub load_source_lines : ℕ → GoString → GoString → List GoString → Index → Index × Bool
unfolding read_source_lines emit open_repo record_generation clear_index_file
load_source_lines limit repo key lines idx =
    let start : Stanza = record {
      index = open_repo repo (clear_index_file key idx);
      generation = [];
      count = 0;
      src_name = [];
      directory = [];
      files = [];
      in_checksums = false;
    } in
    let looped = read_source_lines limit repo lines start in
    let c = emit_last limit repo looped in (record_generation key c.generation c.index, looped.1)

-- `parseSourcesForRepo`, with an error as in `parse_for_repo`.
unfoldable pub parse_sources_for_repo : GoString → GoString → List ℕ → Bool → Index → Index × Bool
unfolding load_source_lines scan_parts
parse_sources_for_repo repo key body broken idx =
    let (lines, stuck) = scan_parts max_line (split 10 body) in
    let (idx', full) = load_source_lines max_packages_per_repo repo key lines idx in
    (idx', (stuck || broken) && not full)
