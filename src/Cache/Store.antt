-- ===== src/Cache/Store.antt =====
-- internal/cache/cache.go: storing, evicting and deleting packages.
use debswarm.Prelude.{
  ℕ, ◌+◌, ◌-◌, ◌*◌, Option, none, some, Bool, true, false, not, ◌&&◌, List, [], ◌∷◌, ltb, leb,
  if◌then◌else◌, length, GoString, str_eq,
}
use debswarm.Prelude.Assoc.{Map, lookup, insert, delete}
use debswarm.Cache.State.{
  Row, Error, hash_mismatch, insufficient_disk_space, cache_full, file_in_use, write_failed,
  remove_failed, move_failed, Cache, System, readers_of,
}
use debswarm.Cache.Access.{flush_access}
use debswarm.Cache.DebFilename.{DebName, parse_deb_filename}

-- `deleteUnlocked`. No hint is -1: the size is looked up. The file goes first, then the row.
unfoldable pub delete_unlocked : System → GoString → Option ℕ → Cache → Cache × Option Error
delete_unlocked s h hint c =
    let size : ℕ = elim hint [
      | some n ↦ n
      | none ↦ elim (lookup h c.rows) [ none ↦ 0 | some r ↦ r.size ]
    ] in
    if ltb 0 (readers_of h c)
    then (c, some file_in_use)
    else if s.locked h
    then (c, some remove_failed)
    else (
      record c {
        files = delete h c.files;
        rows = delete h c.rows;
        current_size = c.current_size - size;
      },
      none,
    )

unfoldable pub delete_package : System → GoString → Cache → Cache × Option Error
unfolding delete_unlocked
delete_package s h c = delete_unlocked s h none c

-- A candidate of the eviction: its hash and row.
abbrev pub Candidate : Type 0
Candidate = GoString × Row

abbrev pub week : ℕ
week = 7 * 24 * 60 * 60

-- `WHERE last_accessed < now - week AND pinned = 0`
abbrev pub is_candidate : ℕ → Row → Bool
is_candidate now r = ltb (r.last_accessed + week) now && not r.pinned

abbrev pub score : Row → ℕ
score r = r.last_accessed + r.access_count * 86400

-- `ORDER BY` the score. The order of equal scores is open in SQLite; here the table's.
unfoldable pub insert_by_score : Candidate → List Candidate → List Candidate
insert_by_score (h, r) [] = (h, r) ∷ []
insert_by_score (h, r) ((j, q) ∷ rest) =
    let later = insert_by_score (h, r) rest in
    if ltb (score q) (score r) then (j, q) ∷ later else (h, r) ∷ (j, q) ∷ rest

unfoldable pub candidates : ℕ → Map Row → List Candidate
unfolding insert_by_score
candidates now [] = []
candidates now ((h, r) ∷ rows) =
    let rest = candidates now rows in
    if is_candidate now r then insert_by_score (h, r) rest else rest

-- The loop over the candidates.
unfoldable pub evict : System → ℕ → List Candidate → Cache → Cache
unfolding delete_unlocked
evict s needed [] c = c
evict s needed ((h, r) ∷ rest) c = elim (leb (c.current_size + needed) c.max_size) [
  | true ↦ c
  | false ↦ elim ((delete_unlocked s h (some r.size) c).1) [
    | some e ↦ evict s needed rest c
    | none ↦
        let c' = (delete_unlocked s h (some r.size) c).0 in
        evict s needed rest (record c' { evictions = c'.evictions + 1 })
  ]
]

-- The disk has room for the new file above the free space that is kept.
abbrev pub disk_has_room : System → ℕ → Cache → Bool
disk_has_room s needed c =
    if ltb 0 c.min_free_space
    then elim s.disk_free [ none ↦ true | some free ↦ leb (c.min_free_space + needed) free ]
    else true

unfoldable pub ensure_space : System → ℕ → Cache → Cache × Option Error
unfolding flush_access evict candidates
ensure_space s needed c =
    let c' = flush_access c in
    let c'' = evict s needed (candidates s.now c'.rows) c' in
    if not (disk_has_room s needed c')
    then (c', some insufficient_disk_space)
    else if leb (c'.current_size + needed) c'.max_size
    then (c', none)
    else if leb (c''.current_size + needed) c''.max_size
    then (c'', none)
    else (c'', some cache_full)

abbrev pub or_keep : GoString → GoString → GoString
or_keep new old = elim new [ [] ↦ old | a ∷ s ↦ a ∷ s ]

-- `INSERT ... ON CONFLICT DO UPDATE`
unfoldable pub upsert : ℕ → ℕ → GoString → DebName → Option Row → Row
upsert now size filename name none = record {
  size = size;
  filename = filename;
  added_at = now;
  last_accessed = now;
  access_count = 1;
  announced = 0;
  package_name = name.name;
  package_version = name.version;
  architecture = name.arch;
  pinned = false;
}
upsert now size filename name (some r) = record r {
  size = size;
  filename = filename;
  last_accessed = now;
  access_count = r.access_count + 1;
  package_name = or_keep name.name r.package_name;
  package_version = or_keep name.version r.package_version;
  architecture = or_keep name.arch r.architecture;
}

-- The move into place: a file that is there already is kept, and the new one is consumed.
unfoldable pub install : System → GoString → List ℕ → Map (List ℕ) → Option (Map (List ℕ))
install s h bytes files = elim (lookup h files) [
  | some there ↦ some files
  | none ↦ if s.can_move then some (insert h bytes files) else none
]

-- The row of the package, and the size that is counted.
unfoldable pub record_package : System → GoString → GoString → ℕ → Cache → Cache
unfolding upsert
record_package s h filename size c = record c {
  rows =
      insert h (upsert s.now size filename (parse_deb_filename filename) (lookup h c.rows)) c.rows;
  current_size = elim (lookup h c.rows) [
    | none ↦ c.current_size + size
    | some r ↦ c.current_size + size - r.size
  ];
}

unfoldable pub commit_verified_file :
    System → List ℕ → GoString → GoString → ℕ → Cache → Cache × Option Error
commit_verified_file s bytes h filename size c =
    let (c', e) = ensure_space s size c in
    elim e [
      | some err ↦ (c', some err)
      | none ↦ elim (install s h bytes c'.files) [
        | none ↦ (c', some move_failed)
        | some files ↦ (record_package s h filename size (record c' { files = files }), none)
      ]
    ]

-- `PutFile`, of a file with these bytes.
unfoldable pub put_file : System → List ℕ → GoString → GoString → ℕ → Cache → Cache × Option Error
put_file s bytes h filename size c = commit_verified_file s bytes h filename size c

-- `Put`. No bytes stand for a copy that fails; `hash_bytes` is SHA-256 in hexadecimal.
unfoldable pub put :
    (List ℕ → GoString)
    → System
    → Option (List ℕ)
    → GoString
    → GoString
    → Cache
    → Cache × Option Error
put hash_bytes s none expected filename c = (c, some write_failed)
put hash_bytes s (some bytes) expected filename c =
    if str_eq (hash_bytes bytes) expected
    then commit_verified_file s bytes expected filename (length bytes) c
    else (c, some hash_mismatch)
