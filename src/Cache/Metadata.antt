-- ===== src/Cache/Metadata.antt =====
-- internal/cache/metadata.go: the cache of indices and releases, addressed by their URLs. A file is
-- kept under the hash of its URL, which is `hash_bytes`, SHA-256 in hexadecimal. A budget of 0 or
-- below is 0 here. Times are Unix seconds; failures of the database, and of making a directory, are
-- left out.
pub mod Victims
pub mod Commits
pub mod Runs
mod Examples
use debswarm.Prelude.{
  ℕ, ◌+◌, ◌-◌, ◌==◌, Option, none, some, Bool, true, false, not, ◌&&◌, ◌||◌, List, [], ◌∷◌, ◌++◌,
  ltb, leb, if◌then◌else◌, length, GoString, codes, str_eq,
}
use debswarm.Prelude.Assoc.{Map, lookup, insert, delete, weigh}
use debswarm.Prelude.Strings.{to_lower, cut, has_byte}
use debswarm.Cache.State.{System}

-- A row of the table `indices`, whose URL is its key in the map.
pub record MetadataEntry : Type 0 where
  pub etag : GoString
  pub last_modified : GoString
  pub size : ℕ
  pub content_type : GoString
  pub fetched_at : ℕ
  pub last_validated : ℕ
  pub last_accessed : ℕ
  pub access_count : ℕ

pub record Metadata : Type 0 where
  pub metadata_max_size : ℕ
  pub metadata_size : ℕ
  pub rows : Map MetadataEntry
  pub files : Map (List ℕ)

pub data MetadataError : Type 0 where
  not_found finished close_failed hash_mismatch cache_full remove_failed install_failed :
      MetadataError

unfoldable pub set_metadata_max_size : ℕ → Metadata → Metadata
set_metadata_max_size n c = record c { metadata_max_size = n }

abbrev pub metadata_enabled : Metadata → Bool
metadata_enabled c = ltb 0 c.metadata_max_size

-- The bytes before the next separator of a path or a query.
abbrev pub until_separator : GoString → GoString
until_separator [] = []
until_separator (a ∷ s) =
    let rest = until_separator s in if a == b'/' || (a == b'?' || a == b'#') then [] else a ∷ rest

abbrev pub is_hex : GoString → Bool
is_hex [] = true
is_hex (a ∷ s) = ((leb b'0' a && leb a b'9') || (leb b'a' a && leb a b'f')) && is_hex s

-- The digest is lowered in the source after its length is taken, here with the URL.
unfoldable pub by_hash_sha256 : GoString → Option GoString
by_hash_sha256 url = elim (cut (codes "/by-hash/sha256/") (to_lower url)) [
  | none ↦ none
  | some (before, after) ↦
      let digest = until_separator after in
      if length digest == 64 && is_hex digest then some digest else none
]

module _ (hash_bytes : List ℕ → GoString) where
  unfoldable pub has_metadata : GoString → Metadata → Bool
  has_metadata url c =
      metadata_enabled c && elim (lookup (hash_bytes url) c.files) [ none ↦ false | some b ↦ true ]

  unfoldable pub touch_metadata : System → GoString → Metadata → Metadata
  touch_metadata s url c = elim (lookup url c.rows) [
    | none ↦ c
    | some e ↦
        let e' = record e { last_accessed = s.now; access_count = e.access_count + 1 } in
        record c { rows = insert url e' c.rows }
  ]

  unfoldable pub drop_metadata_row : GoString → Metadata → Metadata
  drop_metadata_row url c = elim (lookup url c.rows) [
    | none ↦ c
    | some e ↦ record c { rows = delete url c.rows; metadata_size = c.metadata_size - e.size }
  ]

  -- What the locked part of `GetMetadata` finds: the row and the file, each if there.
  abbrev pub find_metadata : GoString → Metadata → Option (MetadataEntry × Option (List ℕ))
  find_metadata url c =
      if metadata_enabled c
      then elim (lookup url c.rows) [
        | none ↦ none
        | some e ↦ some (e, lookup (hash_bytes url) c.files)
      ]
      else none

  -- `GetMetadata`, with no other call between its parts.
  unfoldable pub get_metadata :
      System → GoString → Metadata → Metadata × Option (MetadataEntry × List ℕ)
  unfolding touch_metadata drop_metadata_row
  get_metadata s url c = elim (find_metadata url c) [
    | none ↦ (c, none)
    | some (e, none) ↦ (drop_metadata_row url c, none)
    | some (e, some bytes) ↦
        if s.can_open (hash_bytes url)
        then (touch_metadata s url c, some (e, bytes))
        else (drop_metadata_row url c, none)
  ]

  unfoldable pub or_stored : GoString → GoString → GoString
  or_stored [] old = old
  or_stored (a ∷ new) old = a ∷ new

  unfoldable pub revalidate_metadata : System → GoString → GoString → GoString → Metadata → Metadata
  unfolding or_stored
  revalidate_metadata s url etag last_modified c =
      if metadata_enabled c
      then elim (lookup url c.rows) [
        | none ↦ c
        | some e ↦
            let e' = record e {
              etag = or_stored etag e.etag;
              last_modified = or_stored last_modified e.last_modified;
              last_validated = s.now;
              last_accessed = s.now;
            } in
            record c { rows = insert url e' c.rows }
      ]
      else c

  -- `deleteMetadataUnlocked`, of a row with this size. The file goes first, then the row.
  unfoldable pub delete_metadata_unlocked :
      System → GoString → ℕ → Metadata → Metadata × Option MetadataError
  delete_metadata_unlocked s url size c =
      if s.locked (hash_bytes url) then (c, some remove_failed) else (
        record c {
          files = delete (hash_bytes url) c.files;
          rows = delete url c.rows;
          metadata_size = c.metadata_size - size;
        },
        none,
      )

-- `ORDER BY last_accessed ASC, access_count ASC`. The order of equal rows is open in SQLite; here
-- the table's.
abbrev pub used_before : MetadataEntry → MetadataEntry → Bool
used_before e f =
    ltb e.last_accessed f.last_accessed
    || (e.last_accessed == f.last_accessed && ltb e.access_count f.access_count)

unfoldable pub insert_by_access : GoString → MetadataEntry → Map MetadataEntry → Map MetadataEntry
insert_by_access url e [] = (url, e) ∷ []
insert_by_access url e ((u, f) ∷ rest) =
    let later = insert_by_access url e rest in
    if used_before f e then (u, f) ∷ later else (url, e) ∷ (u, f) ∷ rest

unfoldable pub victims : Map MetadataEntry → Map MetadataEntry
unfolding insert_by_access
victims [] = []
victims ((url, e) ∷ rows) = insert_by_access url e (victims rows)

-- `metadataSize + needed <= metadataMaxSize` where `needed` is the difference `size - freed`, which
-- may be negative.
abbrev pub fits : ℕ → ℕ → Metadata → Bool
fits size freed c = leb (c.metadata_size + size) (c.metadata_max_size + freed)

module _ (hash_bytes : List ℕ → GoString) where
  -- The loop over the victims.
  unfoldable pub evict_metadata : System → ℕ → ℕ → Map MetadataEntry → Metadata → Metadata
  unfolding delete_metadata_unlocked
  evict_metadata s size freed [] c = c
  evict_metadata s size freed ((url, e) ∷ rest) c = elim (fits size freed c) [
    | true ↦ c
    | false ↦
        let (c', err) = delete_metadata_unlocked hash_bytes s url e.size c in
        evict_metadata s size freed rest c'
  ]

  unfoldable pub ensure_metadata_space : System → ℕ → ℕ → Metadata → Metadata × Option MetadataError
  unfolding evict_metadata victims
  ensure_metadata_space s size freed c =
      let c' = evict_metadata s size freed (victims c.rows) c in
      if fits size freed c
      then (c, none)
      else if fits size freed c'
      then (c', none)
      else (c', some cache_full)

-- A `MetadataWriter`, with the bytes of its pending file. The source takes the hash that a by-hash
-- URL asks for when the writer is made.
pub record MetadataWriter : Type 0 where
  pub url : GoString
  pub etag : GoString
  pub last_modified : GoString
  pub content_type : GoString
  pub written : List ℕ
  pub closes : Bool
  pub done : Bool

unfoldable pub write : List ℕ → MetadataWriter → MetadataWriter
write p w = record w { written = w.written ++ p }

unfoldable pub abort : MetadataWriter → MetadataWriter
abort w = record w { done = true }

abbrev pub old_size_if : Option MetadataEntry → ℕ
old_size_if none = 0
old_size_if (some e) = e.size

-- `INSERT ... ON CONFLICT DO UPDATE`
abbrev pub metadata_row : System → MetadataWriter → Option MetadataEntry → MetadataEntry
metadata_row s w old = record {
  etag = w.etag;
  last_modified = w.last_modified;
  size = length w.written;
  content_type = w.content_type;
  fetched_at = s.now;
  last_validated = s.now;
  last_accessed = s.now;
  access_count = elim old [ none ↦ 1 | some e ↦ e.access_count + 1 ];
}

-- The row of the file that was installed, and the size that is counted. `old` is the row that was
-- there before space was made.
unfoldable pub record_metadata :
    System → MetadataWriter → Option MetadataEntry → Metadata → Metadata
record_metadata s w old c = record c {
  rows = insert w.url (metadata_row s w (lookup w.url c.rows)) c.rows;
  metadata_size = (c.metadata_size + length w.written) - old_size_if old;
}

module _ (hash_bytes : List ℕ → GoString) where
  abbrev pub matches : MetadataWriter → Bool
  matches w = elim (by_hash_sha256 w.url) [
    | none ↦ true
    | some expected ↦ str_eq (hash_bytes w.written) expected
  ]

  -- The file that is there is removed, then the pending one is renamed. The files with an error are
  -- those that are left.
  unfoldable pub install_metadata :
      System → MetadataWriter → Map (List ℕ) → Map (List ℕ) × Option MetadataError
  install_metadata s w files =
      let key = hash_bytes w.url in
      elim (lookup key files) [
        | none ↦
            if s.can_move then (insert key w.written files, none) else (files, some install_failed)
        | some there ↦
            if s.locked key
            then (files, some remove_failed)
            else if s.can_move
            then (insert key w.written files, none)
            else (delete key files, some install_failed)
      ]

  -- `Commit` behind its check that the writer is not done.
  unfoldable pub commit_metadata :
      System → MetadataWriter → Metadata → Metadata × Option MetadataError
  commit_metadata s w c =
      let size = length w.written in
      let old = lookup w.url c.rows in
      if not w.closes
      then (c, some close_failed)
      else if not (matches w)
      then (c, some hash_mismatch)
      else if not (metadata_enabled c)
      then (c, none)
      else if ltb c.metadata_max_size size
      then (c, some cache_full)
      else (let (c', e) = ensure_metadata_space hash_bytes s size (old_size_if old) c in
          elim e [
            | some err ↦ (c', some err)
            | none ↦
                let (files, err) = install_metadata s w c'.files in
                elim err [
                  | some failed ↦ (record c' { files = files }, some failed)
                  | none ↦ (record_metadata s w old (record c' { files = files }), none)
                ]
          ])

  unfoldable pub commit :
      System → MetadataWriter → Metadata → (Metadata × MetadataWriter) × Option MetadataError
  unfolding commit_metadata
  commit s w c =
      if w.done
      then ((c, w), some finished)
      else (let (c', e) = commit_metadata s w c in ((c', record w { done = true }), e))
