-- ===== src/Cache/State.antt =====
-- internal/cache/cache.go: the state of the cache of packages. The table `packages` is a map from
-- hashes to rows, in an order that means nothing; a file under packages/sha256 is its bytes under
-- its hash. Times are Unix seconds. Sizes and counts are at least 0 and their sums below 2 ^ 63.
-- Logging is left out, with the slice `hash[:16]` of its lines: hashes have 16 bytes or more.
-- Failures of the database are left out.
use debswarm.Prelude.{ℕ, Option, none, some, Bool, true, false, List, [], GoString}
use debswarm.Prelude.Assoc.{Map, lookup, insert, weigh}

-- A row of the table, whose hash is its key in the map.
pub record Row : Type 0 where
  pub size : ℕ
  pub filename : GoString
  pub added_at : ℕ
  pub last_accessed : ℕ
  pub access_count : ℕ
  pub announced : ℕ
  pub package_name : GoString
  pub package_version : GoString
  pub architecture : GoString
  pub pinned : Bool

pub record AccessRecord : Type 0 where
  pub last : ℕ
  pub hits : ℕ

pub data Error : Type 0 where
  not_found hash_mismatch insufficient_disk_space cache_full file_in_use : Error
  no_row write_failed remove_failed move_failed open_failed : Error

-- `evictions` counts the calls of `onEvict`.
pub record Cache : Type 0 where
  pub max_size : ℕ
  pub min_free_space : ℕ
  pub current_size : ℕ
  pub rows : Map Row
  pub files : Map (List ℕ)
  pub active_readers : Map ℕ
  pub pending_access : Map AccessRecord
  pub evictions : ℕ

-- What the system answers during a call: the time, the free space of the disk if it can be told,
-- the files whose removal fails, whether a rename into the cache succeeds, and the files that can be
-- opened if they are there.
pub record System : Type 0 where
  pub now : ℕ
  pub disk_free : Option ℕ
  pub locked : GoString → Bool
  pub can_move : Bool
  pub can_open : GoString → Bool

-- A missing key of a Go map of counters reads as 0.
abbrev pub or_zero : Option ℕ → ℕ
or_zero none = 0
or_zero (some n) = n

abbrev pub readers_of : GoString → Cache → ℕ
readers_of h c = or_zero (lookup h c.active_readers)

-- `UPDATE packages SET ... WHERE sha256 = ?`
unfoldable pub update_row : GoString → (Row → Row) → Map Row → Map Row
update_row h f rows = elim (lookup h rows) [ none ↦ rows | some r ↦ insert h (f r) rows ]

-- `calculateSize` at the start of a process: the rows and files are those on the disk.
unfoldable pub calculate_size : Cache → Cache
calculate_size c = record c { current_size = weigh (λ r. r.size) c.rows }

unfoldable pub new : ℕ → ℕ → Map Row → Map (List ℕ) → Cache
unfolding calculate_size
new max_size min_free_space rows files = calculate_size (record {
  max_size = max_size;
  min_free_space = min_free_space;
  current_size = 0;
  rows = rows;
  files = files;
  active_readers = [];
  pending_access = [];
  evictions = 0;
})

unfoldable pub has : GoString → Cache → Bool
has h c = elim (lookup h c.files) [ none ↦ false | some bytes ↦ true ]

unfoldable pub pin : GoString → Cache → Cache × Option Error
unfolding update_row
pin h c = elim (lookup h c.rows) [
  | none ↦ (c, some not_found)
  | some r ↦ (record c { rows = update_row h (λ q. record q { pinned = true }) c.rows }, none)
]

unfoldable pub unpin : GoString → Cache → Cache × Option Error
unfolding update_row
unpin h c = elim (lookup h c.rows) [
  | none ↦ (c, some not_found)
  | some r ↦ (record c { rows = update_row h (λ q. record q { pinned = false }) c.rows }, none)
]

unfoldable pub is_pinned : GoString → Cache → Bool
is_pinned h c = elim (lookup h c.rows) [ none ↦ false | some r ↦ r.pinned ]

unfoldable pub mark_announced : System → GoString → Cache → Cache
unfolding update_row
mark_announced s h c = record c { rows = update_row h (λ r. record r { announced = s.now }) c.rows }
