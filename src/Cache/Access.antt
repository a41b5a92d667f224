-- ===== src/Cache/Access.antt =====
-- internal/cache/cache.go: reading a package, the count of its readers, and the batched records of
-- accesses.
use debswarm.Prelude.{
  ℕ, ◌+◌, ◌-◌, Option, none, some, Bool, true, false, List, [], ◌∷◌, ltb, leb, if◌then◌else◌,
  GoString,
}
use debswarm.Prelude.Assoc.{Map, lookup, insert, delete}
use debswarm.Cache.State.{
  Row, AccessRecord, Error, not_found, no_row, open_failed, Cache, System, readers_of, update_row,
}

-- A `trackedReader`: the bytes of the open file, and whether `Close` has run.
pub record Reader : Type 0 where
  pub hash : GoString
  pub bytes : List ℕ
  pub closed : Bool

abbrev pub access_record_or_zero : Option AccessRecord → AccessRecord
access_record_or_zero none = record { last = 0; hits = 0 }
access_record_or_zero (some a) = a

unfoldable pub record_access : System → GoString → Cache → Cache
record_access s h c =
    let old = access_record_or_zero (lookup h c.pending_access) in
    record c {
      pending_access = insert h (record { last = s.now; hits = old.hits + 1 }) c.pending_access;
    }

-- `activeReaders[hash]++`
unfoldable pub add_reader : GoString → Cache → Cache
add_reader h c = record c { active_readers = insert h (readers_of h c + 1) c.active_readers }

-- `activeReaders[hash]--`, and the key is deleted at 0 or below.
unfoldable pub drop_reader : GoString → Cache → Cache
drop_reader h c = record c {
  active_readers =
      if leb (readers_of h c) 1
      then delete h c.active_readers
      else insert h (readers_of h c - 1) c.active_readers;
}

pub data Found : Type 0 where
  found : Reader → Row → Found
  missed : Error → Found

unfoldable pub get : System → GoString → Cache → Cache × Found
unfolding add_reader drop_reader record_access
get s h c = elim (lookup h c.files) [
  | none ↦ (c, missed not_found)
  | some bytes ↦
      let c' = record_access s h (add_reader h c) in
      elim (s.can_open h) [
        | false ↦ (c, missed open_failed)
        | true ↦ elim (lookup h c'.rows) [
          | none ↦ (drop_reader h c', missed no_row)
          | some r ↦ (c', found (record { hash = h; bytes = bytes; closed = false }) r)
        ]
      ]
]

-- `Close`, whose body runs once.
unfoldable pub close : Reader → Cache → Cache × Reader
unfolding drop_reader
close r c = if r.closed then (c, r) else (drop_reader r.hash c, record r { closed = true })

-- The statement of the flush, for one record.
abbrev pub apply_access : AccessRecord → Row → Row
apply_access a r = record r {
  last_accessed = if ltb r.last_accessed a.last then a.last else r.last_accessed;
  access_count = r.access_count + a.hits;
}

unfoldable pub apply_all : Map AccessRecord → Map Row → Map Row
apply_all [] rows = rows
apply_all ((h, a) ∷ as') rows = apply_all as' (update_row h (apply_access a) rows)

unfoldable pub flush_access : Cache → Cache
unfolding apply_all
flush_access c = record c { rows = apply_all c.pending_access c.rows; pending_access = [] }
