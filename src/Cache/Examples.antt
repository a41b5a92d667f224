-- ===== src/Cache/Examples.antt =====
-- The theorems of internal/cache at concrete inputs. Here the bytes of a file are their own hash.
use debswarm.Prelude.{
  ℕ, ◌+◌, ◌≤◌, ◌<◌, ◌≡◌, ◌≢◌, refl, none, some, Bool, true, false, List, [], ◌∷◌, ◌++◌, arith,
  length, All, GoString, codes, str_eq, eq_iff, inl, inr, ◌⊎◌,
}
use debswarm.Prelude.Assoc.{Map, lookup, delete, insert, Distinct}
use debswarm.Prelude.Strings.{has_byte}
use debswarm.Cache.State.{
  Row, Error, cache_full, not_found, hash_mismatch, Cache, System, new, readers_of,
}
use debswarm.Cache.Access.{Reader, found, missed, flush_access, apply_all}
use debswarm.Cache.Access
use debswarm.Cache.DebFilename.{DebName, parse}
use debswarm.Cache.DebFilename.Parts.{parse-stem, stem, place}
use debswarm.Cache.Store
use debswarm.Cache.Store.{ensure_space, is_candidate}
use debswarm.Cache.Sound.{Sound}
use debswarm.Cache.Space.{ensure_space-spares, ensure_space-makes_room, ensure_space-in_order}
use debswarm.Cache.World.{Call, get, put, delete_package, run}
use debswarm.Cache.World.Runs.{run-Sound, run-readers, started}
use debswarm.Cache.PutGet.{put-get, delete_package-get}

abbrev self_hash : List ℕ → GoString
self_hash bytes = bytes

abbrev first : GoString
first = codes "curl"

abbrev second : GoString
second = codes "wget"

abbrev third : GoString
third = codes "nano!"

abbrev row_of : ℕ → Bool → Row
row_of hits pinned = record {
  size = 4;
  filename = codes "x.deb";
  added_at = 0;
  last_accessed = 100;
  access_count = hits;
  announced = 0;
  package_name = [];
  package_version = [];
  architecture = [];
  pinned = pinned;
}

abbrev rows : Map Row
rows = (first, row_of 1 false) ∷ (second, row_of 3 false) ∷ []

abbrev files : Map (List ℕ)
files = (first, first) ∷ (second, second) ∷ []

-- Two packages that were not read for longer than a week, and room for ten bytes.
abbrev full : Cache
full = record {
  max_size = 10;
  min_free_space = 0;
  current_size = 8;
  rows = rows;
  files = files;
  active_readers = [];
  pending_access = [];
  evictions = 0;
}

abbrev system : System
system = record {
  now = 900000;
  disk_free = none;
  locked = λ h. false;
  can_move = true;
  can_open = λ h. true;
}

once : Distinct rows
unfolding lookup str_eq
once = (refl, (refl, tt))

intact : (h : GoString) (bytes : List ℕ) → lookup h files ≡ some bytes → self_hash bytes ≡ h
unfolding lookup
intact h bytes e = ground (arith, eq_iff first h, eq_iff second h)

stored : (h : GoString) → lookup h files ≡ none → lookup h rows ≡ none
unfolding lookup
stored h e = ground arith

full-Sound : Sound self_hash full
full-Sound = record { distinct = once; counted = refl; intact = intact; stored = stored }

put-get_example :
    ((Store.put self_hash system (some third) third (codes "n.deb") full).1 ≡ none
      → (self_hash third ≡ third)
        × ((Store.put self_hash system (some third) third (codes "n.deb") full).0.current_size ≤ 10)
        × (system.can_open third ≡ true
            → (r : Reader) × (row : Row) × ((Access.get system third
                  (Store.put self_hash system (some third) third (codes "n.deb") full).0).1
                ≡ found r row)
              × (self_hash r.bytes ≡ third)
              × (row.size ≡ length third)
              × (row.filename ≡ codes "n.deb")
              × (row.last_accessed ≡ system.now)))
    × (self_hash third ≢ third
        → Store.put self_hash system (some third) third (codes "n.deb") full
          ≡ (full, some hash_mismatch))
put-get_example = put-get self_hash system system third third (codes "n.deb") full full-Sound

-- The put succeeds: it evicts the package with the lower score.
put_evicts :
    ((Store.put self_hash system (some third) third (codes "n.deb") full).1 ≡ none)
    × ((Store.put self_hash system (some third) third (codes "n.deb") full).0.current_size ≡ 9)
    × (lookup first (Store.put self_hash system (some third) third (codes "n.deb") full).0.files
        ≡ none)
unfolding Store.put Store.commit_verified_file ensure_space Store.install Store.record_package
    lookup delete insert str_eq
put_evicts = (refl, refl, refl)

delete_package-get_example :
    ((Store.delete_package system first full).1 ≡ none
      → ((Access.get system first (Store.delete_package system first full).0).1 ≡ missed not_found)
        × ((k : GoString)
            → k ≢ first
            → (lookup k (Store.delete_package system first full).0.rows ≡ lookup k rows)
              × (lookup k (Store.delete_package system first full).0.files ≡ lookup k files)))
    × ((err : Error)
        → (Store.delete_package system first full).1 ≡ some err
        → ((Store.delete_package system first full).0 ≡ full)
          × ((0 < readers_of first full) ⊎ (system.locked first ≡ true)))
delete_package-get_example = delete_package-get system system first full

ensure_space-makes_room_example :
    ((ensure_space system 5 full).1 ≡ none
      → (ensure_space system 5 full).0.current_size + 5 ≤ (ensure_space system 5 full).0.max_size)
    × ((ensure_space system 5 full).1 ≡ some cache_full
        → ((ensure_space system 5 full).0.max_size
            < (ensure_space system 5 full).0.current_size + 5)
          × ((k : GoString) (q : Row)
              → lookup k (ensure_space system 5 full).0.rows ≡ some q
              → is_candidate system.now q ≡ true
              → (0 < readers_of k full) ⊎ (system.locked k ≡ true)))
ensure_space-makes_room_example = ensure_space-makes_room system 5 self_hash full full-Sound

-- The second package is being read.
abbrev in_use : Cache
in_use = record full { active_readers = (second, 1) ∷ [] }

in_use-Sound : Sound self_hash in_use
in_use-Sound = record { distinct = once; counted = refl; intact = intact; stored = stored }

ensure_space-spares_example :
    (lookup second (ensure_space system 10 in_use).0.rows ≡ some (row_of 3 false))
    × (lookup second (ensure_space system 10 in_use).0.files
        ≡ lookup second (flush_access in_use).files)
unfolding flush_access lookup str_eq
ensure_space-spares_example =
    ensure_space-spares system 10 self_hash in_use in_use-Sound second (row_of 3 false) refl
      (inr (inr (inl (omega arith))))

ensure_space-in_order_example :
    (lookup first (ensure_space system 10 full).0.rows ≡ none)
    ⊎ ((0 < readers_of first full) ⊎ (system.locked first ≡ true))
unfolding ensure_space lookup delete str_eq
ensure_space-in_order_example =
    ensure_space-in_order system 10 self_hash full full-Sound second first (row_of 3 false)
      (row_of 1 false) refl refl refl (omega arith) refl

-- A package is stored and read, and cannot be deleted while it is read.
abbrev calls : List (System × Call)
calls =
    (system, put (some third) third (codes "n.deb"))
    ∷ (system, get third)
    ∷ (system, delete_package third)
    ∷ []

run-Sound_example : Sound self_hash (run self_hash calls (started 10 0 rows files)).cache
run-Sound_example = run-Sound self_hash 10 0 rows files once intact stored calls tt

run-readers_example :
    All
      (λ r.
        (lookup r.hash (run self_hash calls (started 10 0 rows files)).cache.files ≡ some r.bytes)
        × (self_hash r.bytes ≡ r.hash))
      (run self_hash calls (started 10 0 rows files)).open_readers
run-readers_example = run-readers self_hash 10 0 rows files once intact stored calls tt

one_reader : length (run self_hash calls (started 10 0 rows files)).open_readers ≡ 1
unfolding run new Store.put Store.commit_verified_file ensure_space Store.install
    Store.record_package Access.get Store.delete_package lookup delete insert str_eq
one_reader = refl

abbrev curl_deb : DebName
curl_deb = record { name = codes "lib_c"; version = codes "7.88"; arch = codes "amd64" }

parse-stem_example :
    parse (place (some (codes "pool/main")) (stem curl_deb ++ codes ".deb")) ≡ some curl_deb
unfolding has_byte
parse-stem_example = parse-stem (some (codes "pool/main")) curl_deb (cc) (cc) (cc) refl refl refl
