-- ===== src/Cache/World/Runs.antt =====
-- internal/cache/cache.go: the cache and its readers after any sequence of calls.
use debswarm.Prelude.{ℕ, ◌≡◌, refl, none, some, List, [], ◌∷◌, GoString, All, All-map}
use debswarm.Prelude.Assoc.{Map, Distinct, lookup}
use debswarm.Cache.Access.{flush_access}
use debswarm.Cache.State
use debswarm.Cache.State.{Row, Cache, System, readers_of, or_zero, new}
use debswarm.Cache.Store
use debswarm.Cache.Store.{ensure_space, record_package, commit_verified_file}
use debswarm.Cache.Sound.{
  Sound, put-Sound, put_file-Sound, delete_package-Sound, pin-Sound, unpin-Sound,
  mark_announced-Sound, flush_access-Sound, get-Sound, new-Sound,
}
use debswarm.Cache.World.{
  World, Call, get, close, put, put_file, delete_package, pin, unpin, mark_announced, flush, step,
  run, Verified, Tracked,
}
use debswarm.Cache.World.Readers.{
  Undisturbed-Tracked, pin-Undisturbed, unpin-Undisturbed, mark_announced-Undisturbed,
  flush_access-Undisturbed, close_at-Sound, commit-Undisturbed, put-none-Undisturbed,
  put-Undisturbed, delete-Undisturbed, get-Tracked, close-Tracked,
}

module _ (hash_bytes : List ℕ → GoString) where
  -- Each call keeps both.
  step-Good :
      (s : System) (call : Call) (calls : List (System × Call)) (w : World)
      → Verified hash_bytes ((s, call) ∷ calls)
      → Sound hash_bytes w.cache × Tracked w
      → Sound hash_bytes (step hash_bytes s call w).cache
        × Tracked (step hash_bytes s call w)
        × Verified hash_bytes calls
  unfolding step Store.put_file
  step-Good s (get h) calls w v (a, t) =
      (get-Sound hash_bytes s h w.cache a, get-Tracked hash_bytes s h w t, v)
  step-Good s (close i) calls w v (a, t) =
      (close_at-Sound hash_bytes i w a, close-Tracked hash_bytes i w t, v)
  step-Good s (put none h filename) calls w v (a, t) = (
    put-Sound hash_bytes s none h filename w.cache a,
    Undisturbed-Tracked w (Store.put hash_bytes s none h filename w.cache).0
        (put-none-Undisturbed hash_bytes s h filename w.cache) t,
    v,
  )
  step-Good s (put (some bytes) h filename) calls w v (a, t) = (
    put-Sound hash_bytes s (some bytes) h filename w.cache a,
    Undisturbed-Tracked w (Store.put hash_bytes s (some bytes) h filename w.cache).0
        (put-Undisturbed hash_bytes s bytes h filename w.cache a) t,
    v,
  )
  step-Good s (put_file bytes h filename size) calls w v (a, t) = (
    put_file-Sound hash_bytes s bytes h filename size w.cache v.0 a,
    Undisturbed-Tracked w (Store.put_file s bytes h filename size w.cache).0
        (commit-Undisturbed hash_bytes s bytes h filename size w.cache a) t,
    v.1,
  )
  step-Good s (delete_package h) calls w v (a, t) = (
    delete_package-Sound hash_bytes s h w.cache a,
    Undisturbed-Tracked w (Store.delete_package s h w.cache).0
        (delete-Undisturbed hash_bytes s h w.cache) t,
    v,
  )
  step-Good s (pin h) calls w v (a, t) = (
    pin-Sound hash_bytes h w.cache a,
    Undisturbed-Tracked w (State.pin h w.cache).0 (pin-Undisturbed h w.cache) t,
    v,
  )
  step-Good s (unpin h) calls w v (a, t) = (
    unpin-Sound hash_bytes h w.cache a,
    Undisturbed-Tracked w (State.unpin h w.cache).0 (unpin-Undisturbed h w.cache) t,
    v,
  )
  step-Good s (mark_announced h) calls w v (a, t) = (
    mark_announced-Sound hash_bytes s h w.cache a,
    Undisturbed-Tracked w (State.mark_announced s h w.cache)
        (mark_announced-Undisturbed s h w.cache) t,
    v,
  )
  step-Good s flush calls w v (a, t) = (
    flush_access-Sound hash_bytes w.cache a,
    Undisturbed-Tracked w (flush_access w.cache) (flush_access-Undisturbed w.cache) t,
    v,
  )

  run-Good :
      (calls : List (System × Call)) (w : World)
      → Verified hash_bytes calls
      → Sound hash_bytes w.cache × Tracked w
      → Sound hash_bytes (run hash_bytes calls w).cache × Tracked (run hash_bytes calls w)
  unfolding run
  run-Good [] w v g = g
  run-Good ((s, call) ∷ calls) w v g =
      let (a, t, v') = step-Good s call calls w v g in
      run-Good calls (step hash_bytes s call w) v' (a, t)

-- A world in which the process has just started, on a disk and a table of an earlier run.
abbrev pub started : ℕ → ℕ → Map Row → Map (List ℕ) → World
started max_size min_free_space rows files = record {
  cache = new max_size min_free_space rows files;
  open_readers = [];
}

module _ (hash_bytes : List ℕ → GoString) (max_size min_free_space : ℕ) (rows : Map Row)
    (files : Map (List ℕ)) (once : Distinct rows)
    (intact : (h : GoString) (bytes : List ℕ) → lookup h files ≡ some bytes → hash_bytes bytes ≡ h)
    (stored : (h : GoString) → lookup h files ≡ none → lookup h rows ≡ none)
    (calls : List (System × Call)) (verified : Verified hash_bytes calls) where
  started-Good :
      Sound hash_bytes (new max_size min_free_space rows files)
      × Tracked (started max_size min_free_space rows files)
  unfolding new lookup
  started-Good = (
    new-Sound hash_bytes max_size min_free_space rows files once intact stored,
    record { counts = λ h. refl; reads = tt },
  )

  -- After any calls, from a disk and a table that agree: the size that the cache counts is the
  -- total of its rows, each file has the hash under which it stands, and each row has its file.
  pub run-Sound :
      Sound hash_bytes (run hash_bytes calls (started max_size min_free_space rows files)).cache
  run-Sound =
      (run-Good hash_bytes calls (started max_size min_free_space rows files) verified
        started-Good).0

  -- After any calls, each reader that is open has bytes of the hash that was asked for, and its
  -- package still has its file, with those bytes: no store, eviction or deletion has taken it.
  pub run-readers :
      All
        (λ r.
          (lookup r.hash
              (run hash_bytes calls (started max_size min_free_space rows files)).cache.files
            ≡ some r.bytes)
          × (hash_bytes r.bytes ≡ r.hash))
        (run hash_bytes calls (started max_size min_free_space rows files)).open_readers
  run-readers =
      let (a, t) =
        run-Good hash_bytes calls (started max_size min_free_space rows files) verified
          started-Good in
      All-map _ _ (λ r reads. (reads.1, a.intact r.hash r.bytes reads.1)) _ t.reads
