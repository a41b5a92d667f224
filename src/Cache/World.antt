-- ===== src/Cache/World.antt =====
-- internal/cache/cache.go: the cache with the readers that `Get` has handed out, under any sequence
-- of calls. Each call is one step: its locks let no other call see it half done.
pub mod Readers
pub mod Runs
use debswarm.Prelude.{
  ℕ, zero, suc, ◌+◌, ◌-◌, ◌≤◌, ◌<◌, ◌≡◌, refl, ap, ◌∙◌, Option, none, some, false, List, [], ◌∷◌,
  if◌then◌else◌, arith, GoString, str_eq, str_eq_self, eq_iff, Bool-cases, inl, inr, get_elem?, All,
  sum_by, length, All-map,
}
use mathlib.Core.Path.{subst}
use mathlib.Core.Option.{some-injective}
use debswarm.Prelude.Assoc.{Map, Distinct, lookup, lookup-delete, lookup-insert}
use debswarm.Cache.Access
use debswarm.Cache.Access.{Reader, Found, found, missed, flush_access, add_reader, drop_reader}
use debswarm.Cache.State
use debswarm.Cache.State.{Row, Cache, System, readers_of, or_zero, new}
use debswarm.Cache.Store
use debswarm.Cache.Store.{ensure_space, record_package, commit_verified_file}
use debswarm.Cache.Sound.{
  Sound, put-Sound, put_file-Sound, delete_package-Sound, pin-Sound, unpin-Sound,
  mark_announced-Sound, flush_access-Sound, get-Sound, close-Sound, new-Sound,
}
use debswarm.Cache.Ends.{get-cases, delete_package-cases, commit-cases}
use debswarm.Cache.Space.{ensure_space-reading}

pub record World : Type 0 where
  pub cache : Cache
  pub open_readers : List Reader

-- `close i` closes the i-th of the open readers.
pub data Call : Type 0 where
  get : GoString → Call
  close : ℕ → Call
  put : Option (List ℕ) → GoString → GoString → Call
  put_file : List ℕ → GoString → GoString → ℕ → Call
  delete_package pin unpin mark_announced : GoString → Call
  flush : Call

abbrev pub remove_at : ℕ → List Reader → List Reader
remove_at i [] = []
remove_at zero (r ∷ rs) = rs
remove_at (suc i) (r ∷ rs) = r ∷ remove_at i rs

abbrev pub opened : Found → List Reader → List Reader
opened (found r row) rs = r ∷ rs
opened (missed e) rs = rs

abbrev pub close_at : ℕ → World → World
close_at i w = elim (get_elem? w.open_readers i) [
  | none ↦ w
  | some r ↦ record {
    cache = (Access.close r w.cache).0;
    open_readers = remove_at i w.open_readers;
  }
]

-- One call, and a sequence of calls, each with what the system answers.
unfoldable pub step : (List ℕ → GoString) → System → Call → World → World
step hash_bytes s (get h) w = record {
  cache = (Access.get s h w.cache).0;
  open_readers = opened (Access.get s h w.cache).1 w.open_readers;
}
step hash_bytes s (close i) w = close_at i w
step hash_bytes s (put bytes? h filename) w = record w {
  cache = (Store.put hash_bytes s bytes? h filename w.cache).0;
}
step hash_bytes s (put_file bytes h filename size) w = record w {
  cache = (Store.put_file s bytes h filename size w.cache).0;
}
step hash_bytes s (delete_package h) w = record w { cache = (Store.delete_package s h w.cache).0 }
step hash_bytes s (pin h) w = record w { cache = (State.pin h w.cache).0 }
step hash_bytes s (unpin h) w = record w { cache = (State.unpin h w.cache).0 }
step hash_bytes s (mark_announced h) w = record w { cache = State.mark_announced s h w.cache }
step hash_bytes s flush w = record w { cache = flush_access w.cache }

unfoldable pub run : (List ℕ → GoString) → List (System × Call) → World → World
unfolding step
run hash_bytes [] w = w
run hash_bytes ((s, call) ∷ calls) w = run hash_bytes calls (step hash_bytes s call w)

-- The source asks of the callers of `PutFile` that they have verified the file.
abbrev pub Verified : (List ℕ → GoString) → List (System × Call) → Type 0
Verified hash_bytes [] = Unit
Verified hash_bytes ((s, put_file bytes h filename size) ∷ calls) =
    (hash_bytes bytes ≡ h) × Verified hash_bytes calls
Verified hash_bytes ((s, _) ∷ calls) = Verified hash_bytes calls

abbrev pub count_open : GoString → List Reader → ℕ
count_open h = sum_by (λ r. if str_eq r.hash h then 1 else 0)

abbrev pub Reads : Cache → Reader → Type 0
Reads c r = (r.closed ≡ false) × (lookup r.hash c.files ≡ some r.bytes)

-- The counts are those of the open readers, and each of these reads the file that the cache has.
pub record Tracked (w : World) : Type 0 where
  pub counts : (h : GoString) → readers_of h w.cache ≡ count_open h w.open_readers
  pub reads : All (Reads w.cache) w.open_readers
