-- ===== src/Cache/World/Readers.antt =====
-- internal/cache/cache.go: what each call does to the readers that are open.
use debswarm.Prelude.{
  ℕ, zero, suc, ◌+◌, ◌-◌, ◌≤◌, ◌<◌, ◌≡◌, refl, ap, ◌∙◌, Option, none, some, List, [], ◌∷◌,
  if◌then◌else◌, arith, GoString, str_eq, str_eq_self, eq_iff, Bool-cases, inl, inr, get_elem?, All,
  length,
}
use mathlib.Core.Path.{subst}
use mathlib.Core.Option.{some-injective}
use debswarm.Prelude.Assoc.{lookup, lookup-delete, lookup-insert}
use debswarm.Cache.Access
use debswarm.Cache.Access.{Reader, Found, found, missed, flush_access, add_reader, drop_reader}
use debswarm.Cache.State
use debswarm.Cache.State.{Row, Cache, System, readers_of, or_zero, new}
use debswarm.Cache.Store
use debswarm.Cache.Store.{ensure_space, record_package, commit_verified_file}
use debswarm.Cache.Sound.{Sound, close-Sound}
use debswarm.Cache.Ends.{get-cases, delete_package-cases, commit-cases}
use debswarm.Cache.Space.{ensure_space-reading}
use debswarm.Cache.World.{World, get, remove_at, close_at, step, count_open, Reads, Tracked}

readers_of-add :
    (h j : GoString) (c : Cache)
    → readers_of j (add_reader h c) ≡ readers_of j c + (if str_eq h j then 1 else 0)
unfolding add_reader
readers_of-add h j c =
    ground (arith, eq_iff h j, lookup-insert h j (readers_of h c + 1) c.active_readers)

readers_of-drop :
    (h j : GoString) (c : Cache)
    → 0 < readers_of h c
    → readers_of j c ≡ readers_of j (drop_reader h c) + (if str_eq h j then 1 else 0)
unfolding drop_reader
readers_of-drop h j c some_reader = ground (
  arith,
  eq_iff h j,
  lookup-delete h j c.active_readers,
  lookup-insert h j (readers_of h c - 1) c.active_readers,
)

-- A call that leaves the readers and what they read alone.
abbrev pub Undisturbed : Cache → Cache → Type 0
Undisturbed c d =
    (d.active_readers ≡ c.active_readers)
    × ((k : GoString) (bytes : List ℕ)
        → 0 < readers_of k c
        → lookup k c.files ≡ some bytes
        → lookup k d.files ≡ some bytes)

keeps_reading :
    (c d : Cache) (rs : List Reader)
    → Undisturbed c d
    → ((h : GoString) → count_open h rs ≤ readers_of h c)
    → All (Reads c) rs
    → All (Reads d) rs
keeps_reading c d [] u counts reads = tt
keeps_reading c d (r ∷ rs) u counts reads =
    let here : 0 < readers_of r.hash c = ground (arith, counts r.hash, str_eq_self r.hash) in
    (
      (reads.0.0, u.1 r.hash r.bytes here reads.0.1),
      keeps_reading c d rs u (λ h. ground (arith, counts h)) reads.1,
    )

pub Undisturbed-Tracked :
    (w : World) (d : Cache) → Undisturbed w.cache d → Tracked w → Tracked (record w { cache = d })
Undisturbed-Tracked w d u t = record {
  counts = λ h. ap (λ m. or_zero (lookup h m)) u.0 ∙ t.counts h;
  reads = keeps_reading w.cache d w.open_readers u (λ h. omega (arith, t.counts h)) t.reads;
}

module _ (P : Reader → Type 0) where
  All-get_elem? : (i : ℕ) (r : Reader) (rs : List Reader) → get_elem? rs i ≡ some r → All P rs → P r
  All-get_elem? i r [] e all = cc
  All-get_elem? zero r (q ∷ rs) e all = subst P (some-injective q r e) all.0
  All-get_elem? (suc i) r (q ∷ rs) e all = All-get_elem? i r rs e all.1

  All-remove_at : (i : ℕ) (rs : List Reader) → All P rs → All P (remove_at i rs)
  All-remove_at i [] all = tt
  All-remove_at zero (q ∷ rs) all = all.1
  All-remove_at (suc i) (q ∷ rs) all = (all.0, All-remove_at i rs all.1)

count_open-remove_at :
    (h : GoString) (i : ℕ) (r : Reader) (rs : List Reader)
    → get_elem? rs i ≡ some r
    → count_open h rs ≡ count_open h (remove_at i rs) + (if str_eq r.hash h then 1 else 0)
count_open-remove_at h i r [] e = cc
count_open-remove_at h zero r (q ∷ rs) e = ground arith
count_open-remove_at h (suc i) r (q ∷ rs) e = ground (arith, count_open-remove_at h i r rs e)

pub pin-Undisturbed : (h : GoString) (c : Cache) → Undisturbed c (State.pin h c).0
unfolding State.pin
pin-Undisturbed h c = ground arith

pub unpin-Undisturbed : (h : GoString) (c : Cache) → Undisturbed c (State.unpin h c).0
unfolding State.unpin
unpin-Undisturbed h c = ground arith

pub mark_announced-Undisturbed :
    (s : System) (h : GoString) (c : Cache) → Undisturbed c (State.mark_announced s h c)
unfolding State.mark_announced
mark_announced-Undisturbed s h c = (refl, λ k bytes reading at. at)

pub flush_access-Undisturbed : (c : Cache) → Undisturbed c (flush_access c)
unfolding flush_access
flush_access-Undisturbed c = (refl, λ k bytes reading at. at)

module _ (hash_bytes : List ℕ → GoString) where
  pub close_at-Sound :
      (i : ℕ) (w : World) → Sound hash_bytes w.cache → Sound hash_bytes (close_at i w).cache
  close_at-Sound i w a = go (get_elem? w.open_readers i)
    where
      go :
          (o : Option Reader)
          → Sound hash_bytes
              (elim o as (λ x. World) [
                | none ↦ w
                | some r ↦ record {
                  cache = (Access.close r w.cache).0;
                  open_readers = remove_at i w.open_readers;
                }
              ]).cache
      go none = a
      go (some r) = close-Sound hash_bytes r w.cache a

  pub commit-Undisturbed :
      (s : System) (bytes : List ℕ) (h filename : GoString) (size : ℕ) (c : Cache)
      → Sound hash_bytes c
      → Undisturbed c (commit_verified_file s bytes h filename size c).0
  unfolding record_package
  commit-Undisturbed s bytes h filename size c w =
      let (readers, files) = ensure_space-reading s size hash_bytes c w in
      elim (commit-cases s bytes h filename size c) [
        | inl (err, e, f) ↦ rw f (readers, λ k b reading at. files k reading ∙ at)
        | inr (inl (e, f)) ↦ rw f (readers, λ k b reading at. files k reading ∙ at)
        | inr (inr (now_files, e, (look, there), f)) ↦
            rw f (readers, λ k b reading at. ground (arith, look k, eq_iff h k, files k reading))
      ]

  pub put-none-Undisturbed :
      (s : System) (h filename : GoString) (c : Cache)
      → Undisturbed c (Store.put hash_bytes s none h filename c).0
  unfolding Store.put
  put-none-Undisturbed s h filename c = (refl, λ k b reading at. at)

  pub put-Undisturbed :
      (s : System) (bytes : List ℕ) (h filename : GoString) (c : Cache)
      → Sound hash_bytes c
      → Undisturbed c (Store.put hash_bytes s (some bytes) h filename c).0
  unfolding Store.put
  put-Undisturbed s bytes h filename c a = elim (Bool-cases (str_eq (hash_bytes bytes) h)) [
    | inl e ↦ rw (e, Store.put) (commit-Undisturbed s bytes h filename (length bytes) c a)
    | inr e ↦ rw (e, Store.put) (refl, λ k b reading at. at)
  ]

  pub delete-Undisturbed :
      (s : System) (h : GoString) (c : Cache) → Undisturbed c (Store.delete_package s h c).0
  delete-Undisturbed s h c = elim (delete_package-cases s h c) [
    | inl (reading, e) ↦ rw e (refl, λ k b reading at. at)
    | inr (inl (held, e)) ↦ rw e (refl, λ k b reading at. at)
    | inr (inr (idle, free, e)) ↦
        rw e (refl, λ k b reading at. ground (arith, eq_iff h k, lookup-delete h k c.files))
  ]

  pub get-Tracked :
      (s : System) (h : GoString) (w : World) → Tracked w → Tracked (step hash_bytes s (get h) w)
  unfolding step Access.record_access drop_reader add_reader
  get-Tracked s h w t = elim (get-cases s h w.cache) [
    | inl (e, f) ↦ rw (f, step) t
    | inr (inl (bytes, e, f, g)) ↦
        rw (g, step)
          (record {
            counts = λ j. ground (
              arith,
              readers_of-add h j w.cache,
              readers_of-add h h w.cache,
              str_eq_self h,
              readers_of-drop h j (Access.record_access s h (add_reader h w.cache)),
              t.counts j,
            );
            reads = t.reads;
          })
    | inr (inr (inr (closed, f))) ↦ rw (f, step) t
    | inr (inr (inl (bytes, r, e, f, g))) ↦
        rw (g, step)
          (record {
            counts = λ j. ground (arith, readers_of-add h j w.cache, t.counts j);
            reads = ((refl, e), t.reads);
          })
  ]

  pub close-Tracked : (i : ℕ) (w : World) → Tracked w → Tracked (close_at i w)
  unfolding Access.close drop_reader
  close-Tracked i w t = go (get_elem? w.open_readers i) refl
    where
      go :
          (o : Option Reader)
          → get_elem? w.open_readers i ≡ o
          → Tracked (elim o [
            | none ↦ w
            | some r ↦ record {
              cache = (Access.close r w.cache).0;
              open_readers = remove_at i w.open_readers;
            }
          ])
      go none e = t
      go (some r) e =
          let (still_open, at) = All-get_elem? (Reads w.cache) i r w.open_readers e t.reads in
          rw still_open (record {
            counts = λ j. ground (
              arith,
              count_open-remove_at j i r w.open_readers e,
              count_open-remove_at r.hash i r w.open_readers e,
              str_eq_self r.hash,
              readers_of-drop r.hash j w.cache,
              t.counts j,
              t.counts r.hash,
            );
            reads = All-remove_at (Reads w.cache) i w.open_readers t.reads;
          })
