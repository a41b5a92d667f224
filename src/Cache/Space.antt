-- ===== src/Cache/Space.antt =====
-- internal/cache/cache.go: what `ensureSpace` promises to the caller, and to the packages that are
-- in the cache.
use debswarm.Prelude.{
  ℕ, ◌+◌, ◌≤◌, ◌<◌, ◌≡◌, refl, ◌∙◌, none, some, true, List, leb, arith, GoString, Option-cases,
  Bool-cases, inl, inr, ◌⊎◌,
}
use debswarm.Prelude.Assoc.{lookup, Distinct}
use debswarm.Cache.State.{Row, cache_full, insufficient_disk_space, Cache, System, readers_of}
use debswarm.Cache.Access.{flush_access}
use debswarm.Cache.Store.{disk_has_room, week, ensure_space, evict, candidates, is_candidate, score}
use debswarm.Cache.Sound.{Sound, flush_access-Sound}
use debswarm.Cache.Eviction.{candidate?, candidates-lookup}
use debswarm.Cache.Eviction.Loop.{
  candidates-Ascending, evict-spares, evict-readers, evict-max_size, evict-leaves, evict-in_order,
}

module _ (s : System) (needed : ℕ) where
  abbrev evicted : Cache → Cache
  evicted c = evict s needed (candidates s.now (flush_access c).rows) (flush_access c)

  -- The ends of `ensureSpace`.
  pub ensure_space-cases :
      (c : Cache)
      → ((ensure_space s needed c).0 ≡ flush_access c)
          × (((ensure_space s needed c).1 ≡ some insufficient_disk_space)
              ⊎ (((ensure_space s needed c).1 ≡ none)
                  × ((flush_access c).current_size + needed ≤ (flush_access c).max_size)))
        ⊎ ((ensure_space s needed c).0 ≡ evicted c)
          × ((((ensure_space s needed c).1 ≡ none)
                × ((evicted c).current_size + needed ≤ (evicted c).max_size))
              ⊎ (((ensure_space s needed c).1 ≡ some cache_full)
                  × ((evicted c).max_size < (evicted c).current_size + needed)))
  unfolding ensure_space
  ensure_space-cases c = elim (Bool-cases (disk_has_room s needed (flush_access c))) [
    | inr e ↦ inl (ground arith, inl (ground arith))
    | inl e ↦
        elim (Bool-cases (leb ((flush_access c).current_size + needed) (flush_access c).max_size)) [
          | inl f ↦ inl (ground arith, inr (ground arith, ground arith))
          | inr f ↦
              elim (Bool-cases (leb ((evicted c).current_size + needed) (evicted c).max_size)) [
                | inl g ↦ inr (ground arith, inl (ground arith, ground arith))
                | inr g ↦ inr (ground arith, inr (ground arith, ground arith))
              ]
        ]
  ]

  module _ (hash_bytes : List ℕ → GoString) (c : Cache) (w : Sound hash_bytes c) where
    listed :
        Distinct (candidates s.now (flush_access c).rows)
        × ((j : GoString)
            → lookup j (candidates s.now (flush_access c).rows)
              ≡ candidate? s.now (lookup j (flush_access c).rows))
    listed =
        candidates-lookup s.now (flush_access c).rows (flush_access-Sound hash_bytes c w).distinct

    there :
        (j : GoString) (q : Row)
        → lookup j (candidates s.now (flush_access c).rows) ≡ some q
        → lookup j (flush_access c).rows ≡ some q
    there j q e = ground (arith, listed.1 j)

    same_readers : (k : GoString) → readers_of k (flush_access c) ≡ readers_of k c
    unfolding flush_access
    same_readers k = refl

    -- `ensureSpace` keeps the file and the row, as the flush of the access records leaves it, of
    -- each package that is pinned, was read in the last week, is being read, or has a locked file.
    pub ensure_space-spares :
        (k : GoString) (q : Row)
        → lookup k (flush_access c).rows ≡ some q
        → (q.pinned ≡ true)
          ⊎ ((s.now ≤ q.last_accessed + week) ⊎ ((0 < readers_of k c) ⊎ (s.locked k ≡ true)))
        → (lookup k (ensure_space s needed c).0.rows ≡ some q)
          × (lookup k (ensure_space s needed c).0.files ≡ lookup k (flush_access c).files)
    ensure_space-spares k q e spared = elim (ensure_space-cases c) [
      | inl (same, end) ↦ rw same (e, refl)
      | inr (same, end) ↦
          let (readers, rows, files) =
            evict-spares s needed k (candidates s.now (flush_access c).rows) (flush_access c)
              listed.0 there unlisted in
          rw same (rows ∙ e, files)
    ]
      where
        unlisted :
            (lookup k (candidates s.now (flush_access c).rows) ≡ none)
            ⊎ ((0 < readers_of k (flush_access c)) ⊎ (s.locked k ≡ true))
        unlisted = elim spared [
          | inl pinned ↦ inl (ground (arith, listed.1 k))
          | inr (inl recent) ↦ inl (ground (arith, listed.1 k))
          | inr (inr (inl reading)) ↦ inr (inl (rw (same_readers k) reading))
          | inr (inr (inr locked)) ↦ inr (inr locked)
        ]

    -- If `ensureSpace` succeeds, the new bytes fit below the limit; if it says that the cache is
    -- full they do not, and each row that is left and may be evicted is being read or has a locked
    -- file.
    pub ensure_space-makes_room :
        ((ensure_space s needed c).1 ≡ none
          → (ensure_space s needed c).0.current_size + needed
            ≤ (ensure_space s needed c).0.max_size)
        × ((ensure_space s needed c).1 ≡ some cache_full
            → ((ensure_space s needed c).0.max_size
                < (ensure_space s needed c).0.current_size + needed)
              × ((k : GoString) (q : Row)
                  → lookup k (ensure_space s needed c).0.rows ≡ some q
                  → is_candidate s.now q ≡ true
                  → (0 < readers_of k c) ⊎ (s.locked k ≡ true)))
    ensure_space-makes_room = elim (ensure_space-cases c) [
      | inl (same, inl e) ↦ (λ f. cc, λ f. cc)
      | inl (same, inr (e, room)) ↦ (λ f. rw same room, λ f. cc)
      | inr (same, inl (e, room)) ↦ (λ f. rw same room, λ f. cc)
      | inr (same, inr (e, full)) ↦
          (λ f. cc, λ f. (rw same full, λ k q at may. left full k q (rw same at at) may))
    ]
      where
        left :
            (evicted c).max_size < (evicted c).current_size + needed
            → (k : GoString) (q : Row) → lookup k (evicted c).rows ≡ some q
            → is_candidate s.now q ≡ true
            → (0 < readers_of k c) ⊎ (s.locked k ≡ true)
        left full k q at may =
            elim (Option-cases (lookup k (candidates s.now (flush_access c).rows))) [
              | inl absent ↦
                  let (readers, rows, files) =
                    evict-spares s needed k (candidates s.now (flush_access c).rows)
                      (flush_access c) listed.0 there (inl absent) in
                  absurd (ground (arith, listed.1 k))
              | inr (p, e) ↦ rw (← same_readers k) (
                  evict-leaves s needed k p (candidates s.now (flush_access c).rows)
                    (flush_access c) listed.0 there e full (λ f. cc))
            ]

    -- Packages are evicted by score: where a package is gone that was there, each candidate with a
    -- lower score is gone too, is being read, or has a locked file.
    pub ensure_space-in_order :
        (h k : GoString) (r q : Row)
        → lookup h (flush_access c).rows ≡ some r
        → lookup k (flush_access c).rows ≡ some q
        → is_candidate s.now q ≡ true
        → score q < score r
        → lookup h (ensure_space s needed c).0.rows ≡ none
        → (lookup k (ensure_space s needed c).0.rows ≡ none)
          ⊎ ((0 < readers_of k c) ⊎ (s.locked k ≡ true))
    ensure_space-in_order h k r q first second may lower gone = elim (ensure_space-cases c) [
      | inl (same, end) ↦ let still : lookup h (flush_access c).rows ≡ none = rw same at gone in cc
      | inr (same, end) ↦ rw (same, ← same_readers k) (in_order (rw same at gone))
    ]
      where
        in_order :
            lookup h (evicted c).rows ≡ none
            → (lookup k (evicted c).rows ≡ none)
              ⊎ ((0 < readers_of k (flush_access c)) ⊎ (s.locked k ≡ true))
        in_order gone' = elim (Option-cases (lookup h (candidates s.now (flush_access c).rows))) [
          | inl absent ↦
              let (readers, rows, files) =
                evict-spares s needed h (candidates s.now (flush_access c).rows) (flush_access c)
                  listed.0 there (inl absent) in
              cc
          | inr (p, e) ↦
              let same_row : p ≡ r = ground (arith, there h p e) in
              evict-in_order s needed h k r q (candidates s.now (flush_access c).rows)
                (flush_access c) listed.0
                (candidates-Ascending s.now (flush_access c).rows
                  (flush_access-Sound hash_bytes c w).distinct)
                there (rw same_row at e) (ground (arith, listed.1 k)) lower gone'
        ]

    -- Nothing that `ensureSpace` does touches the count of readers, or a file that has one.
    pub ensure_space-reading :
        ((ensure_space s needed c).0.active_readers ≡ c.active_readers)
        × ((k : GoString)
            → 0 < readers_of k c
            → lookup k (ensure_space s needed c).0.files ≡ lookup k c.files)
    unfolding flush_access
    ensure_space-reading = elim (ensure_space-cases c) [
      | inl (same, end) ↦ rw same (refl, λ k reading. refl)
      | inr (same, end) ↦ rw same (
        evict-readers s needed (candidates s.now (flush_access c).rows) (flush_access c) listed.0
            there,
        λ k reading.
            (evict-spares s needed k (candidates s.now (flush_access c).rows) (flush_access c)
              listed.0 there (inr (inl reading))).2,
      )
    ]

    pub ensure_space-max_size : (ensure_space s needed c).0.max_size ≡ c.max_size
    unfolding flush_access
    ensure_space-max_size = elim (ensure_space-cases c) [
      | inl (same, end) ↦ rw same refl
      | inr (same, end) ↦ rw same (
          evict-max_size s needed (candidates s.now (flush_access c).rows) (flush_access c) listed.0
            there)
    ]
