-- ===== src/Cache/Eviction/Loop.antt =====
-- internal/cache/cache.go: the whole loop of an eviction: what it spares, when it ends without room,
-- and the order in which packages go.
use debswarm.Prelude.{
  ℕ, ◌+◌, ◌≤◌, ◌<◌, ◌≡◌, ◌≢◌, refl, ap, none, some, true, false, List, [], ◌∷◌, ltb, arith,
  GoString, str_eq, eq_iff, Bool-cases, inl, inr, ◌⊎◌,
}
use debswarm.Prelude.Assoc.{Map, lookup, delete, Distinct, lookup-delete}
use debswarm.Cache.State.{Row, Cache, System, readers_of}
use debswarm.Cache.Store.{Candidate, evict, candidates, is_candidate, score, insert_by_score}
use debswarm.Cache.Eviction.{
  drop_package, evict-cases, evict_rule, candidates-lookup, lookup-insert_by_score,
}

-- The scores go up.
abbrev pub Ascending : List Candidate → Type 0
Ascending [] = Unit
Ascending ((h, r) ∷ m) =
    ((k : GoString) (q : Row) → lookup k m ≡ some q → score r ≤ score q) × Ascending m

insert_by_score-Ascending :
    (h : GoString) (r : Row) (m : List Candidate)
    → lookup h m ≡ none
    → Ascending m
    → Ascending (insert_by_score (h, r) m)
unfolding insert_by_score lookup
insert_by_score-Ascending h r [] e up = (λ k q f. cc, tt)
insert_by_score-Ascending h r ((i, p) ∷ m) e up = elim (Bool-cases (ltb (score p) (score r))) [
  | inl above ↦ rw above (
    λ k q f. ground (arith, lookup-insert_by_score h r k m, up.0 k q, eq_iff h i, eq_iff i h),
    insert_by_score-Ascending h r m (ground arith) up.1,
  )
  | inr below ↦ rw below (λ k q f. ground (arith, up.0 k q), up)
]

pub candidates-Ascending : (now : ℕ) (m : Map Row) → Distinct m → Ascending (candidates now m)
unfolding candidates
candidates-Ascending now [] d = tt
candidates-Ascending now ((h, r) ∷ m) d = elim (Bool-cases (is_candidate now r)) [
  | inl e ↦ rw e (
      insert_by_score-Ascending h r (candidates now m)
        (rw ((candidates-lookup now m d.1).1 h) (rw d.0 refl)) (candidates-Ascending now m d.1))
  | inr e ↦ rw e (candidates-Ascending now m d.1)
]

module _ (s : System) (needed : ℕ) where
  -- What the loop cannot take: no candidate, or in use, or locked.
  pub evict-spares :
      (k : GoString) (cands : List Candidate) (c : Cache)
      → Distinct cands
      → ((j : GoString) (q : Row) → lookup j cands ≡ some q → lookup j c.rows ≡ some q)
      → (lookup k cands ≡ none) ⊎ ((0 < readers_of k c) ⊎ (s.locked k ≡ true))
      → ((evict s needed cands c).active_readers ≡ c.active_readers)
        × (lookup k (evict s needed cands c).rows ≡ lookup k c.rows)
        × (lookup k (evict s needed cands c).files ≡ lookup k c.files)
  evict-spares k cands c once there spared =
      evict_rule s needed
        (λ d.
          (d.active_readers ≡ c.active_readers)
          × (lookup k d.rows ≡ lookup k c.rows)
          × (lookup k d.files ≡ lookup k c.files))
        cands cands c once (λ j q e. e) there step (refl, refl, refl)
    where
      step :
          (h : GoString) (r : Row) (d : Cache)
          → lookup h cands ≡ some r
          → lookup h d.rows ≡ some r
          → readers_of h d ≡ 0
          → s.locked h ≡ false
          → d.max_size < d.current_size + needed
          → (d.active_readers ≡ c.active_readers)
            × (lookup k d.rows ≡ lookup k c.rows)
            × (lookup k d.files ≡ lookup k c.files)
          → (d.active_readers ≡ c.active_readers)
            × (lookup k (delete h d.rows) ≡ lookup k c.rows)
            × (lookup k (delete h d.files) ≡ lookup k c.files)
      step h r d listed there idle free full (readers, rows, files) = (
        readers,
        ground (arith, other, lookup-delete h k d.rows),
        ground (arith, other, lookup-delete h k d.files),
      )
        where
          same_readers : readers_of h d ≡ readers_of h c
          same_readers = rw readers refl

          other : str_eq h k ≡ false
          other = ground (arith, eq_iff h k, same_readers)

  pub evict-readers :
      (cands : List Candidate) (c : Cache)
      → Distinct cands
      → ((j : GoString) (q : Row) → lookup j cands ≡ some q → lookup j c.rows ≡ some q)
      → (evict s needed cands c).active_readers ≡ c.active_readers
  evict-readers cands c once there =
      evict_rule s needed (λ d. d.active_readers ≡ c.active_readers) cands cands c once (λ j q e. e)
        there (λ h r d listed at idle free full same. same) refl

  pub evict-max_size :
      (cands : List Candidate) (c : Cache)
      → Distinct cands
      → ((j : GoString) (q : Row) → lookup j cands ≡ some q → lookup j c.rows ≡ some q)
      → (evict s needed cands c).max_size ≡ c.max_size
  evict-max_size cands c once there =
      evict_rule s needed (λ d. d.max_size ≡ c.max_size) cands cands c once (λ j q e. e) there
        (λ h r d listed at idle free full same. same) refl

  evict-adds_none :
      (k : GoString) (cands : List Candidate) (c : Cache)
      → Distinct cands
      → ((j : GoString) (q : Row) → lookup j cands ≡ some q → lookup j c.rows ≡ some q)
      → lookup k c.rows ≡ none
      → lookup k (evict s needed cands c).rows ≡ none
  evict-adds_none k cands c once there e =
      evict_rule s needed (λ d. lookup k d.rows ≡ none) cands cands c once (λ j q f. f) there
        (λ h r d listed at idle free full gone. ground (arith, lookup-delete h k d.rows)) e

  -- A loop that ends without room has met each candidate, and what is left could not go.
  pub evict-leaves :
      (k : GoString) (q : Row) (cands : List Candidate) (c : Cache)
      → Distinct cands
      → ((j : GoString) (r : Row) → lookup j cands ≡ some r → lookup j c.rows ≡ some r)
      → lookup k cands ≡ some q
      → (evict s needed cands c).max_size < (evict s needed cands c).current_size + needed
      → lookup k (evict s needed cands c).rows ≢ none
      → (0 < readers_of k c) ⊎ (s.locked k ≡ true)
  unfolding lookup
  evict-leaves k q [] c once there listed full left = cc
  evict-leaves k q ((h, r) ∷ rest) c once there listed full left =
      elim (evict-cases s needed h r rest c) [
        | inl (room, e) ↦
            let full' : c.max_size < c.current_size + needed = rw e at full in absurd (omega arith)
        | inr (inl (stuck, e)) ↦ elim (Bool-cases (str_eq h k)) [
          | inl same ↦ rw (← (eq_iff h k).0 same) stuck
          | inr other ↦
              evict-leaves k q rest c once.1 further (ground arith) (rw e at full) (rw e at left)
        ]
        | inr (inr (idle, free, no_room, e)) ↦ elim (Bool-cases (str_eq h k)) [
          | inl same ↦ absurd (
              (rw e at left) (
                evict-adds_none k rest (drop_package h r c) once.1 beyond
                  (ground (arith, lookup-delete h k c.rows))))
          | inr other ↦
              evict-leaves k q rest (drop_package h r c) once.1 beyond (ground arith) (rw e at full)
                (rw e at left)
        ]
      ]
    where
      further : (j : GoString) (p : Row) → lookup j rest ≡ some p → lookup j c.rows ≡ some p
      further j p f = ground (arith, eq_iff h j, once.0, there j p)

      beyond :
          (j : GoString) (p : Row) → lookup j rest ≡ some p → lookup j (delete h c.rows) ≡ some p
      beyond j p f = ground (arith, eq_iff h j, once.0, there j p, lookup-delete h j c.rows)

  -- The candidates by score: what goes leaves none behind of a lower score that could go.
  pub evict-in_order :
      (h k : GoString) (r q : Row) (cands : List Candidate) (c : Cache)
      → Distinct cands
      → Ascending cands
      → ((j : GoString) (p : Row) → lookup j cands ≡ some p → lookup j c.rows ≡ some p)
      → lookup h cands ≡ some r
      → lookup k cands ≡ some q
      → score q < score r
      → lookup h (evict s needed cands c).rows ≡ none
      → (lookup k (evict s needed cands c).rows ≡ none)
        ⊎ ((0 < readers_of k c) ⊎ (s.locked k ≡ true))
  unfolding lookup
  evict-in_order h k r q [] c once up there first second lower gone = cc
  evict-in_order h k r q ((a, p) ∷ rest) c once up there first second lower gone =
      elim (evict-cases s needed a p rest c) [
        | inl (room, e) ↦ absurd (stays (rw e at gone))
        | inr (inl (stuck, e)) ↦ elim (Bool-cases (str_eq a k)) [
          | inl same ↦ inr (rw (← (eq_iff a k).0 same) stuck)
          | inr other ↦ elim (Bool-cases (str_eq a h)) [
            | inl same ↦ absurd (kept same (rw e at gone))
            | inr more ↦ rw e (
                evict-in_order h k r q rest c once.1 up.1 further (ground arith) (ground arith)
                  lower (rw e at gone))
          ]
        ]
        | inr (inr (idle, free, no_room, e)) ↦ elim (Bool-cases (str_eq a k)) [
          | inl same ↦ inl (
              rw e (
                evict-adds_none k rest (drop_package a p c) once.1 beyond
                  (ground (arith, lookup-delete a k c.rows))))
          | inr other ↦ elim (Bool-cases (str_eq a h)) [
            | inl same ↦
                let least = up.0 k q (ground arith) in
                let it : p ≡ r = ground arith in absurd (omega (arith, ap score it))
            | inr more ↦ rw e (
                evict-in_order h k r q rest (drop_package a p c) once.1 up.1 beyond (ground arith)
                  (ground arith) lower (rw e at gone))
          ]
        ]
      ]
    where
      further : (j : GoString) (p' : Row) → lookup j rest ≡ some p' → lookup j c.rows ≡ some p'
      further j p' f = ground (arith, eq_iff a j, once.0, there j p')

      beyond :
          (j : GoString) (p' : Row) → lookup j rest ≡ some p' → lookup j (delete a c.rows) ≡ some p'
      beyond j p' f = ground (arith, eq_iff a j, once.0, there j p', lookup-delete a j c.rows)

      stays : lookup h c.rows ≢ none
      stays f = ground (arith, there h r first)

      kept : str_eq a h ≡ true → lookup h (evict s needed rest c).rows ≢ none
      kept same f =
          let (readers, rows, files) =
            evict-spares h rest c once.1 further (inl (ground (arith, eq_iff a h, once.0))) in
          ground (arith, there h r first)
