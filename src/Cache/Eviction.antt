-- ===== src/Cache/Eviction.antt =====
-- internal/cache/cache.go: the candidates of an eviction, and a rule for what the loop over them
-- keeps.
pub mod Loop
use debswarm.Prelude.{
  ℕ, ◌+◌, ◌-◌, ◌≤◌, ◌<◌, ◌≡◌, refl, Option, none, some, true, false, List, [], ◌∷◌, ltb, leb,
  if◌then◌else◌, arith, GoString, str_eq, str_eq_self, eq_iff, Bool-cases, inl, inr, ◌⊎◌,
}
use debswarm.Prelude.Assoc.{Map, lookup, delete, Distinct, lookup-delete}
use debswarm.Cache.State.{Row, Cache, System, readers_of}
use debswarm.Cache.Store.{
  Candidate, insert_by_score, candidates, is_candidate, evict, delete_unlocked,
}

module _ (h : GoString) (r : Row) where
  pub lookup-insert_by_score :
      (j : GoString) (m : List Candidate)
      → lookup h m ≡ none
      → lookup j (insert_by_score (h, r) m) ≡ (if str_eq h j then some r else lookup j m)
  unfolding insert_by_score lookup
  lookup-insert_by_score j [] e = refl
  lookup-insert_by_score j ((i, q) ∷ m) e =
      ground (arith, eq_iff h j, eq_iff i j, eq_iff i h, lookup-insert_by_score j m)

  insert_by_score-Distinct :
      (m : List Candidate) → lookup h m ≡ none → Distinct m → Distinct (insert_by_score (h, r) m)
  unfolding insert_by_score lookup
  insert_by_score-Distinct [] e d = (refl, tt)
  insert_by_score-Distinct ((i, q) ∷ m) e d =
      ground (arith, eq_iff h i, eq_iff i h, lookup-insert_by_score i m, insert_by_score-Distinct m)

abbrev pub candidate? : ℕ → Option Row → Option Row
candidate? now none = none
candidate? now (some r) = if is_candidate now r then some r else none

-- The candidates are the rows that may be evicted, each once.
pub candidates-lookup :
    (now : ℕ) (m : Map Row)
    → Distinct m
    → Distinct (candidates now m)
      × ((j : GoString) → lookup j (candidates now m) ≡ candidate? now (lookup j m))
unfolding candidates lookup
candidates-lookup now [] d = (tt, λ j. refl)
candidates-lookup now ((h, r) ∷ m) d =
    let (ih, look) = candidates-lookup now m d.1 in
    let fresh : lookup h (candidates now m) ≡ none = rw (look h) (rw d.0 refl) in
    (
      ground (arith, insert_by_score-Distinct h r (candidates now m)),
      λ j. ground (arith, eq_iff h j, look j, lookup-insert_by_score h r j (candidates now m)),
    )

-- What an eviction does to the state.
abbrev pub drop_package : GoString → Row → Cache → Cache
drop_package h r c = record c {
  files = delete h c.files;
  rows = delete h c.rows;
  current_size = c.current_size - r.size;
  evictions = c.evictions + 1;
}

-- One round of the loop: there is room, or the package cannot go, or it goes.
pub evict-cases :
    (s : System) (needed : ℕ) (h : GoString) (r : Row) (rest : List Candidate) (c : Cache)
    → ((c.current_size + needed ≤ c.max_size) × (evict s needed ((h, r) ∷ rest) c ≡ c))
      ⊎ ((((0 < readers_of h c) ⊎ (s.locked h ≡ true))
            × (evict s needed ((h, r) ∷ rest) c ≡ evict s needed rest c))
          ⊎ ((readers_of h c ≡ 0)
              × (s.locked h ≡ false)
              × (c.max_size < c.current_size + needed)
              × (evict s needed ((h, r) ∷ rest) c ≡ evict s needed rest (drop_package h r c))))
unfolding evict delete_unlocked
evict-cases s needed h r rest c = elim (Bool-cases (leb (c.current_size + needed) c.max_size)) [
  | inl e ↦ inl (ground arith, ground arith)
  | inr e ↦ inr (elim (Bool-cases (ltb 0 (readers_of h c))) [
    | inl f ↦ inl (inl (ground arith), ground arith)
    | inr f ↦ elim (Bool-cases (s.locked h)) [
      | inl g ↦ inl (inr g, ground arith)
      | inr g ↦ inr (ground arith, g, ground arith, ground arith)
    ]
  ])
]

-- A property that each eviction of a candidate keeps, which is there, not read and not locked, and
-- is only made while there is no room, is kept by the loop.
module _ (s : System) (needed : ℕ) (P : Cache → Type 0) where
  pub evict_rule :
      (all rest : List Candidate) (c : Cache)
      → Distinct rest
      → ((j : GoString) (q : Row) → lookup j rest ≡ some q → lookup j all ≡ some q)
      → ((j : GoString) (q : Row) → lookup j rest ≡ some q → lookup j c.rows ≡ some q)
      → ((h : GoString) (r : Row) (d : Cache)
          → lookup h all ≡ some r
          → lookup h d.rows ≡ some r
          → readers_of h d ≡ 0
          → s.locked h ≡ false
          → d.max_size < d.current_size + needed
          → P d
          → P (drop_package h r d))
      → P c
      → P (evict s needed rest c)
  unfolding evict lookup
  evict_rule all [] c d sub there keep p = p
  evict_rule all ((h, r) ∷ rest) c d sub there keep p = elim (evict-cases s needed h r rest c) [
    | inl (room, same) ↦ rw same p
    | inr (inl (stuck, skipped)) ↦ rw skipped (
        evict_rule all rest c d.1 (λ j q e. sub j q (behind j q e))
          (λ j q e. there j q (behind j q e)) keep p)
    | inr (inr (idle, free, full, gone)) ↦ rw gone (
        evict_rule all rest (drop_package h r c) d.1 (λ j q e. sub j q (behind j q e))
          (λ j q e. left j q e) keep (keep h r c (sub h r here) (there h r here) idle free full p))
  ]
    where
      here : lookup h ((h, r) ∷ rest) ≡ some r
      here = rw (str_eq_self h, lookup) refl

      behind : (j : GoString) (q : Row) → lookup j rest ≡ some q → lookup j ((h, r) ∷ rest) ≡ some q
      behind j q e = ground (arith, eq_iff h j, d.0)

      left : (j : GoString) (q : Row) → lookup j rest ≡ some q → lookup j (delete h c.rows) ≡ some q
      left j q e =
          ground (arith, eq_iff h j, d.0, there j q (behind j q e), lookup-delete h j c.rows)
