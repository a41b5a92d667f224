-- ===== src/Cache/Metadata/Victims.antt =====
-- internal/cache/metadata.go: the rows that `ensureMetadataSpace` may evict, in their order, and a
-- rule for what its loop keeps.
use debswarm.Prelude.{
  ℕ, ◌-◌, ◌≡◌, refl, none, some, true, false, List, [], ◌∷◌, if◌then◌else◌, arith, GoString, str_eq,
  str_eq_self, eq_iff, Bool-cases, inl, inr, ◌⊎◌,
}
use debswarm.Prelude.Assoc.{Map, lookup, delete, Distinct, lookup-delete}
use debswarm.Cache.State.{System}
use debswarm.Cache.Metadata.{
  MetadataEntry, Metadata, insert_by_access, victims, fits, evict_metadata,
  delete_metadata_unlocked,
}

module _ (h : GoString) (r : MetadataEntry) where
  pub lookup-insert_by_access :
      (j : GoString) (m : Map MetadataEntry)
      → lookup h m ≡ none
      → lookup j (insert_by_access h r m) ≡ (if str_eq h j then some r else lookup j m)
  unfolding insert_by_access lookup
  lookup-insert_by_access j [] e = refl
  lookup-insert_by_access j ((i, q) ∷ m) e =
      ground (arith, eq_iff h j, eq_iff i j, eq_iff i h, lookup-insert_by_access j m)

  insert_by_access-Distinct :
      (m : Map MetadataEntry) → lookup h m ≡ none → Distinct m → Distinct (insert_by_access h r m)
  unfolding insert_by_access lookup
  insert_by_access-Distinct [] e d = (refl, tt)
  insert_by_access-Distinct ((i, q) ∷ m) e d =
      ground
        (arith, eq_iff h i, eq_iff i h, lookup-insert_by_access i m, insert_by_access-Distinct m)

-- The victims are the rows, each once.
pub victims-lookup :
    (m : Map MetadataEntry)
    → Distinct m
    → Distinct (victims m) × ((j : GoString) → lookup j (victims m) ≡ lookup j m)
unfolding victims lookup
victims-lookup [] d = (tt, λ j. refl)
victims-lookup ((h, r) ∷ m) d =
    let (ih, look) = victims-lookup m d.1 in
    let fresh : lookup h (victims m) ≡ none = rw (look h) d.0 in
    (
      insert_by_access-Distinct h r (victims m) fresh ih,
      λ j. ground (arith, look j, lookup-insert_by_access h r j (victims m) fresh),
    )

-- What an eviction does to the state.
abbrev pub drop_entry : (List ℕ → GoString) → GoString → MetadataEntry → Metadata → Metadata
drop_entry hash_bytes h r c = record c {
  files = delete (hash_bytes h) c.files;
  rows = delete h c.rows;
  metadata_size = c.metadata_size - r.size;
}

module _ (hash_bytes : List ℕ → GoString) (s : System) (size freed : ℕ) where
  -- One round of the loop: there is room, or the file cannot go, or it goes with its row.
  pub evict_metadata-cases :
      (h : GoString) (r : MetadataEntry) (rest : Map MetadataEntry) (c : Metadata)
      → ((fits size freed c ≡ true)
          × (evict_metadata hash_bytes s size freed ((h, r) ∷ rest) c ≡ c))
        ⊎ ((evict_metadata hash_bytes s size freed ((h, r) ∷ rest) c
              ≡ evict_metadata hash_bytes s size freed rest c)
            ⊎ ((fits size freed c ≡ false)
                × (evict_metadata hash_bytes s size freed ((h, r) ∷ rest) c
                    ≡ evict_metadata hash_bytes s size freed rest (drop_entry hash_bytes h r c))))
  unfolding evict_metadata delete_metadata_unlocked
  evict_metadata-cases h r rest c = elim (Bool-cases (fits size freed c)) [
    | inl e ↦ inl (e, ground arith)
    | inr e ↦ inr (elim (Bool-cases (s.locked (hash_bytes h))) [
      | inl g ↦ inl (ground arith)
      | inr g ↦ inr (e, ground arith)
    ])
  ]

  -- A property that each eviction of a row keeps, made only while there is no room, is kept by the
  -- loop.
  pub evict_metadata_rule :
      (P : Metadata → Type 0) (rest : Map MetadataEntry) (c : Metadata)
      → Distinct rest
      → ((j : GoString) (q : MetadataEntry) → lookup j rest ≡ some q → lookup j c.rows ≡ some q)
      → ((h : GoString) (r : MetadataEntry) (d : Metadata)
          → lookup h d.rows ≡ some r
          → fits size freed d ≡ false
          → P d
          → P (drop_entry hash_bytes h r d))
      → P c
      → P (evict_metadata hash_bytes s size freed rest c)
  unfolding evict_metadata lookup
  evict_metadata_rule P [] c d there keep p = p
  evict_metadata_rule P ((h, r) ∷ rest) c d there keep p = elim (evict_metadata-cases h r rest c) [
    | inl (room, same) ↦ rw same p
    | inr (inl skipped) ↦
        rw skipped (evict_metadata_rule P rest c d.1 (λ j q e. there j q (behind j q e)) keep p)
    | inr (inr (full, gone)) ↦ rw gone (
        evict_metadata_rule P rest (drop_entry hash_bytes h r c) d.1 left keep
          (keep h r c (there h r here) full p))
  ]
    where
      here : lookup h ((h, r) ∷ rest) ≡ some r
      here = rw (str_eq_self h, lookup) refl

      behind :
          (j : GoString) (q : MetadataEntry)
          → lookup j rest ≡ some q
          → lookup j ((h, r) ∷ rest) ≡ some q
      behind j q e = ground (arith, eq_iff h j, d.0)

      left :
          (j : GoString) (q : MetadataEntry)
          → lookup j rest ≡ some q
          → lookup j (delete h c.rows) ≡ some q
      left j q e =
          ground (arith, eq_iff h j, d.0, there j q (behind j q e), lookup-delete h j c.rows)
