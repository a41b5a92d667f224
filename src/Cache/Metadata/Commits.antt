-- ===== src/Cache/Metadata/Commits.antt =====
-- internal/cache/metadata.go: how a commit ends, what it counts, and what is read after it.
use debswarm.Prelude.{
  ℕ, ◌+◌, ◌-◌, ◌≤◌, ◌≡◌, ◌≢◌, refl, sym, ap, ◌∙◌, Option, none, some, true, List, ltb, arith,
  GoString, str_eq_self, eq_iff, Bool-cases, Option-cases, inl, inr, ◌⊎◌, length,
}
use mathlib.Core.Path.{subst}
use debswarm.Prelude.Assoc.{
  Map, lookup, insert, Distinct, lookup-delete, lookup-insert, weigh, weigh?, weigh-delete,
  weigh-insert, delete-Distinct,
}
use debswarm.Cache.State.{System}
use debswarm.Cache.Metadata.{
  MetadataEntry, Metadata, MetadataError, MetadataWriter, metadata_enabled, fits, old_size_if,
  ensure_metadata_space, evict_metadata, install_metadata, record_metadata, metadata_row,
  commit_metadata, matches, victims, get_metadata,
}
use debswarm.Cache.Metadata.Victims.{drop_entry, evict_metadata_rule, victims-lookup}

-- The bytes of all rows.
abbrev pub total : Metadata → ℕ
total c = weigh (λ e. e.size) c.rows

module _ (hash_bytes : List ℕ → GoString) (s : System) (w : MetadataWriter) where
  pub install_metadata-lookup :
      (files : Map (List ℕ)) (j : GoString) (bytes : List ℕ)
      → lookup j (install_metadata hash_bytes s w files).0 ≡ some bytes
      → (lookup j files ≡ some bytes) ⊎ ((hash_bytes w.url ≡ j) × (w.written ≡ bytes))
  unfolding install_metadata
  install_metadata-lookup files j bytes e = go (lookup (hash_bytes w.url) files) refl
    where
      go :
          (there : Option (List ℕ))
          → lookup (hash_bytes w.url) files ≡ there
          → (lookup j files ≡ some bytes) ⊎ ((hash_bytes w.url ≡ j) × (w.written ≡ bytes))
      go none f =
          ground
            (arith, eq_iff (hash_bytes w.url) j, lookup-insert (hash_bytes w.url) j w.written files)
      go (some b) f = ground (
        arith,
        eq_iff (hash_bytes w.url) j,
        lookup-insert (hash_bytes w.url) j w.written files,
        lookup-delete (hash_bytes w.url) j files,
      )

  pub install_metadata-there :
      (files : Map (List ℕ))
      → (install_metadata hash_bytes s w files).1 ≡ none
      → lookup (hash_bytes w.url) (install_metadata hash_bytes s w files).0 ≡ some w.written
  unfolding install_metadata
  install_metadata-there files e = go (lookup (hash_bytes w.url) files) refl
    where
      go :
          (there : Option (List ℕ))
          → lookup (hash_bytes w.url) files ≡ there
          → lookup (hash_bytes w.url) (install_metadata hash_bytes s w files).0 ≡ some w.written
      go none f = ground (
        arith,
        str_eq_self (hash_bytes w.url),
        lookup-insert (hash_bytes w.url) (hash_bytes w.url) w.written files,
      )
      go (some b) f = ground (
        arith,
        str_eq_self (hash_bytes w.url),
        lookup-insert (hash_bytes w.url) (hash_bytes w.url) w.written files,
      )

module _ (hash_bytes : List ℕ → GoString) (s : System) (w : MetadataWriter) (c : Metadata) where
  -- The row that is there before, the state with the space made, and the files behind the move.
  abbrev pub old_row : Option MetadataEntry
  old_row = lookup w.url c.rows

  abbrev pub with_space : Metadata
  with_space = (ensure_metadata_space hash_bytes s (length w.written) (old_size_if old_row) c).0

  abbrev pub moved : Metadata
  moved = record with_space { files = (install_metadata hash_bytes s w with_space.files).0 }

  -- A cache that keeps indices says that it could not keep this one.
  abbrev pub Fails : Type 0
  Fails = metadata_enabled c ≡ true → (commit_metadata hash_bytes s w c).1 ≢ none

  -- Nothing has changed, or space was made for nothing, or the move failed, or all went well.
  pub data Ends : Type 0 where
    unchanged : (commit_metadata hash_bytes s w c).0 ≡ c → Fails → Ends
    no_space : (commit_metadata hash_bytes s w c).0 ≡ with_space → Fails → Ends
    not_moved :
        (commit_metadata hash_bytes s w c).0 ≡ moved → matches hash_bytes w ≡ true → Fails → Ends
    committed :
        commit_metadata hash_bytes s w c ≡ (record_metadata s w old_row moved, none)
        → matches hash_bytes w ≡ true
        → fits (length w.written) (old_size_if old_row) with_space ≡ true
        → (install_metadata hash_bytes s w with_space.files).1 ≡ none
        → Ends

  ensure_metadata_space-fits :
      (ensure_metadata_space hash_bytes s (length w.written) (old_size_if old_row) c).1 ≡ none
      → fits (length w.written) (old_size_if old_row) with_space ≡ true
  unfolding ensure_metadata_space
  ensure_metadata_space-fits e = ground arith

  pub commit_metadata-Ends : Ends
  unfolding commit_metadata
  commit_metadata-Ends = elim (Bool-cases w.closes) [
    | inr e ↦ unchanged (ground arith) (λ k l. ground arith)
    | inl e ↦ elim (Bool-cases (matches hash_bytes w)) [
      | inr f ↦ unchanged (ground arith) (λ k l. ground arith)
      | inl f ↦ elim (Bool-cases (metadata_enabled c)) [
        | inr g ↦ unchanged (ground arith) (λ k l. ground arith)
        | inl g ↦ elim (Bool-cases (ltb c.metadata_max_size (length w.written))) [
          | inl h ↦ unchanged (ground arith) (λ k l. ground arith)
          | inr h ↦
              elim (Option-cases
                (ensure_metadata_space hash_bytes s (length w.written) (old_size_if old_row) c).1) [
                  | inr (err, i) ↦ no_space (ground arith) (λ k l. ground arith)
                  | inl i ↦
                      elim (Option-cases (install_metadata hash_bytes s w with_space.files).1) [
                        | inr (err, j) ↦ not_moved (ground arith) f (λ k l. ground arith)
                        | inl j ↦ committed (ground arith) f (ensure_metadata_space-fits i) j
                      ]
                ]
        ]
      ]
    ]
  ]

  with_space-cases :
      (with_space ≡ c)
      ⊎ (with_space
          ≡ evict_metadata hash_bytes s (length w.written) (old_size_if old_row) (victims c.rows) c)
  unfolding ensure_metadata_space
  with_space-cases = elim (Bool-cases (fits (length w.written) (old_size_if old_row) c)) [
    | inl room ↦ inl (ground arith)
    | inr full ↦ inr (ground arith)
  ]

  -- What holds before and is kept by each eviction of a row holds with the space made.
  pub with_space_rule :
      (P : Metadata → Type 0)
      → Distinct c.rows
      → ((h : GoString) (r : MetadataEntry) (d : Metadata)
          → lookup h d.rows ≡ some r
          → P d
          → P (drop_entry hash_bytes h r d))
      → P c
      → P with_space
  with_space_rule P distinct keep p =
      let (once, look) = victims-lookup c.rows distinct in
      let evicted =
        evict_metadata_rule hash_bytes s (length w.written) (old_size_if old_row) P (victims c.rows)
          c once (λ j q e. sym (look j) ∙ e) (λ h r d e full. keep h r d e) p in
      elim with_space-cases [
        | inl same ↦ subst P (sym same) p
        | inr gone ↦ subst P (sym gone) evicted
      ]

  -- The rows with the space made: they are counted, and the row of the URL is as before or gone.
  record Counted (d : Metadata) : Type 0 where
    once : Distinct d.rows
    counted : d.metadata_size ≡ total d
    budget : d.metadata_max_size ≡ c.metadata_max_size

  drop_entry-Counted :
      (h : GoString) (r : MetadataEntry) (d : Metadata)
      → lookup h d.rows ≡ some r
      → Counted d
      → Counted (drop_entry hash_bytes h r d)
  drop_entry-Counted h r d e k = record {
    once = delete-Distinct h d.rows k.once;
    counted =
        ground (arith, weigh-delete (λ (q : MetadataEntry). q.size) h d.rows k.once, k.counted);
    budget = k.budget;
  }

  with_space-Counted : Distinct c.rows → c.metadata_size ≡ total c → Counted with_space
  with_space-Counted once counted =
      with_space_rule Counted once drop_entry-Counted
        (record { once = once; counted = counted; budget = refl })

  record_metadata-total :
      (d : Metadata)
      → Counted d
      → total (record_metadata s w old_row d)
          + weigh? (λ (e : MetadataEntry). e.size) (lookup w.url d.rows)
        ≡ d.metadata_size + length w.written
  unfolding record_metadata
  record_metadata-total d k =
      weigh-insert (λ (e : MetadataEntry). e.size) w.url (metadata_row s w (lookup w.url d.rows))
        d.rows k.once
      ∙ ap (λ n. n + length w.written) (sym k.counted)

  -- A commit that succeeds in a cache that keeps indices and counts its rows keeps the count, and
  -- the rows fit into the budget, if no eviction has taken the row of the URL.
  pub commit_metadata-total :
      (c' : Metadata)
      → Distinct c.rows
      → c.metadata_size ≡ total c
      → metadata_enabled c ≡ true
      → commit_metadata hash_bytes s w c ≡ (c', none)
      → lookup w.url
          (ensure_metadata_space hash_bytes s
            (length w.written)
            (old_size_if (lookup w.url c.rows))
            c).0.rows
        ≡ lookup w.url c.rows
      → (c'.metadata_size ≡ total c') × (total c' ≤ c.metadata_max_size)
  unfolding record_metadata
  commit_metadata-total c' once counted on ok kept = elim commit_metadata-Ends [
    | unchanged e fails ↦ absurd (fails on (rw ok refl))
    | no_space e fails ↦ absurd (fails on (rw ok refl))
    | not_moved e f fails ↦ absurd (fails on (rw ok refl))
    | committed e f fit i ↦
        let k = with_space-Counted once counted in
        let same : c' ≡ record_metadata s w old_row moved =
          ap (λ (r : Metadata × Option MetadataError). r.0) (sym ok ∙ e) in
        let t =
          record_metadata-total moved
            (record { once = k.once; counted = k.counted; budget = k.budget }) in
        rw same (ground (arith, t, k.budget), ground (arith, t, k.budget))
  ]

  -- A commit that succeeds after an eviction of the row that it replaces takes the size of that row
  -- off twice: the count is below the rows by that size.
  pub commit_metadata_undercounts :
      (c' : Metadata) (old : MetadataEntry)
      → Distinct c.rows
      → c.metadata_size ≡ total c
      → metadata_enabled c ≡ true
      → commit_metadata hash_bytes s w c ≡ (c', none)
      → lookup w.url c.rows ≡ some old
      → lookup w.url
          (ensure_metadata_space hash_bytes s
            (length w.written)
            (old_size_if (lookup w.url c.rows))
            c).0.rows
        ≡ none
      → c'.metadata_size ≡ total c' - old.size
  unfolding record_metadata
  commit_metadata_undercounts c' old once counted on ok there gone = elim commit_metadata-Ends [
    | unchanged e fails ↦ absurd (fails on (rw ok refl))
    | no_space e fails ↦ absurd (fails on (rw ok refl))
    | not_moved e f fails ↦ absurd (fails on (rw ok refl))
    | committed e f fit i ↦
        let k = with_space-Counted once counted in
        let same : c' ≡ record_metadata s w old_row moved =
          ap (λ (r : Metadata × Option MetadataError). r.0) (sym ok ∙ e) in
        let t =
          record_metadata-total moved
            (record { once = k.once; counted = k.counted; budget = k.budget }) in
        rw same (ground (arith, t))
  ]

  with_space-budget : Distinct c.rows → with_space.metadata_max_size ≡ c.metadata_max_size
  with_space-budget once =
      with_space_rule (λ d. d.metadata_max_size ≡ c.metadata_max_size) once (λ h r d e same. same)
        refl

  -- What a commit that succeeds has stored, in a cache that keeps indices and has one row for each
  -- URL, is read back by the next call, if it can open the file: the bytes, and the validators of
  -- the writer.
  pub get_metadata-commit :
      (s' : System) (c' : Metadata)
      → Distinct c.rows
      → metadata_enabled c ≡ true
      → commit_metadata hash_bytes s w c ≡ (c', none)
      → s'.can_open (hash_bytes w.url) ≡ true
      → (e : MetadataEntry) × ((get_metadata hash_bytes s' w.url c').1 ≡ some (e, w.written))
        × (e.etag ≡ w.etag)
        × (e.last_modified ≡ w.last_modified)
        × (e.size ≡ length w.written)
  unfolding record_metadata get_metadata
  get_metadata-commit s' c' once on ok opens = elim commit_metadata-Ends [
    | unchanged e fails ↦ absurd (fails on (rw ok refl))
    | no_space e fails ↦ absurd (fails on (rw ok refl))
    | not_moved e f fails ↦ absurd (fails on (rw ok refl))
    | committed e f fit i ↦
        let budget = with_space-budget once in
        let same : c' ≡ record_metadata s w old_row moved =
          ap (λ (r : Metadata × Option MetadataError). r.0) (sym ok ∙ e) in
        let row = metadata_row s w (lookup w.url with_space.rows) in
        let file = install_metadata-there hash_bytes s w with_space.files i in
        let stored : lookup w.url (insert w.url row with_space.rows) ≡ some row =
          ground (arith, lookup-insert w.url w.url row with_space.rows, str_eq_self w.url) in
        rw same (row, ground (arith, budget, file, stored), refl, refl, refl)
  ]
