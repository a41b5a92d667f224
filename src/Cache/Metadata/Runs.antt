-- ===== src/Cache/Metadata/Runs.antt =====
-- internal/cache/metadata.go: the cache of indices under any sequence of calls. The parts of
-- `GetMetadata` behind its lock are calls of their own, since others may come between.
use debswarm.Prelude.{
  ℕ, ◌-◌, ◌≤◌, ◌≡◌, refl, sym, Option, none, some, true, false, List, [], ◌∷◌, arith, GoString,
  eq_iff, Bool-cases, inl, inr, ◌⊎◌,
}
use mathlib.Core.Path.{subst}
use debswarm.Prelude.Assoc.{
  lookup, insert, delete, Distinct, lookup-delete, weigh?, weigh-delete, weigh-insert,
  delete-Distinct, insert-Distinct,
}
use debswarm.Cache.State.{System}
use debswarm.Cache.Metadata.{
  MetadataEntry, Metadata, MetadataError, MetadataWriter, by_hash_sha256, matches, metadata_enabled,
  old_size_if, set_metadata_max_size, touch_metadata, drop_metadata_row, revalidate_metadata,
  record_metadata, metadata_row, commit, commit_metadata,
}
use debswarm.Cache.Metadata.Victims.{drop_entry}
use debswarm.Cache.Metadata.Commits.{
  total, commit_metadata-Ends, unchanged, no_space, not_moved, committed, with_space,
  with_space_rule, moved, old_row, install_metadata-lookup,
}

pub data MetadataCall : Type 0 where
  touch drop_row : GoString → MetadataCall
  revalidate : GoString → GoString → GoString → MetadataCall
  finish_write : MetadataWriter → MetadataCall
  set_max_size : ℕ → MetadataCall

unfoldable pub metadata_step : (List ℕ → GoString) → System → MetadataCall → Metadata → Metadata
metadata_step hash_bytes s (touch url) c = touch_metadata hash_bytes s url c
metadata_step hash_bytes s (drop_row url) c = drop_metadata_row hash_bytes url c
metadata_step hash_bytes s (revalidate url etag modified) c =
    revalidate_metadata hash_bytes s url etag modified c
metadata_step hash_bytes s (finish_write w) c = (commit hash_bytes s w c).0.0
metadata_step hash_bytes s (set_max_size n) c = set_metadata_max_size n c

unfoldable pub metadata_run :
    (List ℕ → GoString) → List (System × MetadataCall) → Metadata → Metadata
unfolding metadata_step
metadata_run hash_bytes [] c = c
metadata_run hash_bytes ((s, call) ∷ calls) c =
    metadata_run hash_bytes calls (metadata_step hash_bytes s call c)

-- A URL is among those in use.
abbrev pub Among : GoString → List GoString → Type 0
Among url [] = ⊥
Among url (u ∷ urls) = (url ≡ u) ⊎ Among url urls

-- No two of the URLs in use have the same hash.
abbrev pub NoClash : (List ℕ → GoString) → List GoString → Type 0
NoClash hash_bytes urls =
    (u v : GoString) → Among u urls → Among v urls → hash_bytes u ≡ hash_bytes v → u ≡ v

-- Each writer whose writes end in one of these calls is for one of the URLs in use.
abbrev pub Within : List GoString → MetadataCall → Type 0
Within urls (finish_write w) = Among w.url urls
Within urls (touch url) = Unit
Within urls (drop_row url) = Unit
Within urls (revalidate url etag modified) = Unit
Within urls (set_max_size n) = Unit

abbrev pub AllWithin : List GoString → List (System × MetadataCall) → Type 0
AllWithin urls [] = Unit
AllWithin urls ((s, call) ∷ calls) = Within urls call × AllWithin urls calls

-- The size that is counted is not above that of the rows, and a file of a by-hash URL in use has
-- the hash in the URL.
pub record Trustworthy (hash_bytes : List ℕ → GoString) (urls : List GoString) (c : Metadata)
    : Type 0 where
  pub once : Distinct c.rows
  pub at_most : c.metadata_size ≤ total c
  pub intact :
      (url expected : GoString) (bytes : List ℕ)
      → Among url urls
      → by_hash_sha256 url ≡ some expected
      → lookup (hash_bytes url) c.files ≡ some bytes
      → hash_bytes bytes ≡ expected

module _ (hash_bytes : List ℕ → GoString) (urls : List GoString)
    (no_clash : NoClash hash_bytes urls) where
  -- A row that gets a value of the same size.
  same_size-Trustworthy :
      (url : GoString) (e e' : MetadataEntry) (c : Metadata)
      → lookup url c.rows ≡ some e
      → e'.size ≡ e.size
      → Trustworthy hash_bytes urls c
      → Trustworthy hash_bytes urls (record c { rows = insert url e' c.rows })
  same_size-Trustworthy url e e' c there same t = record {
    once = insert-Distinct url e' c.rows t.once;
    at_most =
        ground
          (arith, weigh-insert (λ (q : MetadataEntry). q.size) url e' c.rows t.once, t.at_most);
    intact = t.intact;
  }

  gone-Trustworthy :
      (url : GoString) (e : MetadataEntry) (c : Metadata)
      → lookup url c.rows ≡ some e
      → Trustworthy hash_bytes urls c
      → Trustworthy hash_bytes urls
          (record c { rows = delete url c.rows; metadata_size = c.metadata_size - e.size })
  gone-Trustworthy url e c there t = record {
    once = delete-Distinct url c.rows t.once;
    at_most =
        ground (arith, weigh-delete (λ (q : MetadataEntry). q.size) url c.rows t.once, t.at_most);
    intact = t.intact;
  }

  drop_entry-Trustworthy :
      (url : GoString) (e : MetadataEntry) (c : Metadata)
      → lookup url c.rows ≡ some e
      → Trustworthy hash_bytes urls c
      → Trustworthy hash_bytes urls (drop_entry hash_bytes url e c)
  drop_entry-Trustworthy url e c at t =
      let g = gone-Trustworthy url e c at t in
      record {
        once = g.once;
        at_most = g.at_most;
        intact = λ u expected bytes there f k.
            t.intact u expected bytes there f
              (ground (arith, lookup-delete (hash_bytes url) (hash_bytes u) c.files));
      }

  touch-Trustworthy :
      (s : System) (url : GoString) (c : Metadata)
      → Trustworthy hash_bytes urls c
      → Trustworthy hash_bytes urls (touch_metadata hash_bytes s url c)
  unfolding touch_metadata
  touch-Trustworthy s url c t = go (lookup url c.rows) refl
    where
      go :
          (row : Option MetadataEntry)
          → lookup url c.rows ≡ row
          → Trustworthy hash_bytes urls (touch_metadata hash_bytes s url c)
      go none e = rw (e, touch_metadata) t
      go (some r) e = rw (e, touch_metadata) (same_size-Trustworthy url r _ c e refl t)

  drop_row-Trustworthy :
      (url : GoString) (c : Metadata)
      → Trustworthy hash_bytes urls c
      → Trustworthy hash_bytes urls (drop_metadata_row hash_bytes url c)
  unfolding drop_metadata_row
  drop_row-Trustworthy url c t = go (lookup url c.rows) refl
    where
      go :
          (row : Option MetadataEntry)
          → lookup url c.rows ≡ row
          → Trustworthy hash_bytes urls (drop_metadata_row hash_bytes url c)
      go none e = rw (e, drop_metadata_row) t
      go (some r) e = rw (e, drop_metadata_row) (gone-Trustworthy url r c e t)

  revalidate-Trustworthy :
      (s : System) (url etag modified : GoString) (c : Metadata)
      → Trustworthy hash_bytes urls c
      → Trustworthy hash_bytes urls (revalidate_metadata hash_bytes s url etag modified c)
  unfolding revalidate_metadata
  revalidate-Trustworthy s url etag modified c t =
      go (lookup url c.rows) refl (Bool-cases (metadata_enabled c))
    where
      go :
          (row : Option MetadataEntry)
          → lookup url c.rows ≡ row
          → (metadata_enabled c ≡ true) ⊎ (metadata_enabled c ≡ false)
          → Trustworthy hash_bytes urls (revalidate_metadata hash_bytes s url etag modified c)
      go row e (inr off) = rw (off, revalidate_metadata) t
      go none e (inl on) = rw (on, e, revalidate_metadata) t
      go (some r) e (inl on) =
          rw (on, e, revalidate_metadata) (same_size-Trustworthy url r _ c e refl t)

  moved-Trustworthy :
      (s : System) (w : MetadataWriter) (c : Metadata)
      → Among w.url urls
      → matches hash_bytes w ≡ true
      → Trustworthy hash_bytes urls (with_space hash_bytes s w c)
      → Trustworthy hash_bytes urls (moved hash_bytes s w c)
  moved-Trustworthy s w c used f t = record {
    once = t.once;
    at_most = t.at_most;
    intact = λ url expected bytes u e k.
        elim (install_metadata-lookup hash_bytes s w _ (hash_bytes url) bytes k) [
          | inl there ↦ t.intact url expected bytes u e there
          | inr (same, written) ↦
              let url_same : w.url ≡ url = no_clash w.url url used u same in
              let asked : by_hash_sha256 w.url ≡ some expected = rw url_same e in
              rw (sym written) (ground (arith, eq_iff (hash_bytes w.written) expected))
        ];
  }

  recorded-Trustworthy :
      (s : System) (w : MetadataWriter) (old : Option MetadataEntry) (d : Metadata)
      → weigh? (λ (e : MetadataEntry). e.size) (lookup w.url d.rows) ≤ old_size_if old
      → Trustworthy hash_bytes urls d
      → Trustworthy hash_bytes urls (record_metadata s w old d)
  unfolding record_metadata
  recorded-Trustworthy s w old d smaller t = record {
    once = insert-Distinct w.url _ d.rows t.once;
    at_most = ground (
      arith,
      weigh-insert (λ (q : MetadataEntry). q.size) w.url (metadata_row s w (lookup w.url d.rows))
          d.rows t.once,
      t.at_most,
    );
    intact = t.intact;
  }

  -- The row of the URL weighs no more once space is made.
  with_space-lighter :
      (s : System) (w : MetadataWriter) (c : Metadata)
      → Distinct c.rows
      → weigh? (λ (e : MetadataEntry). e.size) (lookup w.url (with_space hash_bytes s w c).rows)
        ≤ old_size_if (lookup w.url c.rows)
  with_space-lighter s w c once =
      with_space_rule hash_bytes s w c
        (λ d.
          weigh? (λ (e : MetadataEntry). e.size) (lookup w.url d.rows)
          ≤ old_size_if (lookup w.url c.rows))
        once (λ h r d e p. ground (arith, lookup-delete h w.url d.rows))
        (start (lookup w.url c.rows))
    where
      start :
          (row : Option MetadataEntry)
          → weigh? (λ (e : MetadataEntry). e.size) row ≤ old_size_if row
      start none = omega arith
      start (some e) = omega arith

  commit_metadata-Trustworthy :
      (s : System) (w : MetadataWriter) (c : Metadata)
      → Among w.url urls
      → Trustworthy hash_bytes urls c
      → Trustworthy hash_bytes urls (commit_metadata hash_bytes s w c).0
  commit_metadata-Trustworthy s w c used t =
      let space =
        with_space_rule hash_bytes s w c (Trustworthy hash_bytes urls) t.once
          (λ h r d e. drop_entry-Trustworthy h r d e) t in
      elim (commit_metadata-Ends hash_bytes s w c) [
        | unchanged e fails ↦ subst (Trustworthy hash_bytes urls) (sym e) t
        | no_space e fails ↦ subst (Trustworthy hash_bytes urls) (sym e) space
        | not_moved e f fails ↦
            subst (Trustworthy hash_bytes urls) (sym e) (moved-Trustworthy s w c used f space)
        | committed e f fit i ↦
            subst (λ (r : Metadata × Option MetadataError). Trustworthy hash_bytes urls r.0) (sym e)
              (recorded-Trustworthy s w (old_row hash_bytes s w c) (moved hash_bytes s w c)
                (with_space-lighter s w c t.once) (moved-Trustworthy s w c used f space))
      ]

  commit-Trustworthy :
      (s : System) (w : MetadataWriter) (c : Metadata)
      → Among w.url urls
      → Trustworthy hash_bytes urls c
      → Trustworthy hash_bytes urls (commit hash_bytes s w c).0.0
  unfolding commit
  commit-Trustworthy s w c used t = elim (Bool-cases w.done) [
    | inl e ↦ rw (e, commit) t
    | inr e ↦ rw (e, commit) (commit_metadata-Trustworthy s w c used t)
  ]

  metadata_step-Trustworthy :
      (s : System) (call : MetadataCall) (c : Metadata)
      → Within urls call
      → Trustworthy hash_bytes urls c
      → Trustworthy hash_bytes urls (metadata_step hash_bytes s call c)
  unfolding metadata_step set_metadata_max_size
  metadata_step-Trustworthy s (touch url) c used t = touch-Trustworthy s url c t
  metadata_step-Trustworthy s (drop_row url) c used t = drop_row-Trustworthy url c t
  metadata_step-Trustworthy s (revalidate url etag modified) c used t =
      revalidate-Trustworthy s url etag modified c t
  metadata_step-Trustworthy s (finish_write w) c used t = commit-Trustworthy s w c used t
  metadata_step-Trustworthy s (set_max_size n) c used t = record {
    once = t.once;
    at_most = t.at_most;
    intact = t.intact;
  }

  -- Any calls in any order, from a state with this property, keep it: the size that is counted is
  -- at most that of the rows, and a file of a by-hash URL in use has the hash in the URL; where the
  -- URLs in use have those of all writers among them, and no two of them have the same hash.
  pub metadata_run-Trustworthy :
      (calls : List (System × MetadataCall)) (c : Metadata)
      → AllWithin urls calls
      → Trustworthy hash_bytes urls c
      → Trustworthy hash_bytes urls (metadata_run hash_bytes calls c)
  unfolding metadata_run
  metadata_run-Trustworthy [] c used t = t
  metadata_run-Trustworthy ((s, call) ∷ calls) c (here, used) t =
      metadata_run-Trustworthy calls (metadata_step hash_bytes s call c) used
        (metadata_step-Trustworthy s call c here t)
