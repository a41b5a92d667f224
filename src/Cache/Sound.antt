-- ===== src/Cache/Sound.antt =====
-- internal/cache/cache.go: the invariant of the cache on the disk and in the table, which every
-- operation keeps.
use debswarm.Prelude.{
  ℕ, ◌+◌, ◌≡◌, ◌≢◌, refl, sym, ap, ◌∙◌, Option, none, some, true, false, List, arith, length,
  GoString, str_eq, eq_iff, Option-cases, Bool-cases, inl, inr,
}
use debswarm.Prelude.Assoc.{
  Map, lookup, insert, Distinct, lookup-delete, lookup-insert, delete-Distinct, insert-Distinct,
  weigh-delete, weigh-insert, weigh?,
}
use debswarm.Cache.State.{Row, Cache, System, update_row, pin, unpin, mark_announced, new}
use debswarm.Cache.Access.{Reader, get, close, flush_access, apply_all}
use debswarm.Cache.Rows.{
  total, lookup-update_row, update_row-Distinct, total-update_row, apply_all-Distinct,
  total-apply_all, apply_all-Accessed, Accessed?,
}
use debswarm.Cache.Store.{
  delete_package, ensure_space, evict, candidates, record_package, upsert, commit_verified_file,
  put, put_file,
}
use debswarm.Cache.DebFilename.{DebName, parse_deb_filename}
use debswarm.Cache.Ends.{delete_package-cases, commit-cases}
use debswarm.Cache.Eviction.{drop_package, evict_rule, candidates-lookup}

-- The size that is counted is that of the rows, each file has the hash that it stands under, and
-- each row has its file.
pub record Sound (hash_bytes : List ℕ → GoString) (c : Cache) : Type 0 where
  pub distinct : Distinct c.rows
  pub counted : c.current_size ≡ total c.rows
  pub intact :
      (h : GoString) (bytes : List ℕ) → lookup h c.files ≡ some bytes → hash_bytes bytes ≡ h
  pub stored : (h : GoString) → lookup h c.files ≡ none → lookup h c.rows ≡ none

upsert-size :
    (now size : ℕ) (filename : GoString) (name : DebName) (o : Option Row)
    → (upsert now size filename name o).size ≡ size
unfolding upsert
upsert-size now size filename name none = refl
upsert-size now size filename name (some r) = refl

-- No row is made by a flush.
Accessed?-none : (a b : Option Row) → a ≡ none → Accessed? a b → b ≡ none
Accessed?-none none none e u = refl
Accessed?-none (some a) b e u = cc
Accessed?-none none (some b) e u = absurd u

module _ (hash_bytes : List ℕ → GoString) where
  -- An UPDATE that keeps the size of a row.
  update_row-Sound :
      (h : GoString) (f : Row → Row) (c : Cache)
      → ((r : Row) → (f r).size ≡ r.size)
      → Sound hash_bytes c
      → Sound hash_bytes (record c { rows = update_row h f c.rows })
  update_row-Sound h f c same w = record {
    distinct = update_row-Distinct h f c.rows w.distinct;
    counted = w.counted ∙ sym (total-update_row h f c.rows w.distinct same);
    intact = w.intact;
    stored = λ j e. ground (arith, lookup-update_row h f j c.rows, w.stored j);
  }

  pub pin-Sound : (h : GoString) (c : Cache) → Sound hash_bytes c → Sound hash_bytes (pin h c).0
  unfolding pin
  pin-Sound h c w = elim (Option-cases (lookup h c.rows)) [
    | inl e ↦ rw (e, pin) w
    | inr (r, e) ↦
        rw (e, pin) (update_row-Sound h (λ q. record q { pinned = true }) c (λ q. refl) w)
  ]

  pub unpin-Sound : (h : GoString) (c : Cache) → Sound hash_bytes c → Sound hash_bytes (unpin h c).0
  unfolding unpin
  unpin-Sound h c w = elim (Option-cases (lookup h c.rows)) [
    | inl e ↦ rw (e, unpin) w
    | inr (r, e) ↦
        rw (e, unpin) (update_row-Sound h (λ q. record q { pinned = false }) c (λ q. refl) w)
  ]

  pub mark_announced-Sound :
      (s : System) (h : GoString) (c : Cache)
      → Sound hash_bytes c
      → Sound hash_bytes (mark_announced s h c)
  unfolding mark_announced
  mark_announced-Sound s h c w =
      update_row-Sound h (λ r. record r { announced = s.now }) c (λ r. refl) w

  pub flush_access-Sound : (c : Cache) → Sound hash_bytes c → Sound hash_bytes (flush_access c)
  unfolding flush_access
  flush_access-Sound c w = record {
    distinct = apply_all-Distinct c.pending_access c.rows w.distinct;
    counted = w.counted ∙ sym (total-apply_all c.pending_access c.rows w.distinct);
    intact = w.intact;
    stored = λ h e.
        Accessed?-none (lookup h c.rows) (lookup h (apply_all c.pending_access c.rows))
          (w.stored h e) (apply_all-Accessed c.pending_access c.rows h);
  }

  drop_package-Sound :
      (h : GoString) (r : Row) (c : Cache)
      → lookup h c.rows ≡ some r
      → Sound hash_bytes c
      → Sound hash_bytes (drop_package h r c)
  drop_package-Sound h r c e w = record {
    distinct = delete-Distinct h c.rows w.distinct;
    counted = ground (arith, weigh-delete (λ (q : Row). q.size) h c.rows w.distinct, w.counted);
    intact = λ j bytes f. ground (arith, lookup-delete h j c.files, w.intact j bytes);
    stored = λ j f. ground (arith, lookup-delete h j c.files, lookup-delete h j c.rows, w.stored j);
  }

  pub delete_package-Sound :
      (s : System) (h : GoString) (c : Cache)
      → Sound hash_bytes c
      → Sound hash_bytes (delete_package s h c).0
  unfolding delete_package
  delete_package-Sound s h c w = elim (delete_package-cases s h c) [
    | inl (reading, e) ↦ rw e w
    | inr (inl (held, e)) ↦ rw e w
    | inr (inr (idle, free, e)) ↦ rw e (record {
      distinct = delete-Distinct h c.rows w.distinct;
      counted = ground (arith, weigh-delete (λ (q : Row). q.size) h c.rows w.distinct, w.counted);
      intact = λ j bytes f. ground (arith, lookup-delete h j c.files, w.intact j bytes);
      stored =
          λ j f. ground (arith, lookup-delete h j c.files, lookup-delete h j c.rows, w.stored j);
    })
  ]

  ensure_space-Sound :
      (s : System) (needed : ℕ) (c : Cache)
      → Sound hash_bytes c
      → Sound hash_bytes (ensure_space s needed c).0
  unfolding ensure_space
  ensure_space-Sound s needed c w =
      ground (arith, flush_access-Sound c w, evicted (flush_access c) (flush_access-Sound c w))
    where
      evicted :
          (d : Cache)
          → Sound hash_bytes d
          → Sound hash_bytes (evict s needed (candidates s.now d.rows) d)
      evicted d v =
          let (once, look) = candidates-lookup s.now d.rows v.distinct in
          evict_rule s needed (Sound hash_bytes) (candidates s.now d.rows) (candidates s.now d.rows)
            d once (λ j q e. e) (λ j q e. ground (arith, look j))
            (λ h r b listed there idle free full k. drop_package-Sound h r b there k) v

  -- The row comes in once the file is there.
  record_package-Sound :
      (s : System) (h filename : GoString) (size : ℕ) (c : Cache) (files : Map (List ℕ))
      → Distinct c.rows
      → c.current_size ≡ total c.rows
      → ((j : GoString) (bytes : List ℕ) → lookup j files ≡ some bytes → hash_bytes bytes ≡ j)
      → ((j : GoString) → lookup j files ≡ none → lookup j c.rows ≡ none)
      → lookup h files ≢ none
      → Sound hash_bytes (record_package s h filename size (record c { files = files }))
  unfolding record_package
  record_package-Sound s h filename size c files d n i k there = record {
    distinct = insert-Distinct h row c.rows d;
    counted = elim (Option-cases (lookup h c.rows)) [
      | inl e ↦ ground (arith, weighed, e)
      | inr (r, e) ↦ ground (arith, weighed, e, weigh-delete (λ (q : Row). q.size) h c.rows d)
    ];
    intact = i;
    stored = λ j e. ground (arith, lookup-insert h j row c.rows, eq_iff h j, k j, there);
  }
    where
      row : Row
      row = upsert s.now size filename (parse_deb_filename filename) (lookup h c.rows)

      row_size : row.size ≡ size
      row_size = upsert-size s.now size filename (parse_deb_filename filename) (lookup h c.rows)

      weighed :
          total (insert h row c.rows) + weigh? (λ (q : Row). q.size) (lookup h c.rows)
          ≡ total c.rows + size
      weighed =
          weigh-insert (λ (q : Row). q.size) h row c.rows d
          ∙ ap (λ (n : ℕ). total c.rows + n) row_size

  pub commit_verified_file-Sound :
      (s : System) (bytes : List ℕ) (h filename : GoString) (size : ℕ) (c : Cache)
      → hash_bytes bytes ≡ h
      → Sound hash_bytes c
      → Sound hash_bytes (commit_verified_file s bytes h filename size c).0
  commit_verified_file-Sound s bytes h filename size c good w =
      let v = ensure_space-Sound s size c w in
      elim (commit-cases s bytes h filename size c) [
        | inl (err, e, f) ↦ rw f v
        | inr (inl (e, f)) ↦ rw f v
        | inr (inr (files, e, (look, there), f)) ↦ rw f (
            record_package-Sound s h filename size (ensure_space s size c).0 files v.distinct
              v.counted
              (λ j b g. ground (arith, look j, eq_iff h j, v.intact j b, v.intact h b, good))
              (λ j g. ground (arith, look j, v.stored j)) there)
      ]

  pub put-Sound :
      (s : System) (data? : Option (List ℕ)) (h filename : GoString) (c : Cache)
      → Sound hash_bytes c
      → Sound hash_bytes (put hash_bytes s data? h filename c).0
  unfolding put
  put-Sound s none h filename c w = w
  put-Sound s (some bytes) h filename c w = elim (Bool-cases (str_eq (hash_bytes bytes) h)) [
    | inl e ↦
        rw (e, put)
          (commit_verified_file-Sound s bytes h filename (length bytes) c
            ((eq_iff (hash_bytes bytes) h).0 e) w)
    | inr e ↦ rw (e, put) w
  ]

  pub put_file-Sound :
      (s : System) (bytes : List ℕ) (h filename : GoString) (size : ℕ) (c : Cache)
      → hash_bytes bytes ≡ h
      → Sound hash_bytes c
      → Sound hash_bytes (put_file s bytes h filename size c).0
  unfolding put_file
  put_file-Sound s bytes h filename size c good w =
      commit_verified_file-Sound s bytes h filename size c good w

  pub new-Sound :
      (max_size min_free_space : ℕ) (rows : Map Row) (files : Map (List ℕ))
      → Distinct rows
      → ((h : GoString) (bytes : List ℕ) → lookup h files ≡ some bytes → hash_bytes bytes ≡ h)
      → ((h : GoString) → lookup h files ≡ none → lookup h rows ≡ none)
      → Sound hash_bytes (new max_size min_free_space rows files)
  unfolding new
  new-Sound max_size min_free_space rows files d i k = record {
    distinct = d;
    counted = refl;
    intact = i;
    stored = k;
  }

  -- Reading leaves the disk and the table alone.
  pub get-Sound :
      (s : System) (h : GoString) (c : Cache) → Sound hash_bytes c → Sound hash_bytes (get s h c).0
  unfolding get
  get-Sound s h c w = ground arith

  pub close-Sound : (r : Reader) (c : Cache) → Sound hash_bytes c → Sound hash_bytes (close r c).0
  unfolding close
  close-Sound r c w = ground arith
