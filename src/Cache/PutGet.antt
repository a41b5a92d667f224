-- ===== src/Cache/PutGet.antt =====
-- internal/cache/cache.go: what a caller of `Put` and `Delete` may rely on.
use debswarm.Prelude.{
  ℕ, ◌≤◌, ◌<◌, ◌≡◌, ◌≢◌, refl, ap, Option, none, some, true, false, List, arith, length, GoString,
  str_eq, str_eq_self, eq_iff, Bool-cases, inl, inr, ◌⊎◌,
}
use debswarm.Prelude.Assoc.{lookup, lookup-insert, lookup-delete}
use debswarm.Cache.State.{Row, Error, not_found, hash_mismatch, Cache, System, readers_of}
use debswarm.Cache.Access.{Reader, found, missed, get}
use debswarm.Cache.DebFilename.{DebName, parse_deb_filename}
use debswarm.Cache.Store.{
  delete_package, ensure_space, record_package, upsert, commit_verified_file, put,
}
use debswarm.Cache.Sound.{Sound, commit_verified_file-Sound}
use debswarm.Cache.Ends.{deleted, delete_package-cases, commit-cases, get-cases}
use debswarm.Cache.Space.{ensure_space-makes_room, ensure_space-max_size}

upsert_row :
    (now size : ℕ) (filename : GoString) (name : DebName) (o : Option Row)
    → ((upsert now size filename name o).size ≡ size)
      × ((upsert now size filename name o).filename ≡ filename)
      × ((upsert now size filename name o).last_accessed ≡ now)
unfolding upsert
upsert_row now size filename name none = (refl, refl, refl)
upsert_row now size filename name (some r) = (refl, refl, refl)

module _ (hash_bytes : List ℕ → GoString) where
  -- A file and a row that are there are what `Get` hands out.
  pub get-found :
      (s : System) (h : GoString) (row : Row) (c : Cache)
      → Sound hash_bytes c
      → lookup h c.rows ≡ some row
      → s.can_open h ≡ true
      → (r : Reader) × ((get s h c).1 ≡ found r row) × (r.hash ≡ h) × (hash_bytes r.bytes ≡ h)
  get-found s h row c w e opens = elim (get-cases s h c) [
    | inl (f, g) ↦ absurd (ground (arith, w.stored h f))
    | inr (inl (bytes, f, g, k)) ↦ absurd (ground arith)
    | inr (inr (inr (closed, k))) ↦ absurd (ground arith)
    | inr (inr (inl (bytes, q, f, g, k))) ↦
        (record { hash = h; bytes = bytes; closed = false }, ground arith, refl, w.intact h bytes f)
  ]

  pub commit-fits :
      (s : System) (bytes : List ℕ) (h filename : GoString) (size : ℕ) (c : Cache)
      → Sound hash_bytes c
      → (commit_verified_file s bytes h filename size c).1 ≡ none
      → ((commit_verified_file s bytes h filename size c).0.current_size ≤ c.max_size)
        × ((row : Row) × (lookup h (commit_verified_file s bytes h filename size c).0.rows
              ≡ some row)
            × ((row.size ≡ size) × (row.filename ≡ filename) × (row.last_accessed ≡ s.now)))
  unfolding record_package
  commit-fits s bytes h filename size c w e = elim (commit-cases s bytes h filename size c) [
    | inl (err, f, g) ↦ absurd (ground arith)
    | inr (inl (f, g)) ↦ absurd (ground arith)
    | inr (inr (files, f, k, g)) ↦
        let room = (ensure_space-makes_room s size hash_bytes c w).0 f in
        let limit = ensure_space-max_size s size hash_bytes c w in
        rw g (
          ground (arith, room, limit, upsert_row s.now size filename name old),
          (
            row,
            ground (arith, lookup-insert h h row (ensure_space s size c).0.rows, str_eq_self h),
            upsert_row s.now size filename name old,
          ),
        )
  ]
    where
      name : DebName
      name = parse_deb_filename filename

      old : Option Row
      old = lookup h (ensure_space s size c).0.rows

      row : Row
      row = upsert s.now size filename name old

  -- A `Put` that succeeds has been given bytes of the hash; the cache is then within its limit, and
  -- the next `Get`, if it can open the file, hands out bytes of that hash, with a row of the new
  -- size, name and time. Bytes of another hash are refused, and change nothing.
  pub put-get :
      (s s' : System) (bytes : List ℕ) (h filename : GoString) (c : Cache)
      → Sound hash_bytes c
      → ((put hash_bytes s (some bytes) h filename c).1 ≡ none
          → (hash_bytes bytes ≡ h)
            × ((put hash_bytes s (some bytes) h filename c).0.current_size ≤ c.max_size)
            × (s'.can_open h ≡ true
                → (r : Reader) × (row : Row) × ((get s' h
                      (put hash_bytes s (some bytes) h filename c).0).1
                    ≡ found r row)
                  × (hash_bytes r.bytes ≡ h)
                  × (row.size ≡ length bytes)
                  × (row.filename ≡ filename)
                  × (row.last_accessed ≡ s.now)))
        × (hash_bytes bytes ≢ h
            → put hash_bytes s (some bytes) h filename c ≡ (c, some hash_mismatch))
  unfolding put
  put-get s s' bytes h filename c w = elim (Bool-cases (str_eq (hash_bytes bytes) h)) [
    | inl e ↦
        let good = (eq_iff (hash_bytes bytes) h).0 e in
        rw (e, put)
          (λ done. (good, (stored good done).0, (stored good done).1), λ bad. absurd (bad good))
    | inr e ↦ rw (e, put) (λ done. cc, λ bad. refl)
  ]
    where
      c' : Cache
      c' = (commit_verified_file s bytes h filename (length bytes) c).0

      stored :
          hash_bytes bytes ≡ h
          → (commit_verified_file s bytes h filename (length bytes) c).1 ≡ none
          → (c'.current_size ≤ c.max_size)
            × (s'.can_open h ≡ true
                → (r : Reader) × (row : Row) × ((get s' h c').1 ≡ found r row)
                  × (hash_bytes r.bytes ≡ h)
                  × (row.size ≡ length bytes)
                  × (row.filename ≡ filename)
                  × (row.last_accessed ≡ s.now))
      stored good done =
          let (small, (row, at, (size, name, time))) =
            commit-fits s bytes h filename (length bytes) c w done in
          (
            small,
            λ opens.
                let (r, got, hash, right) =
                  get-found s' h row c'
                    (commit_verified_file-Sound hash_bytes s bytes h filename (length bytes) c good
                      w)
                    at opens in
                (r, row, got, right, size, name, time),
          )

get-missing :
    (s : System) (h : GoString) (c : Cache)
    → lookup h c.files ≡ none
    → get s h c ≡ (c, missed not_found)
unfolding get
get-missing s h c e = rw (e, get) refl

-- A `Delete` that succeeds leaves a cache that does not have the package, and nothing of any other
-- package changes; one that fails changes nothing, and fails only if the package is being read or
-- its file is locked.
pub delete_package-get :
    (s s' : System) (h : GoString) (c : Cache)
    → ((delete_package s h c).1 ≡ none
        → ((get s' h (delete_package s h c).0).1 ≡ missed not_found)
          × ((k : GoString)
              → k ≢ h
              → (lookup k (delete_package s h c).0.rows ≡ lookup k c.rows)
                × (lookup k (delete_package s h c).0.files ≡ lookup k c.files)))
      × ((err : Error)
          → (delete_package s h c).1 ≡ some err
          → ((delete_package s h c).0 ≡ c) × ((0 < readers_of h c) ⊎ (s.locked h ≡ true)))
delete_package-get s s' h c = elim (delete_package-cases s h c) [
  | inl (reading, e) ↦ rw e (λ f. cc, λ err f. (refl, inl reading))
  | inr (inl (held, e)) ↦ rw e (λ f. cc, λ err f. (refl, inr held))
  | inr (inr (idle, free, e)) ↦ rw e (
    λ f. (
      gone,
      λ k other. (
        ground (arith, lookup-delete h k c.rows, eq_iff h k),
        ground (arith, lookup-delete h k c.files, eq_iff h k),
      ),
    ),
    λ err f. cc,
  )
]
  where
    no_file : lookup h (deleted h c).files ≡ none
    no_file = ground (arith, lookup-delete h h c.files, str_eq_self h)

    gone : (get s' h (deleted h c)).1 ≡ missed not_found
    gone = ap (λ r. r.1) (get-missing s' h (deleted h c) no_file)
