-- ===== src/Cache/Ends.antt =====
-- internal/cache/cache.go: the ends that `Delete` and the commit of a file can have, each with the
-- state that it leaves.
use debswarm.Prelude.{
  ℕ, ◌-◌, ◌<◌, ◌≡◌, ◌≢◌, refl, none, some, true, false, List, ltb, if◌then◌else◌, arith, GoString,
  str_eq, str_eq_self, eq_iff, Option-cases, Bool-cases, inl, inr, ◌⊎◌,
}
use debswarm.Prelude.Assoc.{Map, lookup, insert, delete, lookup-insert, weigh?}
use debswarm.Cache.State.{
  Row, Error, not_found, no_row, file_in_use, open_failed, remove_failed, move_failed, Cache,
  System, readers_of,
}
use debswarm.Cache.Access.{found, missed, add_reader, drop_reader, record_access, get}
use debswarm.Cache.Store.{
  delete_package, ensure_space, install, record_package, commit_verified_file,
}

-- The four ends of `Get`.
pub get-cases :
    (s : System) (h : GoString) (c : Cache)
    → ((lookup h c.files ≡ none) × (get s h c ≡ (c, missed not_found)))
      ⊎ ((bytes : List ℕ) × (lookup h c.files ≡ some bytes)
          × (lookup h c.rows ≡ none)
          × (get s h c ≡ (drop_reader h (record_access s h (add_reader h c)), missed no_row)))
      ⊎ ((bytes : List ℕ) × (r : Row) × (lookup h c.files ≡ some bytes)
          × (lookup h c.rows ≡ some r)
          × (get s h c ≡ (
            record_access s h (add_reader h c),
            found (record { hash = h; bytes = bytes; closed = false }) r,
          )))
      ⊎ ((s.can_open h ≡ false) × (get s h c ≡ (c, missed open_failed)))
unfolding get
get-cases s h c =
    go (Option-cases (lookup h c.files)) (Option-cases (lookup h c.rows))
      (Bool-cases (s.can_open h))
  where
    go :
        ((lookup h c.files ≡ none) ⊎ ((bytes : List ℕ) × (lookup h c.files ≡ some bytes)))
        → ((lookup h c.rows ≡ none) ⊎ ((r : Row) × (lookup h c.rows ≡ some r)))
        → ((s.can_open h ≡ true) ⊎ (s.can_open h ≡ false))
        → ((lookup h c.files ≡ none) × (get s h c ≡ (c, missed not_found)))
          ⊎ ((bytes : List ℕ) × (lookup h c.files ≡ some bytes)
              × (lookup h c.rows ≡ none)
              × (get s h c ≡ (drop_reader h (record_access s h (add_reader h c)), missed no_row)))
          ⊎ ((bytes : List ℕ) × (r : Row) × (lookup h c.files ≡ some bytes)
              × (lookup h c.rows ≡ some r)
              × (get s h c ≡ (
                record_access s h (add_reader h c),
                found (record { hash = h; bytes = bytes; closed = false }) r,
              )))
          ⊎ ((s.can_open h ≡ false) × (get s h c ≡ (c, missed open_failed)))
    go (inl e) k o = inl (e, rw (e, get) refl)
    go (inr (bytes, e)) k (inr o) = inr (inr (inr (o, rw (e, o, get) refl)))
    go (inr (bytes, e)) (inl f) (inl o) = inr (inl (bytes, e, f, rw (e, o, f, get) refl))
    go (inr (bytes, e)) (inr (r, f)) (inl o) =
        inr (inr (inl (bytes, r, e, f, rw (e, o, f, get) refl)))

-- What `Delete` does to the state.
abbrev pub deleted : GoString → Cache → Cache
deleted h c = record c {
  files = delete h c.files;
  rows = delete h c.rows;
  current_size = c.current_size - weigh? (λ r. r.size) (lookup h c.rows);
}

-- The three ends of `Delete`.
pub delete_package-cases :
    (s : System) (h : GoString) (c : Cache)
    → ((0 < readers_of h c) × (delete_package s h c ≡ (c, some file_in_use)))
      ⊎ ((s.locked h ≡ true) × (delete_package s h c ≡ (c, some remove_failed)))
      ⊎ ((readers_of h c ≡ 0) × (s.locked h ≡ false) × (delete_package s h c ≡ (deleted h c, none)))
unfolding delete_package
delete_package-cases s h c = elim (Bool-cases (ltb 0 (readers_of h c))) [
  | inl f ↦ inl (ground arith, ground arith)
  | inr f ↦ elim (Bool-cases (s.locked h)) [
    | inl g ↦ inr (inl (g, ground arith))
    | inr g ↦ inr (inr (ground arith, g, go (Option-cases (lookup h c.rows)) f g))
  ]
]
  where
    go :
        ((lookup h c.rows ≡ none) ⊎ ((r : Row) × (lookup h c.rows ≡ some r)))
        → ltb 0 (readers_of h c) ≡ false
        → s.locked h ≡ false
        → delete_package s h c ≡ (deleted h c, none)
    go (inl e) f g = ground arith
    go (inr (r, e)) f g = ground arith

-- The file of the package is in the map, and each other file is as before.
abbrev pub Installed : System → GoString → List ℕ → Map (List ℕ) → Map (List ℕ) → Type 0
Installed s h bytes files files' =
    ((j : GoString)
      → lookup j files' ≡ (
          if str_eq h j
          then elim (lookup h files) [ none ↦ some bytes | some there ↦ some there ]
          else lookup j files))
    × (lookup h files' ≢ none)

install-Installed :
    (s : System) (h : GoString) (bytes : List ℕ) (files : Map (List ℕ))
    → (install s h bytes files ≡ none)
      ⊎ ((files' : Map (List ℕ)) × (install s h bytes files ≡ some files')
          × Installed s h bytes files files')
unfolding install
install-Installed s h bytes files = go (Option-cases (lookup h files)) (Bool-cases s.can_move)
  where
    go :
        ((lookup h files ≡ none) ⊎ ((there : List ℕ) × (lookup h files ≡ some there)))
        → ((s.can_move ≡ true) ⊎ (s.can_move ≡ false))
        → (install s h bytes files ≡ none)
          ⊎ ((files' : Map (List ℕ)) × (install s h bytes files ≡ some files')
              × Installed s h bytes files files')
    go (inl e) (inl m) = inr (
      insert h bytes files,
      ground arith,
      (
        λ j. ground (arith, lookup-insert h j bytes files),
        ground (arith, lookup-insert h h bytes files, str_eq_self h),
      ),
    )
    go (inl e) (inr m) = inl (ground arith)
    go (inr (there, e)) m =
        inr (files, ground arith, (λ j. ground (arith, eq_iff h j), ground arith))

-- The ends of a commit: no space, no move, or the package is there.
pub commit-cases :
    (s : System) (bytes : List ℕ) (h filename : GoString) (size : ℕ) (c : Cache)
    → ((err : Error) × ((ensure_space s size c).1 ≡ some err)
        × (commit_verified_file s bytes h filename size c ≡ ((ensure_space s size c).0, some err)))
      ⊎ (((ensure_space s size c).1 ≡ none)
          × (commit_verified_file s bytes h filename size c
              ≡ ((ensure_space s size c).0, some move_failed)))
      ⊎ ((files : Map (List ℕ)) × ((ensure_space s size c).1 ≡ none)
          × Installed s h bytes (ensure_space s size c).0.files files
          × (commit_verified_file s bytes h filename size c ≡ (
            record_package s h filename size (record ((ensure_space s size c).0) { files = files }),
            none,
          )))
unfolding commit_verified_file
commit-cases s bytes h filename size c =
    go (Option-cases (ensure_space s size c).1)
      (install-Installed s h bytes (ensure_space s size c).0.files)
  where
    go :
        (((ensure_space s size c).1 ≡ none)
          ⊎ ((err : Error) × ((ensure_space s size c).1 ≡ some err)))
        → (install s h bytes (ensure_space s size c).0.files ≡ none)
          ⊎ ((files : Map (List ℕ)) × (install s h bytes (ensure_space s size c).0.files
                ≡ some files)
              × Installed s h bytes (ensure_space s size c).0.files files)
        → ((err : Error) × ((ensure_space s size c).1 ≡ some err)
            × (commit_verified_file s bytes h filename size c
                ≡ ((ensure_space s size c).0, some err)))
          ⊎ (((ensure_space s size c).1 ≡ none)
              × (commit_verified_file s bytes h filename size c
                  ≡ ((ensure_space s size c).0, some move_failed)))
          ⊎ ((files : Map (List ℕ)) × ((ensure_space s size c).1 ≡ none)
              × Installed s h bytes (ensure_space s size c).0.files files
              × (commit_verified_file s bytes h filename size c ≡ (
                record_package s h filename size
                    (record ((ensure_space s size c).0) { files = files }),
                none,
              )))
    go (inr (err, e)) k = inl (err, e, ground arith)
    go (inl e) (inl f) = inr (inl (e, ground arith))
    go (inl e) (inr (files, f, k)) = inr (inr (files, e, k, ground arith))
