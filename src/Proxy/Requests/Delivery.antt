-- ===== src/Proxy/Requests/Delivery.antt =====
-- internal/proxy/server.go: a package that the mirror has reaches the client.
use debswarm.Prelude.{
  ℕ, ◌≡◌, ◌≢◌, refl, sym, ap, ◌∙◌, Option, none, some, Bool, true, false, List, [], ◌∷◌, arith,
  length, GoString, eq_iff, inl, inr, ◌⊎◌, Bool-cases, if◌then◌else◌,
}
use mathlib.Core.Path.{subst}
use debswarm.Prelude.Assoc.{lookup}
use debswarm.Cache.State.{
  Row, Cache, System, Error, not_found, hash_mismatch, insufficient_disk_space, cache_full,
  file_in_use, no_row, write_failed, remove_failed, move_failed, open_failed,
}
use debswarm.Cache.Store.{put, commit_verified_file}
use debswarm.Cache.Sound.{Sound}
use debswarm.Cache.Ends.{commit-cases}
use debswarm.Cache.Space.{ensure_space-cases}
use debswarm.Cache.PutGet.{commit-fits}
use debswarm.Proxy.Requests.{
  Server, Surroundings, Package, buffered, cached, blacklisted, say, count_mirror_bytes,
  count_mirror_request, cache_now, put_bytes, verify_and_cache,
}
use debswarm.Proxy.Requests.Download.{
  source_mirror, ask_peers, ask_mirror, count_if_got, mirrored, refetch, or_mirror, peers_or_mirror,
  first_three,
}
use debswarm.Proxy.Requests.Trust.{Considerate, Fetched, announce_and_verify-cache}
use debswarm.Proxy.Requests.Asked.{ask_peers-Fetched}

-- The commit of a file does not fail for its hash.
commit-no_mismatch :
    (s : System) (bytes : List ℕ) (h filename : GoString) (size : ℕ) (c : Cache)
    → (commit_verified_file s bytes h filename size c).1 ≢ some hash_mismatch
commit-no_mismatch s bytes h filename size c e = elim (commit-cases s bytes h filename size c) [
  | inr (inl (f, g)) ↦ absurd (ground arith)
  | inr (inr (files, f, k, g)) ↦ absurd (ground arith)
  | inl (err, f, g) ↦ elim (ensure_space-cases s size c) [
    | inl (same, inl k) ↦ absurd (ground arith)
    | inl (same, inr (k, room)) ↦ absurd (ground arith)
    | inr (same, inl (k, room)) ↦ absurd (ground arith)
    | inr (same, inr (k, full)) ↦ absurd (ground arith)
  ]
]

put_same :
    (hash_bytes : List ℕ → GoString) (s : System) (bytes : List ℕ) (h path : GoString) (c : Cache)
    → hash_bytes bytes ≡ h
    → put hash_bytes s (some bytes) h path c ≡ commit_verified_file s bytes h path (length bytes) c
unfolding put
put_same hash_bytes s bytes h path c same = ground (arith, eq_iff (hash_bytes bytes) h)

module _ (env : Surroundings) (calm : (n : ℕ) (c : Cache) → env.others n c ≡ c) (h : GoString) where
  pub kind : Considerate env
  kind n c w = rw (calm n c) w

  abbrev pub Held : Server → Type 0
  Held srv = (row : Row) × (lookup h srv.cache.rows ≡ some row)

  abbrev pub Ready : Server × Option Package → Type 0
  Ready (srv, none) = ⊥
  Ready (srv, some (buffered bytes source)) = Unit
  Ready (srv, some (cached size source)) = Held srv

  put_bytes-Held :
      (bytes : List ℕ) (path : GoString) (srv : Server)
      → env.hash_bytes bytes ≡ h
      → Sound env.hash_bytes srv.cache
      → ((put_bytes env (some bytes) h path srv).1 ≡ none
          → Held (put_bytes env (some bytes) h path srv).0)
        × ((put_bytes env (some bytes) h path srv).1 ≢ some hash_mismatch)
  unfolding put_bytes put
  put_bytes-Held bytes path srv same w = elim (Bool-cases (env.can_copy srv.calls)) [
    | inr f ↦ (λ e. absurd (ground arith), λ e. ground arith)
    | inl f ↦
        let is : put env.hash_bytes (env.system srv.calls)
              (if env.can_copy srv.calls then some bytes else none) h path (cache_now env srv)
            ≡ commit_verified_file (env.system srv.calls) bytes h path (length bytes)
                (cache_now env srv) =
          rw f (
            put_same env.hash_bytes (env.system srv.calls) bytes h path (cache_now env srv) same) in
        (
          λ e.
              let (fits, in_table) =
                commit-fits env.hash_bytes (env.system srv.calls) bytes h path (length bytes)
                  (cache_now env srv) (rw (calm srv.calls srv.cache) w)
                  (ap (λ r. r.1) (sym is) ∙ e) in
              let (row, at, rest) = in_table in (row, ap (λ r. lookup h r.0.rows) is ∙ at),
          λ e.
              commit-no_mismatch (env.system srv.calls) bytes h path (length bytes)
                (cache_now env srv) (ap (λ r. r.1) (sym is) ∙ e),
        )
  ]

  module _ (bytes : List ℕ) (same : env.hash_bytes bytes ≡ h)
      (streams : env.stream ≡ some (bytes, false)) (fetches : env.fetch ≡ some bytes) where
    refetch-Ready : (srv : Server) → Ready (refetch env h srv)
    refetch-Ready srv =
        let shape : refetch env h srv ≡ (
          record srv { stats = count_mirror_bytes (length bytes) srv.stats },
          some (buffered bytes source_mirror),
        ) =
          ground (arith, eq_iff (env.hash_bytes bytes) h) in
        subst Ready (sym shape) tt

    mirrored-Ready :
        (n : ℕ) (r : Server × Option Error)
        → (r.1 ≡ none → Held (r.0))
        → r.1 ≢ some hash_mismatch
        → Ready (mirrored env h n r)
    mirrored-Ready n (srv, none) held ok =
        let (row, at) = held refl in
        (
          row,
          ap (λ c. lookup h c.rows)
                (announce_and_verify-cache env kind h
                  (record srv { stats = count_mirror_bytes n srv.stats }))
              ∙ at,
        )
    mirrored-Ready n (srv, some hash_mismatch) held ok = absurd (ok refl)
    mirrored-Ready n (srv, some not_found) held ok = refetch-Ready srv
    mirrored-Ready n (srv, some insufficient_disk_space) held ok = refetch-Ready srv
    mirrored-Ready n (srv, some cache_full) held ok = refetch-Ready srv
    mirrored-Ready n (srv, some file_in_use) held ok = refetch-Ready srv
    mirrored-Ready n (srv, some no_row) held ok = refetch-Ready srv
    mirrored-Ready n (srv, some write_failed) held ok = refetch-Ready srv
    mirrored-Ready n (srv, some remove_failed) held ok = refetch-Ready srv
    mirrored-Ready n (srv, some open_failed) held ok = refetch-Ready srv
    mirrored-Ready n (srv, some move_failed) held ok = refetch-Ready srv

    ask_mirror-Ready :
        (path : GoString) (srv : Server)
        → Sound env.hash_bytes srv.cache
        → Ready (ask_mirror env h path srv)
    unfolding ask_mirror
    ask_mirror-Ready path srv w =
        let (held, ok) = put_bytes-Held bytes path asked same w in
        let shape : ask_mirror env h path srv
            ≡ mirrored env h (length bytes) (put_bytes env (some bytes) h path asked) =
          rw streams refl in
        subst Ready (sym shape)
          (mirrored-Ready (length bytes) (put_bytes env (some bytes) h path asked) held ok)
      where
        asked : Server
        asked = record srv { stats = count_mirror_request srv.stats }

    asked-Ready :
        (path : GoString) (r : Server × Option Package)
        → Fetched env kind h r
        → (r.1 ≡ none) ⊎ Ready r
        → Ready (or_mirror env h path r)
    asked-Ready path (srv, none) w how = ask_mirror-Ready path srv w
    asked-Ready path (srv, some package') w (inl e) = cc
    asked-Ready path (srv, some package') w (inr ready) = ready

    pub counted-Ready :
        (r : Server × Option (List ℕ)) → ((count_if_got r).1 ≡ none) ⊎ Ready (count_if_got r)
    counted-Ready (srv, none) = inl refl
    counted-Ready (srv, some got) = inr tt

    ask_peers-Ready :
        (ps : List (ℕ × Option (List ℕ))) (path : GoString) (srv : Server)
        → ((ask_peers env ps h path srv).1 ≡ none) ⊎ Ready (ask_peers env ps h path srv)
    unfolding ask_peers
    ask_peers-Ready [] path srv = inl refl
    ask_peers-Ready ((p, none) ∷ ps) path srv = ask_peers-Ready ps path srv
    ask_peers-Ready ((p, some got) ∷ ps) path srv =
        go (λ s. ask_peers-Ready ps path s) (verify_and_cache env got h path srv)
      where
        go :
            ((s : Server)
              → ((ask_peers env ps h path s).1 ≡ none) ⊎ Ready (ask_peers env ps h path s))
            → (r : Server × Bool)
            → ((elim (r.1) as (λ x. Server × Option Package) [
              | true ↦ count_if_got (r.0, some got)
              | false ↦ ask_peers env ps h path (say (blacklisted p) (r.0))
            ]).1
                ≡ none)
              ⊎ Ready (elim (r.1) as (λ x. Server × Option Package) [
                | true ↦ count_if_got (r.0, some got)
                | false ↦ ask_peers env ps h path (say (blacklisted p) (r.0))
              ])
        go later (s, true) = inr tt
        go later (s, false) = later (say (blacklisted p) s)

    pub peers_or_mirror-Ready :
        (path : GoString) (srv : Server)
        → Sound env.hash_bytes srv.cache
        → Ready (peers_or_mirror env h path srv)
    peers_or_mirror-Ready path srv w =
        asked-Ready path (ask_peers env (first_three env.providers) h path srv)
          (ask_peers-Fetched env kind h (first_three env.providers) path srv w)
          (ask_peers-Ready (first_three env.providers) path srv)
