-- ===== src/Proxy/Requests/Trust.antt =====
-- internal/proxy/server.go: what a request for a package is answered with.
use debswarm.Prelude.{
  ℕ, ◌≡◌, refl, Option, none, some, Bool, true, false, List, arith, GoString, str_eq, eq_iff,
  Bool-cases, inl, inr, if◌then◌else◌,
}
use debswarm.Cache.State.{
  Error, not_found, hash_mismatch, insufficient_disk_space, cache_full, file_in_use, no_row,
  write_failed, remove_failed, move_failed, open_failed, Cache,
}
use debswarm.Cache.Store.{put}
use debswarm.Cache.Sound.{Sound, put-Sound}
use debswarm.Proxy.Requests.{
  Server, Surroundings, Package, buffered, cached, Body, in_memory, in_file, DownloadResult,
  cache_now, put_bytes, announce_async, announce_and_verify, verify_and_cache, judged,
}
use debswarm.Proxy.Requests.Download.{download_from_fleet_peer, count_if_got, kept_or_blacklisted}
use debswarm.Proxy.Requests.Serve.{Response, sent, streamed, bad_gateway, unavailable, cache_error}

abbrev pub body_bytes : Body → List ℕ
body_bytes (in_memory bytes) = bytes
body_bytes (in_file bytes is_readable) = bytes

-- What the downloader promises: it has verified the bytes of its result.
abbrev pub Delivered : (List ℕ → GoString) → GoString → Option DownloadResult → Type 0
Delivered hash_bytes h none = Unit
Delivered hash_bytes h (some result) = hash_bytes (body_bytes result.body) ≡ h

-- The other requests keep the cache sound.
abbrev pub Considerate : Surroundings → Type 0
Considerate env =
    (n : ℕ) (c : Cache) → Sound env.hash_bytes c → Sound env.hash_bytes (env.others n c)

-- Bytes that are at hand have the hash.
abbrev pub Genuine : Surroundings → GoString → Package → Type 0
Genuine env h (buffered bytes source) = env.hash_bytes bytes ≡ h
Genuine env h (cached size source) = Unit

-- What the client gets has the hash, or is an error.
abbrev pub Trusted : Surroundings → GoString → Response → Type 0
Trusted env h (sent bytes size source) = env.hash_bytes bytes ≡ h
Trusted env h (streamed bytes broken) = ⊥
Trusted env h bad_gateway = Unit
Trusted env h unavailable = Unit
Trusted env h cache_error = Unit

module _ (env : Surroundings) (kind : Considerate env) (h : GoString) where
  abbrev pub Good : Server → Type 0
  Good srv = Sound env.hash_bytes srv.cache

  pub put_bytes-Good :
      (bytes? : Option (List ℕ)) (path : GoString) (srv : Server)
      → Good srv
      → Good (put_bytes env bytes? h path srv).0
  unfolding put_bytes
  put_bytes-Good bytes? path srv w =
      put-Sound env.hash_bytes (env.system srv.calls)
        (if env.can_copy srv.calls then bytes? else none) h path (cache_now env srv)
        (kind srv.calls srv.cache w)

  pub announce_and_verify-cache : (srv : Server) → (announce_and_verify env h srv).cache ≡ srv.cache
  unfolding announce_async
  announce_and_verify-cache srv = ground arith

  pub announce-Good : (srv : Server) → Good srv → Good (announce_and_verify env h srv)
  announce-Good srv w = rw (announce_and_verify-cache srv) w

  -- A store that succeeds has verified the bytes.
  put_bytes-genuine :
      (bytes : List ℕ) (path : GoString) (srv : Server)
      → (put_bytes env (some bytes) h path srv).1 ≡ none
      → env.hash_bytes bytes ≡ h
  unfolding put_bytes put
  put_bytes-genuine bytes path srv e = elim (Bool-cases (env.can_copy srv.calls)) [
    | inl f ↦ ground (arith, eq_iff (env.hash_bytes bytes) h)
    | inr f ↦ absurd (ground arith)
  ]

  -- What a step leaves: a sound cache, and bytes of the hash if it has them.
  abbrev pub Stored : List ℕ → Server × Option Error → Type 0
  Stored bytes (srv, none) = Good srv × (env.hash_bytes bytes ≡ h)
  Stored bytes (srv, some e) = Good srv

  abbrev pub Judged : List ℕ → Server × Bool → Type 0
  Judged bytes (srv, true) = Good srv × (env.hash_bytes bytes ≡ h)
  Judged bytes (srv, false) = Good srv

  abbrev pub Got : Server × Option (List ℕ) → Type 0
  Got (srv, none) = Good srv
  Got (srv, some bytes) = Good srv × (env.hash_bytes bytes ≡ h)

  abbrev pub Fetched : Server × Option Package → Type 0
  Fetched (srv, none) = Good srv
  Fetched (srv, some package') = Good srv × Genuine env h package'

  pub put_bytes-Stored :
      (bytes : List ℕ) (path : GoString) (srv : Server)
      → Good srv
      → Stored bytes (put_bytes env (some bytes) h path srv)
  put_bytes-Stored bytes path srv w = go (put_bytes env (some bytes) h path srv).1 refl
    where
      go :
          (e : Option Error)
          → (put_bytes env (some bytes) h path srv).1 ≡ e
          → Stored bytes ((put_bytes env (some bytes) h path srv).0, e)
      go none e = (put_bytes-Good (some bytes) path srv w, put_bytes-genuine bytes path srv e)
      go (some err) e = put_bytes-Good (some bytes) path srv w

  if_equal-Judged :
      (bytes : List ℕ) (srv : Server)
      → Good srv
      → Judged bytes (srv, str_eq (env.hash_bytes bytes) h)
  if_equal-Judged bytes srv w = go (str_eq (env.hash_bytes bytes) h) refl
    where
      go : (b : Bool) → str_eq (env.hash_bytes bytes) h ≡ b → Judged bytes (srv, b)
      go true e = (w, (eq_iff (env.hash_bytes bytes) h).0 e)
      go false e = w

  pub judged-Judged :
      (bytes : List ℕ) (r : Server × Option Error)
      → Stored bytes r
      → Judged bytes (judged env bytes h r)
  judged-Judged bytes (srv, none) (w, same) = (announce-Good srv w, same)
  judged-Judged bytes (srv, some hash_mismatch) w = w
  judged-Judged bytes (srv, some not_found) w = if_equal-Judged bytes srv w
  judged-Judged bytes (srv, some insufficient_disk_space) w = if_equal-Judged bytes srv w
  judged-Judged bytes (srv, some cache_full) w = if_equal-Judged bytes srv w
  judged-Judged bytes (srv, some file_in_use) w = if_equal-Judged bytes srv w
  judged-Judged bytes (srv, some no_row) w = if_equal-Judged bytes srv w
  judged-Judged bytes (srv, some write_failed) w = if_equal-Judged bytes srv w
  judged-Judged bytes (srv, some remove_failed) w = if_equal-Judged bytes srv w
  judged-Judged bytes (srv, some open_failed) w = if_equal-Judged bytes srv w
  judged-Judged bytes (srv, some move_failed) w = if_equal-Judged bytes srv w

  pub verify_and_cache-Judged :
      (bytes : List ℕ) (path : GoString) (srv : Server)
      → Good srv
      → Judged bytes (verify_and_cache env bytes h path srv)
  unfolding verify_and_cache
  verify_and_cache-Judged bytes path srv w =
      judged-Judged bytes (put_bytes env (some bytes) h path srv)
        (put_bytes-Stored bytes path srv w)

  kept-Got :
      (p : ℕ) (bytes : List ℕ) (r : Server × Bool)
      → Judged bytes r
      → Got (kept_or_blacklisted p bytes r)
  kept-Got p bytes (srv, true) w = w
  kept-Got p bytes (srv, false) w = w

  pub download_from_fleet_peer-Got :
      (p : ℕ) (path : GoString) (srv : Server)
      → Good srv
      → Got (download_from_fleet_peer env p h path srv)
  unfolding download_from_fleet_peer
  download_from_fleet_peer-Got p path srv w = go (env.fleet_download p)
    where
      go :
          (d : Option (List ℕ))
          → Got (elim d as (λ x. Server × Option (List ℕ)) [
            | none ↦ (srv, none)
            | some bytes ↦ kept_or_blacklisted p bytes (verify_and_cache env bytes h path srv)
          ])
      go none = w
      go (some bytes) =
          kept-Got p bytes (verify_and_cache env bytes h path srv)
            (verify_and_cache-Judged bytes path srv w)

  pub counted-Fetched : (r : Server × Option (List ℕ)) → Got r → Fetched (count_if_got r)
  counted-Fetched (srv, none) w = w
  counted-Fetched (srv, some bytes) w = w
