-- ===== src/Proxy/Requests/Download.antt =====
-- internal/proxy/server.go: `downloadPackage`, which asks the fleet, then the peers, then the mirror.
use debswarm.Prelude.{
  ℕ, ◌+◌, Option, none, some, Bool, true, false, ◌&&◌, List, [], ◌∷◌, if◌then◌else◌, ltb, length,
  GoString, codes, str_eq,
}
use debswarm.Prelude.Int.{ℤ, pos, negsuc}
use debswarm.Cache.State.{Error, hash_mismatch, Cache}
use debswarm.Cache.Store.{put_file}
use debswarm.Proxy.Requests.{
  Server, Stats, Surroundings, Package, buffered, cached, fetch_lan, wait_peer, fetch_wan,
  in_memory, in_file, DownloadResult, notify_fetching, notify_complete, notify_failed, blacklisted,
  say, count_p2p, count_mirror_bytes, count_mirror_request, cache_now, after_call, put_bytes,
  announce_async, announce_and_verify, verify_and_cache, cache_and_announce,
}

-- `SourceTypePeer` and `SourceTypeMirror`
abbrev pub source_peer : GoString
source_peer = codes "peer"

abbrev pub source_mirror : GoString
source_mirror = codes "mirror"

abbrev pub kept_or_blacklisted : ℕ → List ℕ → Server × Bool → Server × Option (List ℕ)
kept_or_blacklisted p bytes (srv, true) = (srv, some bytes)
kept_or_blacklisted p bytes (srv, false) = (say (blacklisted p) srv, none)

unfoldable pub download_from_fleet_peer :
    Surroundings → ℕ → GoString → GoString → Server → Server × Option (List ℕ)
unfolding verify_and_cache
download_from_fleet_peer env provider h path srv = elim (env.fleet_download provider) [
  | none ↦ (srv, none)
  | some bytes ↦ kept_or_blacklisted provider bytes (verify_and_cache env bytes h path srv)
]

abbrev pub count_if_got : Server × Option (List ℕ) → Server × Option Package
count_if_got (srv, none) = (srv, none)
count_if_got (srv, some bytes) =
    (record srv { stats = count_p2p (length bytes) srv.stats }, some (buffered bytes source_peer))

-- The fleet has the package, or a peer has fetched it in time.
unfoldable pub ask_fleet : Surroundings → GoString → GoString → Server → Server × Option Package
unfolding download_from_fleet_peer
ask_fleet env h path srv = elim env.fleet [
  | none ↦ (srv, none)
  | some none ↦ (srv, none)
  | some (some (fetch_lan p)) ↦ count_if_got (download_from_fleet_peer env p h path srv)
  | some (some (wait_peer p (some true))) ↦ count_if_got (download_from_fleet_peer env p h path srv)
  | some (some (wait_peer p (some false))) ↦ (srv, none)
  | some (some (wait_peer p none)) ↦ (srv, none)
  | some (some fetch_wan) ↦ (srv, none)
]

-- The file is moved into the cache; if that fails, it is read into memory.
abbrev pub moved :
    Surroundings
    → List ℕ
    → Bool
    → ℕ
    → GoString
    → GoString
    → Server
    → Cache × Option Error
    → Server × Package
moved env bytes is_readable size source h srv (c, none) =
    (announce_async env h (after_call c srv), cached size source)
moved env bytes is_readable size source h srv (c, some err) =
    (after_call c srv, if is_readable then buffered bytes source else cached size source)

unfoldable pub process_file :
    Surroundings → List ℕ → Bool → ℕ → GoString → GoString → GoString → Server → Server × Package
unfolding announce_async
process_file env bytes is_readable size source h path srv =
    moved env bytes is_readable size source h srv
      (put_file (env.system srv.calls) bytes h path size (cache_now env srv))

abbrev pub count_request : Bool → Stats → Stats
count_request true t = record t { requests_p2p = t.requests_p2p + 1 }
count_request false t = count_mirror_request t

abbrev pub count_result : DownloadResult → Stats → Stats
count_result result t = count_request (ltb result.mirror_bytes result.peer_bytes) (record t {
  bytes_from_p2p = t.bytes_from_p2p + result.peer_bytes;
  bytes_from_mirror = t.bytes_from_mirror + result.mirror_bytes;
})

unfoldable pub process_download_success :
    Surroundings → DownloadResult → GoString → GoString → Server → Server × Package
unfolding cache_and_announce process_file
process_download_success env result h path srv =
    let srv' = record srv { stats = count_result result srv.stats } in
    elim result.body [
      | in_memory bytes ↦ (cache_and_announce env bytes h path srv', buffered bytes result.source)
      | in_file bytes is_readable ↦
          process_file env bytes is_readable result.size result.source h path srv'
    ]

-- The loop over the peers, of which the first three are tried.
unfoldable pub ask_peers :
    Surroundings
    → List (ℕ × Option (List ℕ))
    → GoString
    → GoString
    → Server
    → Server × Option Package
unfolding verify_and_cache
ask_peers env [] h path srv = (srv, none)
ask_peers env ((p, none) ∷ ps) h path srv = ask_peers env ps h path srv
ask_peers env ((p, some bytes) ∷ ps) h path srv = elim ((verify_and_cache env bytes h path srv).1) [
  | true ↦ count_if_got ((verify_and_cache env bytes h path srv).0, some bytes)
  | false ↦ ask_peers env ps h path (say (blacklisted p) (verify_and_cache env bytes h path srv).0)
]

-- A stream that breaks off fails the copy.
abbrev pub whole? : List ℕ × Bool → Option (List ℕ)
whole? (bytes, true) = none
whole? (bytes, false) = some bytes

-- The second fetch, into memory.
abbrev pub refetch : Surroundings → GoString → Server → Server × Option Package
refetch env h srv = elim env.fetch [
  | none ↦ (srv, none)
  | some bytes ↦
      if str_eq (env.hash_bytes bytes) h
      then (
        record srv { stats = count_mirror_bytes (length bytes) srv.stats },
        some (buffered bytes source_mirror),
      )
      else (srv, none)
]

abbrev pub mirrored : Surroundings → GoString → ℕ → Server × Option Error → Server × Option Package
mirrored env h n (srv, none) = (
  announce_and_verify env h (record srv { stats = count_mirror_bytes n srv.stats }),
  some (cached n source_mirror),
)
mirrored env h n (srv, some hash_mismatch) = (srv, none)
mirrored env h n (srv, some err) = refetch env h srv

-- The stream goes into the cache. If this cannot store it, the package is fetched again.
unfoldable pub ask_mirror : Surroundings → GoString → GoString → Server → Server × Option Package
unfolding put_bytes announce_async
ask_mirror env h path srv =
    let asked = record srv { stats = count_mirror_request srv.stats } in
    elim env.stream [
      | none ↦ (asked, none)
      | some body ↦ mirrored env h (length body.0) (put_bytes env (whole? body) h path asked)
    ]

abbrev pub first_three {ℓ} : {A : Type ℓ} → List A → List A
first_three [] = []
first_three (a ∷ []) = a ∷ []
first_three (a ∷ b ∷ []) = a ∷ b ∷ []
first_three (a ∷ b ∷ c ∷ rest) = a ∷ b ∷ c ∷ []

abbrev pub or_mirror :
    Surroundings → GoString → GoString → Server × Option Package → Server × Option Package
or_mirror env h path (srv, some package') = (srv, some package')
or_mirror env h path (srv, none) = ask_mirror env h path srv

abbrev pub peers_or_mirror : Surroundings → GoString → GoString → Server → Server × Option Package
peers_or_mirror env h path srv =
    or_mirror env h path (ask_peers env (first_three env.providers) h path srv)

abbrev pub is_positive : ℤ → Bool
is_positive (pos n) = ltb 0 n
is_positive (negsuc n) = false

abbrev pub finished : Server × Package → Server × Option Package
finished (srv, package') = (srv, some package')

-- What follows the notice to the fleet. The downloader runs if there are peers and a size.
unfoldable pub ask_network :
    Surroundings → GoString → ℤ → GoString → Server → Server × Option Package
unfolding process_download_success ask_peers ask_mirror
ask_network env h size path srv = elim (is_positive size && ltb 0 (length env.providers)) [
  | false ↦ peers_or_mirror env h path srv
  | true ↦ elim env.download [
    | none ↦ peers_or_mirror env h path srv
    | some result ↦ finished (process_download_success env result h path srv)
  ]
]

-- The deferred function, which tells the fleet how it ended.
abbrev pub told_fleet : GoString → Server × Option Package → Server × Option Package
told_fleet h (srv, some package') = (say (notify_complete h) srv, some package')
told_fleet h (srv, none) = (say (notify_failed h) srv, none)

abbrev pub or_network :
    Surroundings → GoString → ℤ → GoString → Server × Option Package → Server × Option Package
or_network env h size path (srv, some package') = (srv, some package')
or_network env h size path (srv, none) = elim env.fleet [
  | none ↦ ask_network env h size path srv
  | some answer ↦ told_fleet h (ask_network env h size path (say (notify_fetching h size) srv))
]

-- The hash is never empty here.
unfoldable pub download_package :
    Surroundings → GoString → ℤ → GoString → Server → Server × Option Package
unfolding ask_fleet ask_network
download_package env h size path srv = or_network env h size path (ask_fleet env h path srv)
