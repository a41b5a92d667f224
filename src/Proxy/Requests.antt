-- ===== src/Proxy/Requests.antt =====
-- internal/proxy/server.go: the state behind a request for a package, and the steps that the ways
-- of fetching it share. Logs, metrics and the audit log are left out.
pub mod Download
pub mod Serve
pub mod Trust
pub mod Asked
pub mod Fetches
pub mod Responses
pub mod Delivery
pub mod Sending
pub mod Sends
pub mod Notices
pub mod Unheard
pub mod Notified
mod Examples
use debswarm.Prelude.{
  ℕ, ◌+◌, Option, none, some, Bool, true, false, List, [], ◌∷◌, ◌++◌, if◌then◌else◌, ltb, length,
  GoString, str_eq,
}
use debswarm.Prelude.Int.{ℤ}
use debswarm.Index.{PackageInfo, Index}
use debswarm.Index.Load.{Outer}
use debswarm.Cache.State.{Error, hash_mismatch, Cache, System}
use debswarm.Cache.Access.{Found, found, missed, get, close}
use debswarm.Cache.Store.{put, put_file}

-- What the proxy tells the fleet, the announcer, the verifier of providers and the scores.
pub data Event : Type 0 where
  notify_fetching : GoString → ℤ → Event
  notify_complete notify_failed announced verify_async : GoString → Event
  blacklisted : ℕ → Event

pub record Stats : Type 0 where
  pub cache_hits : ℕ
  pub requests_p2p : ℕ
  pub requests_mirror : ℕ
  pub bytes_from_p2p : ℕ
  pub bytes_from_mirror : ℕ

-- `calls` counts the calls of the cache so far, and `warmed` tells whether `indexWarmOnce` has run.
pub record Server : Type 0 where
  pub index : Index
  pub warmed : Bool
  pub cache : Cache
  pub calls : ℕ
  pub stats : Stats
  pub events : List Event

-- The answer of `WantPackage`; with `wait_peer` is how the wait ends, none if its time is over.
pub data FleetAnswer : Type 0 where
  fetch_lan : ℕ → FleetAnswer
  wait_peer : ℕ → Option Bool → FleetAnswer
  fetch_wan : FleetAnswer

-- A result of the downloader: the bytes of a small file, or a file, which may not be readable again.
pub data Body : Type 0 where
  in_memory : List ℕ → Body
  in_file : List ℕ → Bool → Body

pub record DownloadResult : Type 0 where
  pub body : Body
  pub size : ℕ
  pub source : GoString
  pub peer_bytes : ℕ
  pub mirror_bytes : ℕ

-- What the network answers, and what the other requests do to the cache. Before the n-th call of
-- the cache these change it by `others n`, and the system answers that call with `system n`; if it
-- is a `Put`, `can_copy n` tells whether the copy to a pending file succeeds. A stream is what
-- arrives, with whether it breaks off then. `is_verified` is `checkIndexVerification`, which
-- Proxy.Verify has.
pub record Surroundings : Type 0 where
  pub hash_bytes : List ℕ → GoString
  pub outer : Outer
  pub metadata : List (GoString × Option (List ℕ))
  pub is_verified : GoString → List ℕ → Bool
  pub is_offline : Bool
  pub fleet : Option (Option FleetAnswer)
  pub fleet_download : ℕ → Option (List ℕ)
  pub providers : List (ℕ × Option (List ℕ))
  pub has_p2p_node : Bool
  pub has_verifier : Bool
  pub download : Option DownloadResult
  pub stream : Option (List ℕ × Bool)
  pub fetch : Option (List ℕ)
  pub system : ℕ → System
  pub can_copy : ℕ → Bool
  pub others : ℕ → Cache → Cache

-- A `packageDownloadResult`: bytes, or what `Get` is to read from the cache.
pub data Package : Type 0 where
  buffered : List ℕ → GoString → Package
  cached : ℕ → GoString → Package

abbrev pub say : Event → Server → Server
say e srv = record srv { events = srv.events ++ e ∷ [] }

abbrev pub count_p2p : ℕ → Stats → Stats
count_p2p n t = record t {
  requests_p2p = t.requests_p2p + 1;
  bytes_from_p2p = t.bytes_from_p2p + n;
}

abbrev pub count_mirror_bytes : ℕ → Stats → Stats
count_mirror_bytes n t = record t { bytes_from_mirror = t.bytes_from_mirror + n }

abbrev pub count_mirror_request : Stats → Stats
count_mirror_request t = record t { requests_mirror = t.requests_mirror + 1 }

-- The cache as a call finds it, and the server after it.
abbrev pub cache_now : Surroundings → Server → Cache
cache_now env srv = env.others srv.calls srv.cache

abbrev pub after_call : Cache → Server → Server
after_call c srv = record srv { cache = c; calls = srv.calls + 1 }

unfoldable pub put_bytes :
    Surroundings → Option (List ℕ) → GoString → GoString → Server → Server × Option Error
put_bytes env bytes? h path srv =
    let copied = if env.can_copy srv.calls then bytes? else none in
    let (c, e) = put env.hash_bytes (env.system srv.calls) copied h path (cache_now env srv) in
    (after_call c srv, e)

-- The channel of announcements may be full; what it takes is not modelled.
unfoldable pub announce_async : Surroundings → GoString → Server → Server
announce_async env h srv = if env.has_p2p_node then say (announced h) srv else srv

abbrev pub announce_and_verify : Surroundings → GoString → Server → Server
announce_and_verify env h srv =
    let srv' = announce_async env h srv in
    if env.has_verifier then say (verify_async h) srv' else srv'

-- A result of false is `ErrHashMismatch`.
abbrev pub judged : Surroundings → List ℕ → GoString → Server × Option Error → Server × Bool
judged env bytes h (srv, none) = (announce_and_verify env h srv, true)
judged env bytes h (srv, some hash_mismatch) = (srv, false)
judged env bytes h (srv, some err) = (srv, str_eq (env.hash_bytes bytes) h)

unfoldable pub verify_and_cache :
    Surroundings → List ℕ → GoString → GoString → Server → Server × Bool
unfolding put_bytes announce_async
verify_and_cache env bytes h path srv = judged env bytes h (put_bytes env (some bytes) h path srv)

abbrev pub announced_if_put : Surroundings → GoString → Server × Option Error → Server
announced_if_put env h (srv, none) = announce_and_verify env h srv
announced_if_put env h (srv, some err) = srv

unfoldable pub cache_and_announce : Surroundings → List ℕ → GoString → GoString → Server → Server
unfolding put_bytes announce_async
cache_and_announce env bytes h path srv =
    announced_if_put env h (put_bytes env (some bytes) h path srv)

-- The bytes of a cached package, all of which are sent before `Close`, and the size in its row.
abbrev pub read_out : Server → Cache × Found → Server × Option (List ℕ × ℕ)
read_out srv (c, missed e) = (after_call c srv, none)
read_out srv (c, found r row) = (after_call (close r c).0 srv, some (r.bytes, row.size))

unfoldable pub read_cached : Surroundings → GoString → Server → Server × Option (List ℕ × ℕ)
read_cached env h srv = read_out srv (get (env.system srv.calls) h (cache_now env srv))
