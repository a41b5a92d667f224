-- ===== src/Proxy/Requests/Fetches.antt =====
-- internal/proxy/server.go: each way of fetching a package leaves a sound cache, and bytes of the hash.
use debswarm.Prelude.{
  ℕ, ◌≡◌, Option, none, some, Bool, true, false, List, arith, length, ltb, ◌&&◌, GoString,
}
use debswarm.Prelude.Int.{ℤ}
use debswarm.Cache.State.{Error, Cache}
use debswarm.Cache.Store.{put_file}
use debswarm.Cache.Sound.{Sound, put_file-Sound}
use debswarm.Proxy.Requests.{
  Server, Surroundings, Package, notify_fetching, buffered, FleetAnswer, Body, in_memory, in_file,
  DownloadResult, say, cache_now, put_bytes, announce_async, cache_and_announce, announced_if_put,
}
use debswarm.Proxy.Requests.Download.{
  ask_fleet, is_positive, count_result, process_file, process_download_success, ask_network,
  download_package, moved, finished, or_network, peers_or_mirror, told_fleet,
}
use debswarm.Proxy.Requests.Trust.{
  Delivered, body_bytes, Considerate, Good, Stored, Fetched, put_bytes-Stored, announce-Good,
}
use debswarm.Proxy.Requests.Asked.{ask_fleet-Fetched, peers_or_mirror-Fetched}

module _ (env : Surroundings) (kind : Considerate env) (h : GoString) where
  abbrev Fine : Server × Option Package → Type 0
  Fine = Fetched env kind h

  announced-Good :
      (bytes : List ℕ) (r : Server × Option Error)
      → Stored env kind h bytes r
      → Good env kind h (announced_if_put env h r)
  announced-Good bytes (srv, none) (w, same) = announce-Good env kind h srv w
  announced-Good bytes (srv, some e) w = w

  cache_and_announce-Good :
      (bytes : List ℕ) (path : GoString) (srv : Server)
      → Good env kind h srv
      → Good env kind h (cache_and_announce env bytes h path srv)
  unfolding cache_and_announce
  cache_and_announce-Good bytes path srv w =
      announced-Good bytes (put_bytes env (some bytes) h path srv)
        (put_bytes-Stored env kind h bytes path srv w)

  moved-Fetched :
      (bytes : List ℕ) (is_readable : Bool) (size : ℕ) (source : GoString) (srv : Server)
      → (r : Cache × Option Error) → env.hash_bytes bytes ≡ h
      → Sound env.hash_bytes (r.0)
      → Fine (finished (moved env bytes is_readable size source h srv r))
  unfolding announce_async
  moved-Fetched bytes is_readable size source srv (c, none) same w = (ground (arith, w), tt)
  moved-Fetched bytes true size source srv (c, some e) same w = (w, same)
  moved-Fetched bytes false size source srv (c, some e) same w = (w, tt)

  process_file-Fetched :
      (bytes : List ℕ) (is_readable : Bool) (size : ℕ) (source path : GoString) (srv : Server)
      → env.hash_bytes bytes ≡ h
      → Good env kind h srv
      → Fine (finished (process_file env bytes is_readable size source h path srv))
  unfolding process_file
  process_file-Fetched bytes is_readable size source path srv same w =
      moved-Fetched bytes is_readable size source srv
        (put_file (env.system srv.calls) bytes h path size (cache_now env srv)) same
        (put_file-Sound env.hash_bytes (env.system srv.calls) bytes h path size (cache_now env srv)
          same (kind srv.calls srv.cache w))

  process_download_success-Fetched :
      (result : DownloadResult) (path : GoString) (srv : Server)
      → env.hash_bytes (body_bytes result.body) ≡ h
      → Good env kind h srv
      → Fine (finished (process_download_success env result h path srv))
  unfolding process_download_success
  process_download_success-Fetched result path srv same w = go result.body same
    where
      counted : Server
      counted = record srv { stats = count_result result srv.stats }

      go :
          (b : Body)
          → env.hash_bytes (body_bytes b) ≡ h
          → Fine (
              finished (elim b as (λ x. Server × Package) [
                | in_memory bytes ↦
                    (cache_and_announce env bytes h path counted, buffered bytes result.source)
                | in_file bytes is_readable ↦
                    process_file env bytes is_readable result.size result.source h path counted
              ]))
      go (in_memory bytes) e = (cache_and_announce-Good bytes path counted w, e)
      go (in_file bytes is_readable) e =
          process_file-Fetched bytes is_readable result.size result.source path counted e w

  ask_network-Fetched :
      (size : ℤ) (path : GoString) (srv : Server)
      → Delivered env.hash_bytes h env.download
      → Good env kind h srv
      → Fine (ask_network env h size path srv)
  unfolding ask_network
  ask_network-Fetched size path srv delivered w =
      go (is_positive size && ltb 0 (length env.providers)) env.download delivered
    where
      go :
          (b : Bool) (o : Option DownloadResult)
          → Delivered env.hash_bytes h o
          → Fine (elim b as (λ x. Server × Option Package) [
            | false ↦ peers_or_mirror env h path srv
            | true ↦ elim o [
              | none ↦ peers_or_mirror env h path srv
              | some result ↦ finished (process_download_success env result h path srv)
            ]
          ])
      go false o d = peers_or_mirror-Fetched env kind h path srv w
      go true none d = peers_or_mirror-Fetched env kind h path srv w
      go true (some result) d = process_download_success-Fetched result path srv d w

  told-Fetched : (r : Server × Option Package) → Fine r → Fine (told_fleet h r)
  told-Fetched (srv, none) w = w
  told-Fetched (srv, some package') w = w

  pub download_package-Fetched :
      (size : ℤ) (path : GoString) (srv : Server)
      → Delivered env.hash_bytes h env.download
      → Good env kind h srv
      → Fetched env kind h (download_package env h size path srv)
  unfolding download_package
  download_package-Fetched size path srv delivered w =
      go (ask_fleet env h path srv) (ask_fleet-Fetched env kind h path srv w)
    where
      told :
          (s : Server) (o : Option (Option FleetAnswer))
          → Good env kind h s
          → Fine (elim o as (λ x. Server × Option Package) [
            | none ↦ ask_network env h size path s
            | some answer ↦
                told_fleet h (ask_network env h size path (say (notify_fetching h size) s))
          ])
      told s none v = ask_network-Fetched size path s delivered v
      told s (some answer) v =
          told-Fetched (ask_network env h size path (say (notify_fetching h size) s))
            (ask_network-Fetched size path (say (notify_fetching h size) s) delivered v)

      go : (r : Server × Option Package) → Fine r → Fine (or_network env h size path r)
      go (s, some package') v = v
      go (s, none) v = told s env.fleet v
