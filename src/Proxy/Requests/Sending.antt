-- ===== src/Proxy/Requests/Sending.antt =====
-- internal/proxy/server.go: a request for a package that the mirror has is answered with it.
use debswarm.Prelude.{
  ℕ, ◌≡◌, refl, ap, ◌∙◌, Option, none, some, Bool, true, false, ◌&&◌, ltb, List, arith, length,
  GoString, inl, inr, ◌⊎◌,
}
use debswarm.Prelude.Int.{ℤ}
use debswarm.Prelude.Assoc.{lookup}
use debswarm.Cache.State.{Row, Cache, Error}
use debswarm.Cache.Store.{put_file}
use debswarm.Cache.Sound.{Sound}
use debswarm.Cache.PutGet.{commit-fits}
use debswarm.Proxy.Requests.{
  Server, Surroundings, Package, buffered, cached, FleetAnswer, fetch_lan, wait_peer, fetch_wan,
  Body, in_memory, in_file, DownloadResult, notify_fetching, say, cache_now, after_call,
  announce_async, cache_and_announce,
}
use debswarm.Proxy.Requests.Download.{
  count_result, is_positive, download_from_fleet_peer, ask_fleet, process_file,
  process_download_success, ask_network, download_package, count_if_got, moved, finished,
  or_network, peers_or_mirror, told_fleet,
}
use debswarm.Proxy.Requests.Trust.{Fetched}
use debswarm.Proxy.Requests.Asked.{ask_fleet-Fetched}
use debswarm.Proxy.Requests.Delivery.{kind, Ready, counted-Ready, peers_or_mirror-Ready}

-- A file that the downloader has left can be read again.
abbrev pub ReadableBody : Body → Type 0
ReadableBody (in_memory bytes) = Unit
ReadableBody (in_file bytes is_readable) = is_readable ≡ true

abbrev pub Readable : Option DownloadResult → Type 0
Readable none = Unit
Readable (some result) = ReadableBody result.body

announce_async-cache :
    (env : Surroundings) (h : GoString) (srv : Server)
    → (announce_async env h srv).cache ≡ srv.cache
unfolding announce_async
announce_async-cache env h srv = ground arith

module _ (env : Surroundings) (calm : (n : ℕ) (c : Cache) → env.others n c ≡ c) (h : GoString)
    (bytes : List ℕ) (same : env.hash_bytes bytes ≡ h) (streams : env.stream ≡ some (bytes, false))
    (fetches : env.fetch ≡ some bytes) where
  abbrev Set : Server × Option Package → Type 0
  Set = Ready env calm h

  moved-Ready :
      (got : List ℕ) (is_readable : Bool) (size : ℕ) (source : GoString) (srv : Server)
      → (r : Cache × Option Error) → (r.1 ≡ none → (row : Row) × (lookup h (r.0).rows ≡ some row))
      → is_readable ≡ true
      → Set (finished (moved env got is_readable size source h srv r))
  moved-Ready got is_readable size source srv (c, none) held e =
      let (row, at) = held refl in
      (row, ap (λ d. lookup h d.rows) (announce_async-cache env h (after_call c srv)) ∙ at)
  moved-Ready got true size source srv (c, some err) held e = tt
  moved-Ready got false size source srv (c, some err) held e = cc

  process_file-Ready :
      (got : List ℕ) (is_readable : Bool) (size : ℕ) (source path : GoString) (srv : Server)
      → is_readable ≡ true
      → Sound env.hash_bytes srv.cache
      → Set (finished (process_file env got is_readable size source h path srv))
  unfolding process_file put_file
  process_file-Ready got is_readable size source path srv e w =
      moved-Ready got is_readable size source srv
        (put_file (env.system srv.calls) got h path size (cache_now env srv))
        (λ f.
          let (fits, in_table) =
            commit-fits env.hash_bytes (env.system srv.calls) got h path size (cache_now env srv)
              (kind env calm h srv.calls srv.cache w) f in
          let (row, at, rest) = in_table in (row, at))
        e

  process_download_success-Ready :
      (result : DownloadResult) (path : GoString) (srv : Server)
      → Readable (some result)
      → Sound env.hash_bytes srv.cache
      → Set (finished (process_download_success env result h path srv))
  unfolding process_download_success
  process_download_success-Ready result path srv readable w = go result.body readable
    where
      counted : Server
      counted = record srv { stats = count_result result srv.stats }

      go :
          (b : Body)
          → ReadableBody b
          → Set (
              finished (elim b as (λ x. Server × Package) [
                | in_memory got ↦
                    (cache_and_announce env got h path counted, buffered got result.source)
                | in_file got is_readable ↦
                    process_file env got is_readable result.size result.source h path counted
              ]))
      go (in_memory got) e = tt
      go (in_file got is_readable) e =
          process_file-Ready got is_readable result.size result.source path counted e w

  ask_network-Ready :
      (size : ℤ) (path : GoString) (srv : Server)
      → Readable env.download
      → Sound env.hash_bytes srv.cache
      → Set (ask_network env h size path srv)
  unfolding ask_network
  ask_network-Ready size path srv readable w =
      go (is_positive size && ltb 0 (length env.providers)) env.download readable
    where
      go :
          (b : Bool) (o : Option DownloadResult)
          → Readable o
          → Set (elim b as (λ x. Server × Option Package) [
            | false ↦ peers_or_mirror env h path srv
            | true ↦ elim o [
              | none ↦ peers_or_mirror env h path srv
              | some result ↦ finished (process_download_success env result h path srv)
            ]
          ])
      go false o d = peers_or_mirror-Ready env calm h bytes same streams fetches path srv w
      go true none d = peers_or_mirror-Ready env calm h bytes same streams fetches path srv w
      go true (some result) d = process_download_success-Ready result path srv d w

  told-Ready : (r : Server × Option Package) → Set r → Set (told_fleet h r)
  told-Ready (srv, none) w = w
  told-Ready (srv, some (buffered got source)) w = w
  told-Ready (srv, some (cached size source)) w = w

  ask_fleet-Ready :
      (path : GoString) (srv : Server)
      → ((ask_fleet env h path srv).1 ≡ none) ⊎ Set (ask_fleet env h path srv)
  unfolding ask_fleet
  ask_fleet-Ready path srv = ended env.fleet refl
    where
      from :
          (p : ℕ)
          → ((count_if_got (download_from_fleet_peer env p h path srv)).1 ≡ none)
            ⊎ Set (count_if_got (download_from_fleet_peer env p h path srv))
      from p =
          counted-Ready env calm h bytes same streams fetches
            (download_from_fleet_peer env p h path srv)

      ended :
          (o : Option (Option FleetAnswer))
          → env.fleet ≡ o
          → ((ask_fleet env h path srv).1 ≡ none) ⊎ Set (ask_fleet env h path srv)
      ended none e = rw (e, ask_fleet) (inl refl)
      ended (some none) e = rw (e, ask_fleet) (inl refl)
      ended (some (some (fetch_lan p))) e = rw (e, ask_fleet) (from p)
      ended (some (some (wait_peer p (some true)))) e = rw (e, ask_fleet) (from p)
      ended (some (some (wait_peer p (some false)))) e = rw (e, ask_fleet) (inl refl)
      ended (some (some (wait_peer p none))) e = rw (e, ask_fleet) (inl refl)
      ended (some (some fetch_wan)) e = rw (e, ask_fleet) (inl refl)

  or_network-Ready :
      (size : ℤ) (path : GoString) (r : Server × Option Package)
      → Readable env.download
      → Sound env.hash_bytes (r.0).cache
      → (r.1 ≡ none) ⊎ Set r
      → Set (or_network env h size path r)
  or_network-Ready size path (srv, some package') readable w (inl e) = cc
  or_network-Ready size path (srv, some package') readable w (inr ready) = ready
  or_network-Ready size path (srv, none) readable w how = go env.fleet
    where
      go :
          (o : Option (Option FleetAnswer))
          → Set (elim o as (λ x. Server × Option Package) [
            | none ↦ ask_network env h size path srv
            | some answer ↦
                told_fleet h (ask_network env h size path (say (notify_fetching h size) srv))
          ])
      go none = ask_network-Ready size path srv readable w
      go (some answer) =
          told-Ready (ask_network env h size path (say (notify_fetching h size) srv))
            (ask_network-Ready size path (say (notify_fetching h size) srv) readable w)

  pub download_package-Ready :
      (size : ℤ) (path : GoString) (srv : Server)
      → Readable env.download
      → Sound env.hash_bytes srv.cache
      → Ready env calm h (download_package env h size path srv)
  unfolding download_package
  download_package-Ready size path srv readable w =
      or_network-Ready size path (ask_fleet env h path srv) readable
        (fetched-Sound (ask_fleet env h path srv)
          (ask_fleet-Fetched env (kind env calm h) h path srv w))
        (ask_fleet-Ready path srv)
    where
      fetched-Sound :
          (r : Server × Option Package)
          → Fetched env (kind env calm h) h r
          → Sound env.hash_bytes (r.0).cache
      fetched-Sound (s, none) v = v
      fetched-Sound (s, some package') v = v.0
