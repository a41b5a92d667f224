-- ===== src/Proxy/Requests/Asked.antt =====
-- internal/proxy/server.go: what the fleet, the peers and the mirror give, and the cache after it.
use debswarm.Prelude.{
  ℕ, ◌≡◌, refl, Option, none, some, Bool, true, false, List, [], ◌∷◌, length, GoString, str_eq,
  eq_iff, if◌then◌else◌,
}
use debswarm.Cache.State.{
  Error, not_found, hash_mismatch, insufficient_disk_space, cache_full, file_in_use, no_row,
  write_failed, remove_failed, move_failed, open_failed,
}
use debswarm.Proxy.Requests.{
  Server, Surroundings, Package, blacklisted, count_mirror_bytes, count_mirror_request, buffered,
  FleetAnswer, fetch_lan, wait_peer, fetch_wan, say, put_bytes, verify_and_cache,
}
use debswarm.Proxy.Requests.Download.{
  source_mirror, download_from_fleet_peer, ask_fleet, ask_peers, ask_mirror, count_if_got, mirrored,
  refetch, or_mirror, whole?, peers_or_mirror, first_three,
}
use debswarm.Proxy.Requests.Trust.{
  Considerate, Good, Judged, Fetched, put_bytes-Good, announce-Good, verify_and_cache-Judged,
  download_from_fleet_peer-Got, counted-Fetched,
}

module _ (env : Surroundings) (kind : Considerate env) (h : GoString) where
  abbrev Fine : Server × Option Package → Type 0
  Fine = Fetched env kind h

  pub ask_fleet-Fetched :
      (path : GoString) (srv : Server) → Good env kind h srv → Fine (ask_fleet env h path srv)
  unfolding ask_fleet
  ask_fleet-Fetched path srv w = go env.fleet
    where
      from : (p : ℕ) → Fine (count_if_got (download_from_fleet_peer env p h path srv))
      from p =
          counted-Fetched env kind h (download_from_fleet_peer env p h path srv)
            (download_from_fleet_peer-Got env kind h p path srv w)

      go :
          (o : Option (Option FleetAnswer))
          → Fine (elim o as (λ x. Server × Option Package) [
            | none ↦ (srv, none)
            | some none ↦ (srv, none)
            | some (some (fetch_lan p)) ↦ count_if_got (download_from_fleet_peer env p h path srv)
            | some (some (wait_peer p (some true))) ↦
                count_if_got (download_from_fleet_peer env p h path srv)
            | some (some (wait_peer p (some false))) ↦ (srv, none)
            | some (some (wait_peer p none)) ↦ (srv, none)
            | some (some fetch_wan) ↦ (srv, none)
          ])
      go none = w
      go (some none) = w
      go (some (some (fetch_lan p))) = from p
      go (some (some (wait_peer p (some true)))) = from p
      go (some (some (wait_peer p (some false)))) = w
      go (some (some (wait_peer p none))) = w
      go (some (some fetch_wan)) = w

  pub ask_peers-Fetched :
      (ps : List (ℕ × Option (List ℕ))) (path : GoString) (srv : Server)
      → Good env kind h srv
      → Fine (ask_peers env ps h path srv)
  unfolding ask_peers
  ask_peers-Fetched [] path srv w = w
  ask_peers-Fetched ((p, none) ∷ ps) path srv w = ask_peers-Fetched ps path srv w
  ask_peers-Fetched ((p, some bytes) ∷ ps) path srv w =
      go (λ s v. ask_peers-Fetched ps path s v) (verify_and_cache env bytes h path srv)
        (verify_and_cache-Judged env kind h bytes path srv w)
    where
      go :
          ((s : Server) → Good env kind h s → Fine (ask_peers env ps h path s))
          → (r : Server × Bool) → Judged env kind h bytes r
          → Fine (elim (r.1) as (λ x. Server × Option Package) [
            | true ↦ count_if_got (r.0, some bytes)
            | false ↦ ask_peers env ps h path (say (blacklisted p) (r.0))
          ])
      go later (s, true) v = v
      go later (s, false) v = later (say (blacklisted p) s) v

  refetch-Fetched : (srv : Server) → Good env kind h srv → Fine (refetch env h srv)
  refetch-Fetched srv w = go env.fetch
    where
      if_equal :
          (bytes : List ℕ) (b : Bool)
          → str_eq (env.hash_bytes bytes) h ≡ b
          → Fine (
              if b
              then (
                record srv { stats = count_mirror_bytes (length bytes) srv.stats },
                some (buffered bytes source_mirror),
              )
              else (srv, none))
      if_equal bytes true e = (w, (eq_iff (env.hash_bytes bytes) h).0 e)
      if_equal bytes false e = w

      go :
          (o : Option (List ℕ))
          → Fine (elim o as (λ x. Server × Option Package) [
            | none ↦ (srv, none)
            | some bytes ↦
                if str_eq (env.hash_bytes bytes) h
                then (
                  record srv { stats = count_mirror_bytes (length bytes) srv.stats },
                  some (buffered bytes source_mirror),
                )
                else (srv, none)
          ])
      go none = w
      go (some bytes) = if_equal bytes (str_eq (env.hash_bytes bytes) h) refl

  mirrored-Fetched :
      (n : ℕ) (r : Server × Option Error) → Good env kind h (r.0) → Fine (mirrored env h n r)
  mirrored-Fetched n (srv, none) w =
      (announce-Good env kind h (record srv { stats = count_mirror_bytes n srv.stats }) w, tt)
  mirrored-Fetched n (srv, some hash_mismatch) w = w
  mirrored-Fetched n (srv, some not_found) w = refetch-Fetched srv w
  mirrored-Fetched n (srv, some insufficient_disk_space) w = refetch-Fetched srv w
  mirrored-Fetched n (srv, some cache_full) w = refetch-Fetched srv w
  mirrored-Fetched n (srv, some file_in_use) w = refetch-Fetched srv w
  mirrored-Fetched n (srv, some no_row) w = refetch-Fetched srv w
  mirrored-Fetched n (srv, some write_failed) w = refetch-Fetched srv w
  mirrored-Fetched n (srv, some open_failed) w = refetch-Fetched srv w
  mirrored-Fetched n (srv, some remove_failed) w = refetch-Fetched srv w
  mirrored-Fetched n (srv, some move_failed) w = refetch-Fetched srv w

  ask_mirror-Fetched :
      (path : GoString) (srv : Server) → Good env kind h srv → Fine (ask_mirror env h path srv)
  unfolding ask_mirror
  ask_mirror-Fetched path srv w = go env.stream
    where
      asked : Server
      asked = record srv { stats = count_mirror_request srv.stats }

      go :
          (o : Option (List ℕ × Bool))
          → Fine (elim o as (λ x. Server × Option Package) [
            | none ↦ (asked, none)
            | some body ↦ mirrored env h (length body.0) (put_bytes env (whole? body) h path asked)
          ])
      go none = w
      go (some body) =
          mirrored-Fetched (length body.0) (put_bytes env (whole? body) h path asked)
            (put_bytes-Good env kind h (whole? body) path asked w)

  pub peers_or_mirror-Fetched :
      (path : GoString) (srv : Server) → Good env kind h srv → Fine (peers_or_mirror env h path srv)
  peers_or_mirror-Fetched path srv w =
      go (ask_peers env (first_three env.providers) h path srv)
        (ask_peers-Fetched (first_three env.providers) path srv w)
    where
      go : (r : Server × Option Package) → Fine r → Fine (or_mirror env h path r)
      go (s, some package') v = v
      go (s, none) v = ask_mirror-Fetched path s v
