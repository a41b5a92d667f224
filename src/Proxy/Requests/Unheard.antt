-- ===== src/Proxy/Requests/Unheard.antt =====
-- internal/proxy/server.go: the fleet hears nothing while the peers and the mirror are asked.
use debswarm.Prelude.{
  ℕ, ◌≡◌, refl, ap, ◌∙◌, Option, none, some, Bool, true, false, List, [], ◌∷◌, arith, length,
  if◌then◌else◌, GoString, str_eq,
}
use debswarm.Cache.State.{
  Error, not_found, hash_mismatch, insufficient_disk_space, cache_full, file_in_use, no_row,
  write_failed, remove_failed, move_failed, open_failed,
}
use debswarm.Proxy.Requests.{
  count_mirror_bytes, count_mirror_request, Event, blacklisted, Server, Surroundings, Package,
  buffered, say, put_bytes, verify_and_cache,
}
use debswarm.Proxy.Requests.Download.{
  source_mirror, ask_peers, ask_mirror, count_if_got, mirrored, refetch, or_mirror, whole?,
  peers_or_mirror, first_three,
}
use debswarm.Proxy.Requests.Notices.{
  notices, Quiet, said-Quiet, announce-Quiet, put_bytes-Quiet, verify_and_cache-Quiet,
}

module _ (env : Surroundings) (h : GoString) (base : List Event) where
  abbrev Still : Server → Type 0
  Still = Quiet env h base

  ask_peers-Quiet :
      (ps : List (ℕ × Option (List ℕ))) (path : GoString) (srv : Server)
      → Still srv
      → Still (ask_peers env ps h path srv).0
  unfolding ask_peers
  ask_peers-Quiet [] path srv w = w
  ask_peers-Quiet ((p, none) ∷ ps) path srv w = ask_peers-Quiet ps path srv w
  ask_peers-Quiet ((p, some bytes) ∷ ps) path srv w =
      go (λ s v. ask_peers-Quiet ps path s v) (verify_and_cache env bytes h path srv)
        (verify_and_cache-Quiet env h base bytes path srv w)
    where
      go :
          ((s : Server) → Still s → Still (ask_peers env ps h path s).0)
          → (r : Server × Bool) → Still (r.0)
          → Still
              (elim (r.1) as (λ x. Server × Option Package) [
                | true ↦ count_if_got (r.0, some bytes)
                | false ↦ ask_peers env ps h path (say (blacklisted p) (r.0))
              ]).0
      go later (s, true) v = v
      go later (s, false) v =
          later (say (blacklisted p) s) (said-Quiet env h base s (blacklisted p) refl v)

  refetch-events : (srv : Server) → (refetch env h srv).0.events ≡ srv.events
  refetch-events srv = go env.fetch
    where
      go :
          (o : Option (List ℕ))
          → (elim o as (λ x. Server × Option Package) [
            | none ↦ (srv, none)
            | some bytes ↦
                if str_eq (env.hash_bytes bytes) h
                then (
                  record srv { stats = count_mirror_bytes (length bytes) srv.stats },
                  some (buffered bytes source_mirror),
                )
                else (srv, none)
          ]).0.events
            ≡ srv.events
      go none = refl
      go (some bytes) = ground arith

  refetch-Quiet : (srv : Server) → Still srv → Still (refetch env h srv).0
  refetch-Quiet srv w = ap notices (refetch-events srv) ∙ w

  mirrored-Quiet : (n : ℕ) (r : Server × Option Error) → Still (r.0) → Still (mirrored env h n r).0
  mirrored-Quiet n (srv, none) w =
      announce-Quiet env h base (record srv { stats = count_mirror_bytes n srv.stats }) w
  mirrored-Quiet n (srv, some hash_mismatch) w = w
  mirrored-Quiet n (srv, some not_found) w = refetch-Quiet srv w
  mirrored-Quiet n (srv, some insufficient_disk_space) w = refetch-Quiet srv w
  mirrored-Quiet n (srv, some cache_full) w = refetch-Quiet srv w
  mirrored-Quiet n (srv, some file_in_use) w = refetch-Quiet srv w
  mirrored-Quiet n (srv, some no_row) w = refetch-Quiet srv w
  mirrored-Quiet n (srv, some write_failed) w = refetch-Quiet srv w
  mirrored-Quiet n (srv, some open_failed) w = refetch-Quiet srv w
  mirrored-Quiet n (srv, some remove_failed) w = refetch-Quiet srv w
  mirrored-Quiet n (srv, some move_failed) w = refetch-Quiet srv w

  ask_mirror-Quiet :
      (path : GoString) (srv : Server) → Still srv → Still (ask_mirror env h path srv).0
  unfolding ask_mirror
  ask_mirror-Quiet path srv w = go env.stream
    where
      asked : Server
      asked = record srv { stats = count_mirror_request srv.stats }

      go :
          (o : Option (List ℕ × Bool))
          → Still
              (elim o as (λ x. Server × Option Package) [
                | none ↦ (asked, none)
                | some body ↦
                    mirrored env h (length body.0) (put_bytes env (whole? body) h path asked)
              ]).0
      go none = w
      go (some body) =
          mirrored-Quiet (length body.0) (put_bytes env (whole? body) h path asked)
            (put_bytes-Quiet env h base (whole? body) path asked w)

  pub peers_or_mirror-Quiet :
      (path : GoString) (srv : Server) → Still srv → Still (peers_or_mirror env h path srv).0
  peers_or_mirror-Quiet path srv w =
      go (ask_peers env (first_three env.providers) h path srv)
        (ask_peers-Quiet (first_three env.providers) path srv w)
    where
      go : (r : Server × Option Package) → Still (r.0) → Still (or_mirror env h path r).0
      go (s, some package') v = v
      go (s, none) v = ask_mirror-Quiet path s v
