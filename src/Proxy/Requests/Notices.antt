-- ===== src/Proxy/Requests/Notices.antt =====
-- internal/proxy/server.go: what `downloadPackage` tells the fleet.
use debswarm.Prelude.{
  ℕ, ◌≡◌, refl, ap, ◌∙◌, Option, none, some, Bool, true, false, List, [], ◌∷◌, ◌++◌, if◌then◌else◌,
  GoString,
}
use debswarm.Cache.State.{
  Error, not_found, hash_mismatch, insufficient_disk_space, cache_full, file_in_use, no_row,
  write_failed, remove_failed, move_failed, open_failed,
}
use debswarm.Proxy.Requests.{
  Event, notify_fetching, notify_complete, notify_failed, announced, verify_async, blacklisted,
  Server, Surroundings, Package, FleetAnswer, fetch_lan, wait_peer, fetch_wan, say, put_bytes,
  announce_async, announce_and_verify, verify_and_cache, judged,
}
use debswarm.Proxy.Requests.Download.{
  download_from_fleet_peer, ask_fleet, count_if_got, kept_or_blacklisted,
}

abbrev pub notices : List Event → List Event
notices [] = []
notices (notify_fetching h size ∷ es) = notify_fetching h size ∷ notices es
notices (notify_complete h ∷ es) = notify_complete h ∷ notices es
notices (notify_failed h ∷ es) = notify_failed h ∷ notices es
notices (announced h ∷ es) = notices es
notices (verify_async h ∷ es) = notices es
notices (blacklisted p ∷ es) = notices es

pub notices-append : (es fs : List Event) → notices (es ++ fs) ≡ notices es ++ notices fs
notices-append [] fs = refl
notices-append (notify_fetching h size ∷ es) fs =
    ap (λ x. notify_fetching h size ∷ x) (notices-append es fs)
notices-append (notify_complete h ∷ es) fs = ap (λ x. notify_complete h ∷ x) (notices-append es fs)
notices-append (notify_failed h ∷ es) fs = ap (λ x. notify_failed h ∷ x) (notices-append es fs)
notices-append (announced h ∷ es) fs = notices-append es fs
notices-append (verify_async h ∷ es) fs = notices-append es fs
notices-append (blacklisted p ∷ es) fs = notices-append es fs

pub append-nil : (es : List Event) → es ++ [] ≡ es
append-nil [] = refl
append-nil (e ∷ es) = ap (λ x. e ∷ x) (append-nil es)

module _ (env : Surroundings) (h : GoString) (base : List Event) where
  -- The fleet has heard no more than this.
  abbrev pub Quiet : Server → Type 0
  Quiet srv = notices srv.events ≡ base

  pub said-Quiet :
      (srv : Server) (e : Event) → notices (e ∷ []) ≡ [] → Quiet srv → Quiet (say e srv)
  said-Quiet srv e silent w =
      notices-append srv.events (e ∷ [])
      ∙ (ap (λ x. notices srv.events ++ x) silent ∙ (append-nil (notices srv.events) ∙ w))

  pub announce_async-Quiet : (srv : Server) → Quiet srv → Quiet (announce_async env h srv)
  unfolding announce_async
  announce_async-Quiet srv w = go env.has_p2p_node
    where
      go : (b : Bool) → Quiet (if b then say (announced h) srv else srv)
      go true = said-Quiet srv (announced h) refl w
      go false = w

  pub announce-Quiet : (srv : Server) → Quiet srv → Quiet (announce_and_verify env h srv)
  announce-Quiet srv w = go env.has_verifier
    where
      srv' : Server
      srv' = announce_async env h srv

      go : (b : Bool) → Quiet (if b then say (verify_async h) srv' else srv')
      go true = said-Quiet srv' (verify_async h) refl (announce_async-Quiet srv w)
      go false = announce_async-Quiet srv w

  judged-Quiet :
      (bytes : List ℕ) (r : Server × Option Error) → Quiet (r.0) → Quiet (judged env bytes h r).0
  judged-Quiet bytes (srv, none) w = announce-Quiet srv w
  judged-Quiet bytes (srv, some hash_mismatch) w = w
  judged-Quiet bytes (srv, some not_found) w = w
  judged-Quiet bytes (srv, some insufficient_disk_space) w = w
  judged-Quiet bytes (srv, some cache_full) w = w
  judged-Quiet bytes (srv, some file_in_use) w = w
  judged-Quiet bytes (srv, some no_row) w = w
  judged-Quiet bytes (srv, some write_failed) w = w
  judged-Quiet bytes (srv, some open_failed) w = w
  judged-Quiet bytes (srv, some remove_failed) w = w
  judged-Quiet bytes (srv, some move_failed) w = w

  pub put_bytes-Quiet :
      (bytes? : Option (List ℕ)) (path : GoString) (srv : Server)
      → Quiet srv
      → Quiet (put_bytes env bytes? h path srv).0
  unfolding put_bytes
  put_bytes-Quiet bytes? path srv w = w

  pub verify_and_cache-Quiet :
      (bytes : List ℕ) (path : GoString) (srv : Server)
      → Quiet srv
      → Quiet (verify_and_cache env bytes h path srv).0
  unfolding verify_and_cache
  verify_and_cache-Quiet bytes path srv w =
      judged-Quiet bytes (put_bytes env (some bytes) h path srv)
        (put_bytes-Quiet (some bytes) path srv w)

  kept-Quiet :
      (p : ℕ) (bytes : List ℕ) (r : Server × Bool)
      → Quiet (r.0)
      → Quiet (count_if_got (kept_or_blacklisted p bytes r)).0
  kept-Quiet p bytes (srv, true) w = w
  kept-Quiet p bytes (srv, false) w = said-Quiet srv (blacklisted p) refl w

  pub ask_fleet-Quiet :
      (path : GoString) (srv : Server) → Quiet srv → Quiet (ask_fleet env h path srv).0
  unfolding ask_fleet download_from_fleet_peer
  ask_fleet-Quiet path srv w = go env.fleet
    where
      sent_by :
          (p : ℕ) (o : Option (List ℕ))
          → Quiet
              (count_if_got (elim o as (λ x. Server × Option (List ℕ)) [
                | none ↦ (srv, none)
                | some bytes ↦ kept_or_blacklisted p bytes (verify_and_cache env bytes h path srv)
              ])).0
      sent_by p none = w
      sent_by p (some bytes) =
          kept-Quiet p bytes (verify_and_cache env bytes h path srv)
            (verify_and_cache-Quiet bytes path srv w)

      from : (p : ℕ) → Quiet (count_if_got (download_from_fleet_peer env p h path srv)).0
      from p = sent_by p (env.fleet_download p)

      go :
          (o : Option (Option FleetAnswer))
          → Quiet
              (elim o as (λ x. Server × Option Package) [
                | none ↦ (srv, none)
                | some none ↦ (srv, none)
                | some (some (fetch_lan p)) ↦
                    count_if_got (download_from_fleet_peer env p h path srv)
                | some (some (wait_peer p (some true))) ↦
                    count_if_got (download_from_fleet_peer env p h path srv)
                | some (some (wait_peer p (some false))) ↦ (srv, none)
                | some (some (wait_peer p none)) ↦ (srv, none)
                | some (some fetch_wan) ↦ (srv, none)
              ]).0
      go none = w
      go (some none) = w
      go (some (some (fetch_lan p))) = from p
      go (some (some (wait_peer p (some true)))) = from p
      go (some (some (wait_peer p (some false)))) = w
      go (some (some (wait_peer p none))) = w
      go (some (some fetch_wan)) = w
