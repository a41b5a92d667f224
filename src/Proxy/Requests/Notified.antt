-- ===== src/Proxy/Requests/Notified.antt =====
-- internal/proxy/server.go: the fleet hears of each download that it did not give itself.
use debswarm.Prelude.{
  ℕ, ◌≡◌, refl, sym, ap, ◌∙◌, Option, none, some, Bool, true, false, List, [], ◌∷◌, length, ◌++◌,
  ltb, ◌&&◌, GoString,
}
use debswarm.Prelude.Int.{ℤ}
use debswarm.Cache.State.{Error, Cache}
use debswarm.Cache.Store.{put_file}
use debswarm.Proxy.Requests.{
  Event, notify_fetching, notify_complete, notify_failed, Server, Surroundings, Package, buffered,
  FleetAnswer, Body, in_memory, in_file, DownloadResult, say, cache_now, after_call, put_bytes,
  cache_and_announce, announced_if_put,
}
use debswarm.Proxy.Requests.Download.{
  count_result, is_positive, ask_fleet, process_file, process_download_success, ask_network,
  download_package, moved, finished, or_network, peers_or_mirror, told_fleet,
}
use debswarm.Proxy.Requests.Notices.{
  notices, notices-append, append-nil, Quiet, announce_async-Quiet, announce-Quiet, put_bytes-Quiet,
  ask_fleet-Quiet,
}
use debswarm.Proxy.Requests.Unheard.{peers_or_mirror-Quiet}

module _ (env : Surroundings) (h : GoString) (base : List Event) where
  abbrev Still : Server → Type 0
  Still = Quiet env h base

  moved-Quiet :
      (bytes : List ℕ) (is_readable : Bool) (size : ℕ) (source : GoString) (srv : Server)
      → (r : Cache × Option Error) → Still srv
      → Still (moved env bytes is_readable size source h srv r).0
  moved-Quiet bytes is_readable size source srv (c, none) w =
      announce_async-Quiet env h base (after_call c srv) w
  moved-Quiet bytes is_readable size source srv (c, some e) w = w

  announced-Quiet : (r : Server × Option Error) → Still (r.0) → Still (announced_if_put env h r)
  announced-Quiet (srv, none) w = announce-Quiet env h base srv w
  announced-Quiet (srv, some e) w = w

  process_download_success-Quiet :
      (result : DownloadResult) (path : GoString) (srv : Server)
      → Still srv
      → Still (process_download_success env result h path srv).0
  unfolding process_download_success process_file cache_and_announce
  process_download_success-Quiet result path srv w = go result.body
    where
      counted : Server
      counted = record srv { stats = count_result result srv.stats }

      go :
          (b : Body)
          → Still
              (elim b as (λ x. Server × Package) [
                | in_memory bytes ↦
                    (cache_and_announce env bytes h path counted, buffered bytes result.source)
                | in_file bytes is_readable ↦
                    process_file env bytes is_readable result.size result.source h path counted
              ]).0
      go (in_memory bytes) =
          announced-Quiet (put_bytes env (some bytes) h path counted)
            (put_bytes-Quiet env h base (some bytes) path counted w)
      go (in_file bytes is_readable) =
          moved-Quiet bytes is_readable result.size result.source counted
            (put_file (env.system counted.calls) bytes h path result.size (cache_now env counted)) w

  ask_network-Quiet :
      (size : ℤ) (path : GoString) (srv : Server)
      → Still srv
      → Still (ask_network env h size path srv).0
  unfolding ask_network
  ask_network-Quiet size path srv w =
      go (is_positive size && ltb 0 (length env.providers)) env.download
    where
      go :
          (b : Bool) (o : Option DownloadResult)
          → Still
              (elim b as (λ x. Server × Option Package) [
                | false ↦ peers_or_mirror env h path srv
                | true ↦ elim o [
                  | none ↦ peers_or_mirror env h path srv
                  | some result ↦ finished (process_download_success env result h path srv)
                ]
              ]).0
      go false o = peers_or_mirror-Quiet env h base path srv w
      go true none = peers_or_mirror-Quiet env h base path srv w
      go true (some result) = process_download_success-Quiet result path srv w

-- How a download ends for the fleet.
abbrev pub ended : GoString → Option Package → Event
ended h none = notify_failed h
ended h (some package') = notify_complete h

-- What the fleet is to hear: nothing if there is none, or if it gave the package itself.
abbrev pub expected_notices :
    GoString → ℤ → Option (Option FleetAnswer) → Option Package → Option Package → List Event
expected_notices h size none from_fleet result = []
expected_notices h size (some answer) (some package') result = []
expected_notices h size (some answer) none result = notify_fetching h size ∷ ended h result ∷ []

append_two : (es : List Event) (a b : Event) → (es ++ a ∷ []) ++ b ∷ [] ≡ es ++ a ∷ b ∷ []
append_two [] a b = refl
append_two (e ∷ es) a b = ap (λ x. e ∷ x) (append_two es a b)

two_notices :
    {base : List Event} (es fs : List Event) (a b : Event)
    → notices (a ∷ []) ≡ a ∷ []
    → notices (b ∷ []) ≡ b ∷ []
    → notices es ≡ base
    → notices fs ≡ notices (es ++ a ∷ [])
    → notices (fs ++ b ∷ []) ≡ base ++ a ∷ b ∷ []
two_notices {base} es fs a b is_a is_b before during =
    let first : notices (es ++ a ∷ []) ≡ base ++ a ∷ [] =
      rw (notices-append es (a ∷ []), before, is_a) refl in
    let last : notices (fs ++ b ∷ []) ≡ notices fs ++ b ∷ [] =
      rw (notices-append fs (b ∷ []), is_b) refl in
    last ∙ (ap (λ x. x ++ b ∷ []) (during ∙ first) ∙ append_two base a b)

-- The notices that `downloadPackage` sends to the fleet: none if there is no fleet or if a peer of
-- the fleet gave the package, else that the fetch begins, with the size, and then, once, that it
-- is complete if the download returns a package and that it has failed if it returns an error.
pub download_package-notices :
    (env : Surroundings) (h : GoString) (size : ℤ) (path : GoString) (srv : Server)
    → notices (download_package env h size path srv).0.events
      ≡ notices srv.events
        ++ expected_notices h size env.fleet
            (ask_fleet env h path srv).1
            (download_package env h size path srv).1
unfolding download_package
download_package-notices env h size path srv =
    go (ask_fleet env h path srv) (ask_fleet-Quiet env h (notices srv.events) path srv refl)
  where
    over :
        (s : Server) (r : Server × Option Package) (o : Option FleetAnswer)
        → notices s.events ≡ notices srv.events
        → notices (r.0.events) ≡ notices (say (notify_fetching h size) s).events
        → notices (told_fleet h r).0.events
          ≡ notices srv.events ++ expected_notices h size (some o) none (told_fleet h r).1
    over s (s', none) o before during =
        two_notices s.events s'.events (notify_fetching h size) (notify_failed h) refl refl before
          during
    over s (s', some package') o before during =
        two_notices s.events s'.events (notify_fetching h size) (notify_complete h) refl refl before
          during

    go :
        (r : Server × Option Package)
        → notices (r.0.events) ≡ notices srv.events
        → notices (or_network env h size path r).0.events
          ≡ notices srv.events
            ++ expected_notices h size env.fleet (r.1) (or_network env h size path r).1
    go (s, some package') w = given env.fleet
      where
        given :
            (o : Option (Option FleetAnswer))
            → notices s.events
              ≡ notices srv.events ++ expected_notices h size o (some package') (some package')
        given none = w ∙ sym (append-nil (notices srv.events))
        given (some answer) = w ∙ sym (append-nil (notices srv.events))
    go (s, none) w = decide env.fleet
      where
        began : Server
        began = say (notify_fetching h size) s

        decide :
            (o : Option (Option FleetAnswer))
            → notices
                (elim o as (λ x. Server × Option Package) [
                  | none ↦ ask_network env h size path s
                  | some answer ↦ told_fleet h (ask_network env h size path began)
                ]).0.events
              ≡ notices srv.events
                ++ expected_notices h size o none
                    (elim o as (λ x. Server × Option Package) [
                      | none ↦ ask_network env h size path s
                      | some answer ↦ told_fleet h (ask_network env h size path began)
                    ]).1
        decide none =
            ask_network-Quiet env h (notices srv.events) size path s w
            ∙ sym (append-nil (notices srv.events))
        decide (some answer) =
            over s (ask_network env h size path began) answer w
              (ask_network-Quiet env h (notices began.events) size path began refl)
