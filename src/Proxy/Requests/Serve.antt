-- ===== src/Proxy/Requests/Serve.antt =====
-- internal/proxy/server.go: `handlePackageRequest`, from the index to the response.
use debswarm.Prelude.{
  ℕ, ◌+◌, Option, none, some, Bool, true, false, not, ◌&&◌, List, [], ◌∷◌, if◌then◌else◌, length,
  GoString, codes,
}
use debswarm.Index.{PackageInfo, Index, has_index_file}
use debswarm.Index.Load.{Outer, load_from_data, load_sources_from_data, get_by_url_path}
use debswarm.Index.Sources.{is_hex64}
use debswarm.Cache.State.{has}
use debswarm.Proxy.Urls.{is_packages_index_url, is_sources_index_url, is_verifiable_index_url}
use debswarm.Proxy.Requests.{
  Server, Surroundings, Package, buffered, cached, count_mirror_bytes, count_mirror_request,
  cache_now, read_cached,
}
use debswarm.Proxy.Requests.Download.{download_package}

-- `sent` has the bytes, the length that the header tells, and the source. `streamed` is a package
-- straight from the mirror, with whether it breaks off.
pub data Response : Type 0 where
  sent : List ℕ → ℕ → GoString → Response
  streamed : List ℕ → Bool → Response
  bad_gateway unavailable cache_error : Response

unfoldable pub load_index_into : Outer → GoString → List ℕ → Index → Index
load_index_into o url bytes idx =
    if is_packages_index_url url
    then (load_from_data o bytes url idx).0
    else if is_sources_index_url url
    then (load_sources_from_data o bytes url idx).0
    else idx

-- The loop over the cached metadata.
unfoldable pub warm : Surroundings → List (GoString × Option (List ℕ)) → Index → Index
unfolding load_index_into has_index_file
warm env [] idx = idx
warm env ((url, none) ∷ rest) idx = warm env rest idx
warm env ((url, some bytes) ∷ rest) idx =
    elim (is_verifiable_index_url url
      && not (has_index_file url idx)
      && env.is_verified url bytes) [
        | false ↦ warm env rest idx
        | true ↦ warm env rest (load_index_into env.outer url bytes idx)
      ]

unfoldable pub warm_index_from_cache_once : Surroundings → Server → Server
unfolding warm
warm_index_from_cache_once env srv =
    if srv.warmed
    then srv
    else record srv { warmed = true; index = warm env env.metadata srv.index }

-- The package of the index, if its hash has the form of one.
unfoldable pub resolve : Surroundings → GoString → Index → Option PackageInfo
resolve env url idx = elim (get_by_url_path env.outer url idx) [
  | none ↦ none
  | some p ↦ if is_hex64 p.sha256 then some p else none
]

abbrev pub sent_from_cache : ℕ → GoString → Server × Option (List ℕ × ℕ) → Server × Response
sent_from_cache size source (srv, none) = (srv, cache_error)
sent_from_cache size source (srv, some (bytes, row_size)) = (srv, sent bytes size source)

unfoldable pub serve_package_result : Surroundings → GoString → Package → Server → Server × Response
unfolding read_cached
serve_package_result env h (buffered bytes source) srv = (srv, sent bytes (length bytes) source)
serve_package_result env h (cached size source) srv =
    sent_from_cache size source (read_cached env h srv)

unfoldable pub stream_uncached_package : Surroundings → Server → Server × Response
stream_uncached_package env srv = elim env.stream [
  | none ↦ (srv, bad_gateway)
  | some (bytes, broken) ↦ (
    record srv { stats = count_mirror_bytes (length bytes) (count_mirror_request srv.stats) },
    streamed bytes broken,
  )
]

abbrev pub served : Surroundings → GoString → Server × Option Package → Server × Response
served env h (srv, none) = (srv, bad_gateway)
served env h (srv, some package') = serve_package_result env h package' srv

-- A package that is not in the cache, or cannot be read from it.
unfoldable pub fetch_package : Surroundings → PackageInfo → Server → Server × Response
unfolding serve_package_result
fetch_package env p srv = elim env.is_offline [
  | true ↦ (srv, unavailable)
  | false ↦ served env p.sha256 (download_package env p.sha256 p.size p.filename srv)
]

abbrev pub hit_or_fetched :
    Surroundings → PackageInfo → Server × Option (List ℕ × ℕ) → Server × Response
hit_or_fetched env p (srv, none) = fetch_package env p srv
hit_or_fetched env p (srv, some (bytes, size)) = (
  record srv { stats = record (srv.stats) { cache_hits = srv.stats.cache_hits + 1 } },
  sent bytes size (codes "cache"),
)

unfoldable pub serve_package : Surroundings → PackageInfo → Server → Server × Response
unfolding read_cached fetch_package
serve_package env p srv = elim (has p.sha256 (cache_now env srv)) [
  | false ↦ fetch_package env p srv
  | true ↦ hit_or_fetched env p (read_cached env p.sha256 srv)
]

unfoldable pub handle_package_request : Surroundings → GoString → Server → Server × Response
unfolding resolve warm_index_from_cache_once stream_uncached_package serve_package
handle_package_request env url srv = elim (resolve env url srv.index) [
  | some p ↦ serve_package env p srv
  | none ↦
      let srv' = warm_index_from_cache_once env srv in
      elim (resolve env url srv'.index) [
        | none ↦ stream_uncached_package env srv'
        | some p ↦ serve_package env p srv'
      ]
]
