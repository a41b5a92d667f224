-- ===== src/Proxy/Requests/Responses.antt =====
-- internal/proxy/server.go: what the client gets for a package of the index.
use debswarm.Prelude.{
  ℕ, ◌≡◌, refl, sym, ap, ◌∙◌, Option, none, some, Bool, true, false, List, arith, GoString, inl,
  inr,
}
use mathlib.Core.Path.{subst}
use mathlib.Core.Option.{some-injective}
use debswarm.Prelude.Assoc.{lookup}
use debswarm.Index.{PackageInfo}
use debswarm.Cache.State.{Cache, System, Row, has, Row}
use debswarm.Cache.Access.{Reader, Found, found, missed, get}
use debswarm.Cache.Sound.{Sound, get-Sound, close-Sound}
use debswarm.Cache.Ends.{get-cases}
use debswarm.Proxy.Requests.{
  Server, Surroundings, Package, buffered, cached, cache_now, read_out, read_cached,
}
use debswarm.Proxy.Requests.Download.{download_package}
use debswarm.Proxy.Requests.Serve.{
  Response, unavailable, resolve, serve_package_result, fetch_package, serve_package,
  handle_package_request, warm_index_from_cache_once, sent_from_cache, served, hit_or_fetched,
}
use debswarm.Proxy.Requests.Trust.{Delivered, Considerate, Trusted, Fetched}
use debswarm.Proxy.Requests.Fetches.{download_package-Fetched}

abbrev bytes_of : Cache × Found → Option (List ℕ)
bytes_of (c, missed e) = none
bytes_of (c, found r row) = some r.bytes

-- What a reader reads is the file of the cache.
pub get-bytes :
    (s : System) (h : GoString) (c c' : Cache) (r : Reader) (row : Row)
    → get s h c ≡ (c', found r row)
    → lookup h c.files ≡ some r.bytes
get-bytes s h c c' r row e = elim (get-cases s h c) [
  | inl (gone, f) ↦ absurd (none_some (ap bytes_of (sym f ∙ e)))
  | inr (inl (bytes, there, no_row', f)) ↦ absurd (none_some (ap bytes_of (sym f ∙ e)))
  | inr (inr (inr (closed, f))) ↦ absurd (none_some (ap bytes_of (sym f ∙ e)))
  | inr (inr (inl (bytes, row', there, listed, f))) ↦ there ∙ ap bytes_of (sym f ∙ e)
]
  where
    none_some : {bytes : List ℕ} → none ≡ some bytes → ⊥
    none_some g = cc

module _ (env : Surroundings) (kind : Considerate env) where
  abbrev Reply : GoString → Server × Response → Type 0
  Reply h r = Sound env.hash_bytes (r.0).cache × Trusted env h (r.1)

  abbrev pub Read : GoString → Server × Option (List ℕ × ℕ) → Type 0
  Read h (srv, none) = Sound env.hash_bytes srv.cache
  Read h (srv, some (bytes, size)) = Sound env.hash_bytes srv.cache × (env.hash_bytes bytes ≡ h)

  pub read_cached-Read :
      (h : GoString) (srv : Server)
      → Sound env.hash_bytes srv.cache
      → Read h (read_cached env h srv)
  unfolding read_cached
  read_cached-Read h srv w = go (get s h c) refl (get-Sound env.hash_bytes s h c v)
    where
      s : System
      s = env.system srv.calls

      c : Cache
      c = cache_now env srv

      v : Sound env.hash_bytes c
      v = kind srv.calls srv.cache w

      go :
          (r : Cache × Found) → get s h c ≡ r → Sound env.hash_bytes (r.0) → Read h (read_out srv r)
      go (c', missed e) f u = u
      go (c', found r row) f u =
          (close-Sound env.hash_bytes r c' u, v.intact h r.bytes (get-bytes s h c c' r row f))

  sent-Reply :
      (h : GoString) (size : ℕ) (source : GoString) (r : Server × Option (List ℕ × ℕ))
      → Read h r
      → Reply h (sent_from_cache size source r)
  sent-Reply h size source (srv, none) w = (w, tt)
  sent-Reply h size source (srv, some (bytes, row_size)) w = w

  served-Reply :
      (h : GoString) (r : Server × Option Package) → Fetched env kind h r → Reply h (served env h r)
  unfolding serve_package_result
  served-Reply h (srv, none) w = (w, tt)
  served-Reply h (srv, some (buffered bytes source)) w = w
  served-Reply h (srv, some (cached size source)) (w, t) =
      sent-Reply h size source (read_cached env h srv) (read_cached-Read h srv w)

  module _ (p : PackageInfo) (delivered : Delivered env.hash_bytes p.sha256 env.download) where
    fetch_package-Reply :
        (srv : Server) → Sound env.hash_bytes srv.cache → Reply p.sha256 (fetch_package env p srv)
    unfolding fetch_package
    fetch_package-Reply srv w = go env.is_offline
      where
        go :
            (b : Bool)
            → Reply p.sha256 (elim b as (λ x. Server × Response) [
              | true ↦ (srv, unavailable)
              | false ↦ served env p.sha256 (download_package env p.sha256 p.size p.filename srv)
            ])
        go true = (w, tt)
        go false =
            served-Reply p.sha256 (download_package env p.sha256 p.size p.filename srv)
              (download_package-Fetched env kind p.sha256 p.size p.filename srv delivered w)

    serve_package-Reply :
        (srv : Server) → Sound env.hash_bytes srv.cache → Reply p.sha256 (serve_package env p srv)
    unfolding serve_package
    serve_package-Reply srv w = go (has p.sha256 (cache_now env srv))
      where
        hit :
            (r : Server × Option (List ℕ × ℕ))
            → Read p.sha256 r
            → Reply p.sha256 (hit_or_fetched env p r)
        hit (s, none) v = fetch_package-Reply s v
        hit (s, some (bytes, size)) v = v

        go :
            (b : Bool)
            → Reply p.sha256 (elim b as (λ x. Server × Response) [
              | false ↦ fetch_package env p srv
              | true ↦ hit_or_fetched env p (read_cached env p.sha256 srv)
            ])
        go false = fetch_package-Reply srv w
        go true = hit (read_cached env p.sha256 srv) (read_cached-Read p.sha256 srv w)

pub warmed-cache :
    (env : Surroundings) (srv : Server) → (warm_index_from_cache_once env srv).cache ≡ srv.cache
unfolding warm_index_from_cache_once
warmed-cache env srv = ground arith

-- The package of the index for a URL, which is asked again once the index is warm.
abbrev pub resolved : Surroundings → GoString → Server → Option PackageInfo
resolved env url srv = elim (resolve env url srv.index) [
  | some p ↦ some p
  | none ↦ resolve env url (warm_index_from_cache_once env srv).index
]

pub resolved_now :
    (env : Surroundings) (url : GoString) (srv : Server) (q : PackageInfo)
    → resolve env url srv.index ≡ some q
    → some q ≡ resolved env url srv
resolved_now env url srv q f = ground arith

pub resolved_later :
    (env : Surroundings) (url : GoString) (srv : Server)
    → resolve env url srv.index ≡ none
    → resolve env url (warm_index_from_cache_once env srv).index ≡ resolved env url srv
resolved_later env url srv f = ground arith

-- Whatever the fleet, the peers and the mirror send, whatever the cache and its disk answer, and
-- whatever the other requests do to the cache as long as they keep it sound: if the index, warmed
-- from the cached metadata where it has to be, has a package with a well-formed hash for the URL,
-- then the client of `handlePackageRequest` gets bytes of that hash or an error, never the
-- unverified stream, and each file of the cache has the hash under which it stands. Of the
-- downloader it is asked that it has verified the bytes of its result.
pub handle_package_request-Trusted :
    (env : Surroundings) (url : GoString) (srv : Server) (p : PackageInfo)
    → resolved env url srv ≡ some p
    → Considerate env
    → Delivered env.hash_bytes p.sha256 env.download
    → Sound env.hash_bytes srv.cache
    → Sound env.hash_bytes (handle_package_request env url srv).0.cache
      × Trusted env p.sha256 (handle_package_request env url srv).1
unfolding handle_package_request
handle_package_request-Trusted env url srv p e kind delivered w =
    go (resolve env url srv.index) refl
  where
    warmed : Server
    warmed = warm_index_from_cache_once env srv

    from :
        (q : PackageInfo) (s : Server)
        → some q ≡ some p
        → s.cache ≡ srv.cache
        → Reply env kind p.sha256 (serve_package env q s)
    from q s same at =
        subst (λ x. Reply env kind p.sha256 (serve_package env x s)) (sym (some-injective q p same))
          (serve_package-Reply env kind p delivered s (rw at w))

    go :
        (o : Option PackageInfo)
        → resolve env url srv.index ≡ o
        → Reply env kind p.sha256 (handle_package_request env url srv)
    go (some q) f =
        rw (f, handle_package_request) (from q srv (resolved_now env url srv q f ∙ e) refl)
    go none f =
        let later : resolve env url warmed.index ≡ some p = resolved_later env url srv f ∙ e in
        rw (f, later, handle_package_request) (from p warmed refl (warmed-cache env srv))
