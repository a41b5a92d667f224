-- ===== src/Proxy/Requests/Sends.antt =====
-- internal/proxy/server.go: a request for a package that the mirror has is answered with its bytes.
use debswarm.Prelude.{
  ℕ, ◌≡◌, refl, sym, ap, ◌∙◌, Option, none, some, Bool, true, false, List, length, arith, GoString,
  codes, inl, inr, ◌⊎◌,
}
use mathlib.Core.Path.{subst}
use mathlib.Core.Option.{some-injective}
use debswarm.Prelude.Assoc.{lookup}
use debswarm.Index.{PackageInfo}
use debswarm.Cache.State.{Row, Cache, System, has}
use debswarm.Cache.Access.{Reader, Found, found, missed, get, close}
use debswarm.Cache.Sound.{Sound}
use debswarm.Cache.PutGet.{get-found}
use debswarm.Proxy.Requests.{
  Server, Surroundings, Package, buffered, cached, cache_now, read_out, read_cached,
}
use debswarm.Proxy.Requests.Download.{download_package}
use debswarm.Proxy.Requests.Serve.{
  Response, sent, sent_from_cache, serve_package_result, served, fetch_package, hit_or_fetched,
  serve_package, handle_package_request, resolve, warm_index_from_cache_once,
}
use debswarm.Proxy.Requests.Trust.{Delivered, Trusted, Fetched}
use debswarm.Proxy.Requests.Responses.{
  resolved, resolved_now, resolved_later, Read, get-bytes, read_cached-Read, warmed-cache,
  handle_package_request-Trusted,
}
use debswarm.Proxy.Requests.Delivery.{kind, Ready}
use debswarm.Proxy.Requests.Fetches.{download_package-Fetched}
use debswarm.Proxy.Requests.Sending.{Readable, download_package-Ready}

-- The length that is announced is that of the bytes, or the bytes are the file that the cache then
-- has under the hash.
abbrev pub Measured : GoString → Server → List ℕ → ℕ → Type 0
Measured h srv bytes size = (size ≡ length bytes) ⊎ (lookup h srv.cache.files ≡ some bytes)

-- The client gets bytes of the hash.
abbrev pub Sent : (List ℕ → GoString) → GoString → Server × Response → Type 0
Sent hash_bytes h result =
    (bytes : List ℕ) × (size : ℕ) × (source : GoString) × (result.1 ≡ sent bytes size source)
    × (hash_bytes bytes ≡ h)
    × Measured h (result.0) bytes size

abbrev Given : GoString → Server × Response → Type 0
Given h result =
    (bytes : List ℕ) × (size : ℕ) × (source : GoString) × (result.1 ≡ sent bytes size source)
    × Measured h (result.0) bytes size

-- What is read from the cache is a file that it still has.
abbrev Kept : GoString → Server × Option (List ℕ × ℕ) → Type 0
Kept h (srv, none) = Unit
Kept h (srv, some (bytes, size)) = lookup h srv.cache.files ≡ some bytes

get-files : (s : System) (h : GoString) (c : Cache) → (get s h c).0.files ≡ c.files
unfolding get
get-files s h c = ground arith

close-files : (r : Reader) (c : Cache) → (close r c).0.files ≡ c.files
unfolding close
close-files r c = ground arith

read_out-Kept :
    (s : System) (h : GoString) (c : Cache) (srv : Server) → Kept h (read_out srv (get s h c))
read_out-Kept s h c srv = go (get s h c) refl
  where
    go : (g : Cache × Found) → get s h c ≡ g → Kept h (read_out srv g)
    go (c', missed e) f = tt
    go (c', found r row) f =
        ap (lookup h) (close-files r c')
        ∙ ap (λ (g : Cache × Found). lookup h g.0.files) (sym f)
        ∙ ap (lookup h) (get-files s h c)
        ∙ get-bytes s h c c' r row f

read_out-Given :
    (h : GoString) (size : ℕ) (source : GoString) (srv : Server) (g : Cache × Found) (r : Reader)
    (row : Row)
    → g.1 ≡ found r row
    → Kept h (read_out srv g)
    → Given h (sent_from_cache size source (read_out srv g))
read_out-Given h size source srv (c, missed e) r row is kept = cc
read_out-Given h size source srv (c, found q row') r row is kept =
    (q.bytes, size, source, refl, inr kept)

read_cached-Kept :
    (env : Surroundings) (h : GoString) (srv : Server) → Kept h (read_cached env h srv)
unfolding read_cached
read_cached-Kept env h srv = read_out-Kept (env.system srv.calls) h (cache_now env srv) srv

module _ (env : Surroundings) (calm : (n : ℕ) (c : Cache) → env.others n c ≡ c) where
  served-Given :
      (h : GoString) (r : Server × Option Package)
      → Ready env calm h r
      → Sound env.hash_bytes (r.0).cache
      → ((n : ℕ) → (env.system n).can_open h ≡ true)
      → Given h (served env h r)
  unfolding serve_package_result read_cached
  served-Given h (srv, none) ready w opens = absurd ready
  served-Given h (srv, some (buffered bytes source)) ready w opens =
      (bytes, length bytes, source, refl, inl refl)
  served-Given h (srv, some (cached size source)) (row, at) w opens =
      let (r, is, named, good) =
        get-found env.hash_bytes (env.system srv.calls) h row (cache_now env srv)
          (kind env calm h srv.calls srv.cache w)
          (ap (λ c. lookup h c.rows) (calm srv.calls srv.cache) ∙ at) (opens srv.calls) in
      read_out-Given h size source srv (get (env.system srv.calls) h (cache_now env srv)) r row is
        (read_out-Kept (env.system srv.calls) h (cache_now env srv) srv)

  module _ (p : PackageInfo) (bytes : List ℕ) (same : env.hash_bytes bytes ≡ p.sha256)
      (streams : env.stream ≡ some (bytes, false)) (fetches : env.fetch ≡ some bytes)
      (online : env.is_offline ≡ false) (readable : Readable env.download)
      (delivered : Delivered env.hash_bytes p.sha256 env.download)
      (opens : (n : ℕ) → (env.system n).can_open p.sha256 ≡ true) where
    fetch_package-Given :
        (srv : Server) → Sound env.hash_bytes srv.cache → Given p.sha256 (fetch_package env p srv)
    unfolding fetch_package
    fetch_package-Given srv w =
        rw (online, fetch_package)
          (served-Given p.sha256 got
            (download_package-Ready env calm p.sha256 bytes same streams fetches p.size p.filename
              srv readable w)
            (fetched-Sound got (
              download_package-Fetched env (kind env calm p.sha256) p.sha256 p.size p.filename srv
                delivered w))
            opens)
      where
        got : Server × Option Package
        got = download_package env p.sha256 p.size p.filename srv

        fetched-Sound :
            (r : Server × Option Package)
            → Fetched env (kind env calm p.sha256) p.sha256 r
            → Sound env.hash_bytes (r.0).cache
        fetched-Sound (s, none) v = v
        fetched-Sound (s, some package') v = v.0

    serve_package-Given :
        (srv : Server) → Sound env.hash_bytes srv.cache → Given p.sha256 (serve_package env p srv)
    unfolding serve_package
    serve_package-Given srv w = go (has p.sha256 (cache_now env srv))
      where
        hit :
            (r : Server × Option (List ℕ × ℕ))
            → Sound env.hash_bytes (r.0).cache
            → Kept p.sha256 r
            → Given p.sha256 (hit_or_fetched env p r)
        hit (s, none) v kept = fetch_package-Given s v
        hit (s, some (got, size)) v kept = (got, size, codes "cache", refl, inr kept)

        read-Sound :
            (r : Server × Option (List ℕ × ℕ))
            → Read env (kind env calm p.sha256) p.sha256 r
            → Sound env.hash_bytes (r.0).cache
        read-Sound (s, none) v = v
        read-Sound (s, some got) v = v.0

        go :
            (b : Bool)
            → Given p.sha256 (elim b as (λ x. Server × Response) [
              | false ↦ fetch_package env p srv
              | true ↦ hit_or_fetched env p (read_cached env p.sha256 srv)
            ])
        go false = fetch_package-Given srv w
        go true =
            hit (read_cached env p.sha256 srv)
              (read-Sound (read_cached env p.sha256 srv)
                (read_cached-Read env (kind env calm p.sha256) p.sha256 srv w))
              (read_cached-Kept env p.sha256 srv)

-- If the index has a package with a well-formed hash for the URL, the node is not offline, no other
-- request touches the cache, the file of the package can be opened where the cache has one, and the
-- mirror has the package, then the client gets bytes of its hash, whatever the fleet and the peers
-- answer, whether or not the cache has the package, and also if the cache cannot store it, for want
-- of space or by a copy or a move that fails. The length that is announced is that of these bytes;
-- or they are the file that the cache then has, and the length is that of its row or of the
-- download, of which nothing is said. Of the downloader it is asked that it has verified its
-- result, and that a file it has left can be read again.
pub handle_package_request-Sent :
    (env : Surroundings) (url : GoString) (srv : Server) (p : PackageInfo) (bytes : List ℕ)
    → resolved env url srv ≡ some p
    → ((n : ℕ) (c : Cache) → env.others n c ≡ c)
    → ((n : ℕ) → (env.system n).can_open p.sha256 ≡ true)
    → env.is_offline ≡ false
    → env.stream ≡ some (bytes, false)
    → env.fetch ≡ some bytes
    → env.hash_bytes bytes ≡ p.sha256
    → Delivered env.hash_bytes p.sha256 env.download
    → Readable env.download
    → Sound env.hash_bytes srv.cache
    → Sent env.hash_bytes p.sha256 (handle_package_request env url srv)
unfolding handle_package_request
handle_package_request-Sent env url srv p bytes e calm opens online streams fetches same delivered
      readable w =
    let (got, size, source, is, measured) = go (resolve env url srv.index) refl in
    let (sound, trusted) =
      handle_package_request-Trusted env url srv p e (kind env calm p.sha256) delivered w in
    (got, size, source, is, subst (Trusted env p.sha256) is trusted, measured)
  where
    warmed : Server
    warmed = warm_index_from_cache_once env srv

    from :
        (q : PackageInfo) (s : Server)
        → some q ≡ some p
        → s.cache ≡ srv.cache
        → Given p.sha256 (serve_package env q s)
    from q s one at =
        subst (λ x. Given p.sha256 (serve_package env x s)) (sym (some-injective q p one))
          (serve_package-Given env calm p bytes same streams fetches online readable delivered opens
            s (rw at w))

    go :
        (o : Option PackageInfo)
        → resolve env url srv.index ≡ o
        → Given p.sha256 (handle_package_request env url srv)
    go (some q) f =
        rw (f, handle_package_request) (from q srv (resolved_now env url srv q f ∙ e) refl)
    go none f =
        let later : resolve env url warmed.index ≡ some p = resolved_later env url srv f ∙ e in
        rw (f, later, handle_package_request) (from p warmed refl (warmed-cache env srv))
