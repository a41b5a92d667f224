-- ===== src/Proxy/Requests/Examples.antt =====
-- The theorems on requests for packages at concrete inputs.
use debswarm.Prelude.{
  ℕ, ◌≡◌, refl, none, some, true, false, List, [], ◌∷◌, ◌++◌, GoString, codes, length, ◌==◌,
  if◌then◌else◌, arith, str_eq,
}
use debswarm.Prelude.Int.{pos}
use debswarm.Prelude.Assoc.{lookup, insert, delete}
use debswarm.Prelude.Strings.{cut}
use debswarm.Index.{PackageInfo, new_index, add_package, get_by_repo_and_path}
use debswarm.Index.Urls.{extract_repo_from_url, extract_path_from_url}
use debswarm.Index.Load.{get_by_url_path}
use debswarm.Index.Sources.{is_hex64}
use debswarm.Cache.State.{System, new, has}
use debswarm.Cache.Access.{get, close, flush_access}
use debswarm.Cache.Store.{
  put, commit_verified_file, ensure_space, candidates, evict, install, record_package, upsert,
}
use debswarm.Cache.DebFilename.{parse_deb_filename}
use debswarm.Cache.Sound.{Sound, new-Sound}
use debswarm.Proxy.Requests.{Server, Surroundings, wait_peer, notify_fetching, notify_complete}
use debswarm.Proxy.Requests.Download.{ask_fleet, download_package}
use debswarm.Proxy.Requests.Serve.{sent, resolve, handle_package_request}
use debswarm.Proxy.Requests.Trust.{Trusted}
use debswarm.Proxy.Requests.Responses.{resolved, handle_package_request-Trusted}
use debswarm.Proxy.Requests.Sends.{Sent, handle_package_request-Sent}
use debswarm.Proxy.Requests.Notices.{notices}
use debswarm.Proxy.Requests.Notified.{expected_notices, download_package-notices}

abbrev digest : GoString
digest = codes "0123456789abcdef0123456789abcdef0123456789abcdef0123456789abcdef"

-- Three bytes have the digest, and no others.
abbrev three_byte_hash : List ℕ → GoString
three_byte_hash bytes = if length bytes == 3 then digest else []

abbrev working_disk : System
working_disk = record {
  now = 5;
  disk_free = none;
  locked = λ h. false;
  can_move = true;
  can_open = λ h. true;
}

-- The wait for a peer of the fleet times out, a peer sends other bytes, and the mirror has the
-- package.
abbrev around : Surroundings
around = record {
  hash_bytes = three_byte_hash;
  outer = record {
    gzip = λ s. none;
    xz = λ s. none;
    zstd = λ s. none;
    lz4 = λ s. none;
    path_unescape = λ s. some s;
    url_path = λ s. some s;
  };
  metadata = [];
  is_verified = λ url bytes. true;
  is_offline = false;
  fleet = some (some (wait_peer 7 none));
  fleet_download = λ p. none;
  providers = (4, some (1 ∷ 2 ∷ [])) ∷ [];
  has_p2p_node = true;
  has_verifier = false;
  download = none;
  stream = some (7 ∷ 8 ∷ 9 ∷ [], false);
  fetch = some (7 ∷ 8 ∷ 9 ∷ []);
  system = λ n. working_disk;
  can_copy = λ n. true;
  others = λ n c. c;
}

abbrev curl : PackageInfo
curl = record {
  id = 0;
  name = codes "curl";
  version = [];
  architecture = [];
  filename = codes "pool/c/curl.deb";
  size = pos 3;
  sha256 = digest;
  repo = codes "h";
}

abbrev url : GoString
url = codes "http://h/pool/c/curl.deb"

abbrev server : Server
server = record {
  index = add_package curl new_index;
  warmed = false;
  cache = new 100 0 [] [];
  calls = 0;
  stats = record {
    cache_hits = 0;
    requests_p2p = 0;
    requests_mirror = 0;
    bytes_from_p2p = 0;
    bytes_from_mirror = 0;
  };
  events = [];
}

is_resolved : resolved around url server ≡ some curl
unfolding resolve get_by_url_path extract_repo_from_url extract_path_from_url get_by_repo_and_path
    add_package new_index cut str_eq lookup insert is_hex64
is_resolved = refl

new_server-Sound : Sound three_byte_hash (new 100 0 [] [])
unfolding lookup
new_server-Sound =
    new-Sound three_byte_hash 100 0 [] [] tt (λ h bytes e. absurd (ground arith)) (λ h e. refl)

handle_package_request-Trusted_example :
    Sound three_byte_hash (handle_package_request around url server).0.cache
    × Trusted around digest (handle_package_request around url server).1
handle_package_request-Trusted_example =
    handle_package_request-Trusted around url server curl is_resolved (λ n c w. w) tt
      new_server-Sound

handle_package_request-Sent_example :
    Sent three_byte_hash digest (handle_package_request around url server)
handle_package_request-Sent_example =
    handle_package_request-Sent around url server curl (7 ∷ 8 ∷ 9 ∷ []) is_resolved (λ n c. refl)
      (λ n. refl) refl refl refl refl tt tt new_server-Sound

download_package-notices_example :
    notices (download_package around digest (pos 3) (codes "curl.deb") server).0.events
    ≡ []
      ++ expected_notices digest
          (pos 3)
          (some (some (wait_peer 7 none)))
          (ask_fleet around digest (codes "curl.deb") server).1
          (download_package around digest (pos 3) (codes "curl.deb") server).1
download_package-notices_example =
    download_package-notices around digest (pos 3) (codes "curl.deb") server

package_sent :
    (handle_package_request around url server).1 ≡ sent (7 ∷ 8 ∷ 9 ∷ []) 3 (codes "mirror")
unfolding handle_package_request resolve get_by_url_path extract_repo_from_url extract_path_from_url
    get_by_repo_and_path add_package cut is_hex64 download_package put commit_verified_file
    ensure_space has get close lookup insert delete str_eq parse_deb_filename candidates
    flush_access evict install record_package upsert new new_index
package_sent = refl

fleet_told :
    notices (download_package around digest (pos 3) (codes "curl.deb") server).0.events
    ≡ notify_fetching digest (pos 3) ∷ notify_complete digest ∷ []
unfolding download_package put commit_verified_file ensure_space has get close lookup insert delete
    str_eq parse_deb_filename candidates flush_access evict install record_package upsert new
    new_index
fleet_told = refl
