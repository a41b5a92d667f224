-- ===== src/Proxy/Verify/Examples.antt =====
-- The theorems on the verification of indices at concrete inputs. Here each text is signed by
-- itself, and the bytes of an index are their own hash.
use debswarm.Prelude.{
  ℕ, ◌≡◌, ◌↔◌, ◌⊎◌, refl, none, some, true, false, List, [], ◌∷◌, ◌++◌, if◌then◌else◌, GoString,
  codes, str_eq,
}
use debswarm.Prelude.Assoc.{lookup, insert}
use debswarm.Prelude.Strings.{to_lower, cut, cut_prefix, has_byte, trim_space, fields, split}
use debswarm.Release.{Release, parse, has_hash, scan_lines, scan_line}
use debswarm.Proxy.Urls.{verification_base_url, by_hash_digest, is_verifiable_index_url}
use debswarm.Proxy.Verify.{
  auto, enforce, Reason, Outside, Server, is_decisive, is_exempt_host, verify_index,
  check_index_verification, verify_at, obtain_release, verify_clearsigned, mode_refuses,
}
use debswarm.Proxy.Verify.Trust.{Vouched, TrustedStore}
use debswarm.Proxy.Verify.Policy.{StandsBehind, enforce_sound, refused_iff, by_hash_unchecked}

abbrev base : GoString
base = codes "http://d/dists/sid/"

abbrev plain_url : GoString
plain_url = codes "http://d/dists/sid/main/binary-amd64/packages"

abbrev hash_url : GoString
hash_url = codes "http://d/dists/sid/main/binary-amd64/by-hash/SHA256/ab"

abbrev body : List ℕ
body = codes "SHA256:" ++ (10 ∷ (codes " ab 2 main/binary-amd64/packages" ++ (10 ∷ [])))

abbrev outside : Outside
outside = record {
  pgp = record {
    entities = 1;
    decode = λ bytes. some (bytes, bytes);
    check_detached = λ b sig. str_eq b sig;
    check_armored = λ b sig. false;
  };
  cached = λ url. if str_eq url (base ++ codes "InRelease") then some body else none;
  fetch = λ url. none;
  has_fetcher = true;
  hostname = λ url. some (codes "d");
  parse_time = λ v. none;
  hash_bytes = λ bytes. bytes;
  now = 0;
}

abbrev server : Server
server = record { mode = enforce; exempt = []; release_store = []; fetch_failed = [] }

empty-TrustedStore : TrustedStore outside server
unfolding lookup
empty-TrustedStore b r e = cc

-- The index whose bytes hash to what the signed file lists is let through.
accepts : (check_index_verification outside plain_url (codes "ab") server).1.allowed ≡ true
unfolding check_index_verification verify_index verify_at obtain_release verify_clearsigned
    verification_base_url is_verifiable_index_url by_hash_digest mode_refuses is_exempt_host parse
    split fields trim_space to_lower cut cut_prefix has_byte str_eq lookup insert has_hash
    scan_lines scan_line
accepts = refl

-- Other bytes are refused,
refuses : (check_index_verification outside plain_url (codes "xy") server).1.allowed ≡ false
unfolding check_index_verification verify_index verify_at obtain_release verify_clearsigned
    verification_base_url is_verifiable_index_url by_hash_digest mode_refuses is_exempt_host parse
    split fields trim_space to_lower cut cut_prefix has_byte str_eq lookup insert has_hash
    scan_lines scan_line
refuses = refl

-- but not where the URL has the digest.
accepts_any : (check_index_verification outside hash_url (codes "xy") server).1.allowed ≡ true
unfolding check_index_verification verify_index verify_at obtain_release verify_clearsigned
    verification_base_url is_verifiable_index_url by_hash_digest mode_refuses is_exempt_host parse
    split fields trim_space to_lower cut cut_prefix has_byte str_eq lookup insert has_hash
    scan_lines scan_line
accepts_any = refl

enforce_sound_example :
    TrustedStore outside (check_index_verification outside plain_url (codes "ab") server).0
    × ((r : Release) × Vouched outside r × StandsBehind outside plain_url (codes "ab") r)
unfolding is_verifiable_index_url is_exempt_host to_lower cut cut_prefix
enforce_sound_example =
    enforce_sound outside plain_url (codes "ab") server empty-TrustedStore refl refl refl accepts

refused_iff_example :
    (((check_index_verification outside plain_url (codes "xy") server).1.allowed ≡ false) ↔ (
      (reason : Reason) × ((verify_index outside plain_url (codes "xy") server).1 ≡ some reason)
      × ((server.mode ≡ enforce) ⊎ ((server.mode ≡ auto) × (is_decisive reason ≡ true)))
      × (is_exempt_host outside plain_url server ≡ false)))
    × ((check_index_verification outside plain_url (codes "xy") server).1.allowed ≡ true
        → (check_index_verification outside plain_url (codes "xy") server).1.unverified
          ≡ (verify_index outside plain_url (codes "xy") server).1)
unfolding is_verifiable_index_url to_lower cut cut_prefix
refused_iff_example = refused_iff outside plain_url (codes "xy") server refl refl

by_hash_unchecked_example :
    check_index_verification outside hash_url (codes "ab") server
    ≡ check_index_verification outside hash_url (codes "xy") server
unfolding by_hash_digest to_lower cut cut_prefix
by_hash_unchecked_example =
    by_hash_unchecked outside hash_url (codes "ab") (codes "xy") server (λ e. cc)
