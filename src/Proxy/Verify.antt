-- ===== src/Proxy/Verify.antt =====
-- internal/proxy/verify.go and internal/gpg: the verification of an index. OpenPGP, the metadata
-- cache, the mirror, `url.Parse`, `time.Parse` and SHA-256 are parameters.
pub mod Trust
pub mod Policy
mod Examples
use debswarm.Prelude.{
  ℕ, ◌+◌, ◌*◌, ◌==◌, Option, none, some, Bool, true, false, not, ◌&&◌, ◌||◌, List, [], ◌∷◌, ◌++◌,
  ltb, if◌then◌else◌, GoString, codes, str_eq,
}
use debswarm.Prelude.Assoc.{Map, lookup, insert, delete}
use debswarm.Prelude.Strings.{to_lower, trim_prefix, cut_prefix}
use debswarm.Release.{Release, FileHash, has_hash, parse, ParseResult, parsed}
use debswarm.Proxy.Urls.{verification_base_url, by_hash_digest, is_verifiable_index_url}

pub data Mode : Type 0 where
  off warn auto enforce : Mode

pub data Reason : Type 0 where
  no_key no_dist no_release not_listed hash_mismatch : Reason

-- What the library of OpenPGP answers, for the keys of the keyring: the body and the signature of a
-- clearsigned text, and whether a signature, binary or armored, is good for a body.
pub record OpenPgp : Type 0 where
  pub entities : ℕ
  pub decode : List ℕ → Option (List ℕ × List ℕ)
  pub check_detached : List ℕ → List ℕ → Bool
  pub check_armored : List ℕ → List ℕ → Bool

-- What is outside of the server. `cached` is none for all URLs where there is no cache or metadata
-- are not kept; `fetch` gives the bytes of a URL, with its HTTPS upgrade and its limit of size.
pub record Outside : Type 0 where
  pub pgp : OpenPgp
  pub cached : GoString → Option (List ℕ)
  pub fetch : GoString → Option (List ℕ)
  pub has_fetcher : Bool
  pub hostname : GoString → Option GoString
  pub parse_time : GoString → Option ℕ
  pub hash_bytes : List ℕ → GoString
  pub now : ℕ

-- The part of the server that verifies. A fetch that failed is kept with its time in nanoseconds.
pub record Server : Type 0 where
  pub mode : Mode
  pub exempt : List GoString
  pub release_store : Map Release
  pub fetch_failed : Map ℕ

-- `TrimLeft(data, " \t\r\n")`
abbrev pub skip_blank : List ℕ → List ℕ
skip_blank [] = []
skip_blank (a ∷ s) =
    let rest = skip_blank s in if a == 32 || (a == 9 || (a == 13 || a == 10)) then rest else a ∷ s

unfoldable pub is_armored : List ℕ → Bool
is_armored bytes = elim (cut_prefix (codes "-----BEGIN PGP") (skip_blank bytes)) [
  | none ↦ false
  | some rest ↦ true
]

unfoldable pub verify_clearsigned : OpenPgp → List ℕ → Option (List ℕ)
verify_clearsigned pgp bytes =
    if ltb 0 pgp.entities
    then elim (pgp.decode bytes) [
      | none ↦ none
      | some (body, sig) ↦ if pgp.check_detached body sig then some body else none
    ]
    else none

unfoldable pub verify_detached : OpenPgp → List ℕ → List ℕ → Bool
unfolding is_armored
verify_detached pgp body sig =
    ltb 0 pgp.entities
    && (if is_armored sig then pgp.check_armored body sig else pgp.check_detached body sig)

abbrev pub release_of : ParseResult → Option Release
release_of (parsed r) = some r
release_of _ = none

unfoldable pub verified_in_release : Outside → Option (List ℕ) → Option Release
unfolding verify_clearsigned
verified_in_release o none = none
verified_in_release o (some bytes) = elim (verify_clearsigned o.pgp bytes) [
  | none ↦ none
  | some body ↦ release_of (parse o.parse_time body)
]

unfoldable pub verified_detached_release :
    Outside → Option (List ℕ) → Option (List ℕ) → Option Release
unfolding verify_detached
verified_detached_release o none sig = none
verified_detached_release o (some body) none = none
verified_detached_release o (some body) (some sig) =
    if verify_detached o.pgp body sig then release_of (parse o.parse_time body) else none

-- The release behind a base, as the bytes of three files give it.
unfoldable pub release_from : Outside → (GoString → Option (List ℕ)) → GoString → Option Release
unfolding verified_in_release verified_detached_release
release_from o read base = elim (verified_in_release o (read (base ++ codes "InRelease"))) [
  | some r ↦ some r
  | none ↦
      verified_detached_release o (read (base ++ codes "Release"))
        (read (base ++ codes "Release.gpg"))
]

abbrev pub store_release : GoString → Release → Server → Server
store_release base r s = record s { release_store = insert base r s.release_store }

abbrev pub release_fetch_retry_ttl : ℕ
release_fetch_retry_ttl = 30 * 1000000000

abbrev pub failed_lately : Outside → GoString → Server → Bool
failed_lately o base s = elim (lookup base s.fetch_failed) [
  | none ↦ false
  | some t ↦ ltb o.now (t + release_fetch_retry_ttl)
]

-- `fetchReleaseOnDemand`, of one caller.
unfoldable pub fetch_release_on_demand : Outside → GoString → Server → Server × Option Release
unfolding release_from
fetch_release_on_demand o base s =
    if not o.has_fetcher
    then (s, none)
    else if failed_lately o base s
    then (s, none)
    else elim (lookup base s.release_store) [
      | some r ↦ (s, some r)
      | none ↦ elim (release_from o o.fetch base) [
        | some r ↦
            let s' = store_release base r s in
            (record s' { fetch_failed = delete base s'.fetch_failed }, some r)
        | none ↦ (record s { fetch_failed = insert base o.now s.fetch_failed }, none)
      ]
    ]

abbrev pub is_enforce : Mode → Bool
is_enforce enforce = true
is_enforce _ = false

unfoldable pub obtain_release : Outside → GoString → Server → Server × Option Release
unfolding fetch_release_on_demand release_from
obtain_release o base s = elim (lookup base s.release_store) [
  | some r ↦ (s, some r)
  | none ↦ elim (release_from o o.cached base) [
    | some r ↦ (store_release base r s, some r)
    | none ↦ if is_enforce s.mode then fetch_release_on_demand o base s else (s, none)
  ]
]

-- No reason is a verified index.
abbrev pub check_digest : Outside → GoString → GoString → List ℕ → Release → Option Reason
check_digest o url base bytes r = elim (by_hash_digest url) [
  | a ∷ digest ↦ if has_hash (a ∷ digest) r then none else some hash_mismatch
  | [] ↦ elim (lookup (trim_prefix base url) r.sha256) [
    | none ↦ some not_listed
    | some f ↦ if str_eq (o.hash_bytes bytes) f.sha256 then none else some hash_mismatch
  ]
]

abbrev pub answer :
    Outside → GoString → GoString → List ℕ → Server × Option Release → Server × Option Reason
answer o url base bytes (s, none) = (s, some no_release)
answer o url base bytes (s, some r) = (s, check_digest o url base bytes r)

unfoldable pub verify_at : Outside → GoString → List ℕ → GoString → Server → Server × Option Reason
verify_at o url bytes [] s = (s, some no_dist)
verify_at o url bytes (a ∷ base) s = answer o url (a ∷ base) bytes (obtain_release o (a ∷ base) s)

unfoldable pub verify_index : Outside → GoString → List ℕ → Server → Server × Option Reason
unfolding verify_at
verify_index o url bytes s =
    if not (ltb 0 o.pgp.entities)
    then (s, some no_key)
    else verify_at o url bytes (verification_base_url url) s

abbrev pub verification_enabled : Mode → Bool
verification_enabled off = false
verification_enabled _ = true

abbrev pub is_decisive : Reason → Bool
is_decisive not_listed = true
is_decisive hash_mismatch = true
is_decisive _ = false

unfoldable pub mode_refuses : Mode → Reason → Bool
mode_refuses enforce reason = true
mode_refuses auto reason = is_decisive reason
mode_refuses _ reason = false

abbrev pub any_host : GoString → List GoString → Bool
any_host h [] = false
any_host h (j ∷ js) = str_eq j h || any_host h js

unfoldable pub is_exempt_host : Outside → GoString → Server → Bool
is_exempt_host o url s = elim s.exempt [
  | [] ↦ false
  | a ∷ rest ↦ elim (o.hostname url) [ none ↦ false | some h ↦ any_host (to_lower h) s.exempt ]
]

-- What the check says: whether the index may be loaded and served, and the reason that is put into
-- the header X-Debswarm-Unverified.
pub record Verdict : Type 0 where
  pub allowed : Bool
  pub unverified : Option Reason

unfoldable pub check_index_verification : Outside → GoString → List ℕ → Server → Server × Verdict
check_index_verification o url bytes s =
    if not (verification_enabled s.mode) || not (is_verifiable_index_url url)
    then (s, record { allowed = true; unverified = none })
    else (let (s', failed) = verify_index o url bytes s in
        elim failed [
          | none ↦ (s', record { allowed = true; unverified = none })
          | some reason ↦
              if mode_refuses s.mode reason && not (is_exempt_host o url s)
              then (s', record { allowed = false; unverified = none })
              else (s', record { allowed = true; unverified = some reason })
        ])

-- `handleReleaseRequest`, before it passes the request through.
unfoldable pub note_release_request : GoString → Server → Server
note_release_request url s =
    if verification_enabled s.mode
    then elim (verification_base_url url) [
      | [] ↦ s
      | a ∷ base ↦ record s { release_store = delete (a ∷ base) s.release_store }
    ]
    else s
