-- ===== src/Proxy/Verify/Trust.antt =====
-- internal/proxy/verify.go: what a signature stands behind. A release in the store was parsed from
-- a signed body, and an index that is accepted matches such a release.
use debswarm.Prelude.{
  ℕ, ◌≡◌, refl, Option, none, some, true, false, List, ◌++◌, if◌then◌else◌, arith, GoString, codes,
  str_eq, Option-cases, Bool-cases, inl, inr, ◌⊎◌,
}
use mathlib.Core.Path.{subst}
use debswarm.Prelude.Assoc.{lookup, insert, delete, lookup-insert}
use debswarm.Release.{Release, parse, ParseResult, parsed, no_sha256, line_too_long}
use debswarm.Proxy.Verify.{
  OpenPgp, Outside, Server, verify_clearsigned, verify_detached, is_armored, release_of,
  verified_in_release, verified_detached_release, release_from, store_release,
  fetch_release_on_demand, failed_lately, obtain_release, is_enforce,
}

-- A body with a good signature of a key of the keyring, and a release that was parsed from one.
abbrev pub Signed : OpenPgp → List ℕ → Type 0
Signed pgp body =
    (sig : List ℕ) × ((pgp.check_detached body sig ≡ true) ⊎ (pgp.check_armored body sig ≡ true))

abbrev pub Vouched : Outside → Release → Type 0
Vouched o r = (body : List ℕ) × Signed o.pgp body × (parse o.parse_time body ≡ parsed r)

abbrev pub TrustedStore : Outside → Server → Type 0
TrustedStore o s =
    (base : GoString) (r : Release) → lookup base s.release_store ≡ some r → Vouched o r

abbrev pub Vouched? : Outside → Option Release → Type 0
Vouched? o none = Unit
Vouched? o (some r) = Vouched o r

release_of-parsed : (p : ParseResult) (r : Release) → release_of p ≡ some r → p ≡ parsed r
release_of-parsed (parsed q) r e = ground arith
release_of-parsed no_sha256 r e = cc
release_of-parsed line_too_long r e = cc

module _ (o : Outside) where
  of_body : (body : List ℕ) → Signed o.pgp body → Vouched? o (release_of (parse o.parse_time body))
  of_body body signed = go (release_of (parse o.parse_time body)) refl
    where
      go : (q : Option Release) → release_of (parse o.parse_time body) ≡ q → Vouched? o q
      go none e = tt
      go (some r) e = (body, signed, release_of-parsed (parse o.parse_time body) r e)

  verify_clearsigned-Signed :
      (bytes body : List ℕ) → verify_clearsigned o.pgp bytes ≡ some body → Signed o.pgp body
  unfolding verify_clearsigned
  verify_clearsigned-Signed bytes body e = go (Option-cases (o.pgp.decode bytes))
    where
      go :
          (o.pgp.decode bytes ≡ none) ⊎ ((p : List ℕ × List ℕ) × (o.pgp.decode bytes ≡ some p))
          → Signed o.pgp body
      go (inl f) = absurd (ground arith)
      go (inr ((body', sig), f)) = (sig, inl (ground arith))

  verified_in_release-Vouched :
      (bytes? : Option (List ℕ)) → Vouched? o (verified_in_release o bytes?)
  unfolding verified_in_release
  verified_in_release-Vouched none = tt
  verified_in_release-Vouched (some bytes) = go (verify_clearsigned o.pgp bytes) refl
    where
      go :
          (v : Option (List ℕ))
          → verify_clearsigned o.pgp bytes ≡ v
          → Vouched? o (elim v [ none ↦ none | some body ↦ release_of (parse o.parse_time body) ])
      go none e = tt
      go (some body) e = of_body body (verify_clearsigned-Signed bytes body e)

  verified_detached_release-Vouched :
      (body? sig? : Option (List ℕ)) → Vouched? o (verified_detached_release o body? sig?)
  unfolding verified_detached_release
  verified_detached_release-Vouched none sig? = tt
  verified_detached_release-Vouched (some body) none = tt
  verified_detached_release-Vouched (some body) (some sig) =
      go (Bool-cases (verify_detached o.pgp body sig))
    where
      go :
          (verify_detached o.pgp body sig ≡ true) ⊎ (verify_detached o.pgp body sig ≡ false)
          → Vouched? o (verified_detached_release o (some body) (some sig))
      go (inl e) = rw e (
          of_body body (
            sig,
            elim (Bool-cases (is_armored sig)) [
              | inl f ↦ inr (ground arith)
              | inr f ↦ inl (ground arith)
            ],
          ))
      go (inr e) = rw e tt

  release_from-Vouched :
      (read : GoString → Option (List ℕ)) (base : GoString) → Vouched? o (release_from o read base)
  unfolding release_from
  release_from-Vouched read base =
      go (verified_in_release o (read (base ++ codes "InRelease")))
        (verified_in_release-Vouched (read (base ++ codes "InRelease")))
    where
      go :
          (v : Option Release)
          → Vouched? o v
          → Vouched? o (elim v [
            | some r ↦ some r
            | none ↦
                verified_detached_release o
                  (read (base ++ codes "Release"))
                  (read (base ++ codes "Release.gpg"))
          ])
      go none u =
          verified_detached_release-Vouched (read (base ++ codes "Release"))
            (read (base ++ codes "Release.gpg"))
      go (some r) u = u

  stored-Vouched :
      (base : GoString) (s : Server) → TrustedStore o s → Vouched? o (lookup base s.release_store)
  stored-Vouched base s t = go (lookup base s.release_store) refl
    where
      go : (v : Option Release) → lookup base s.release_store ≡ v → Vouched? o v
      go none e = tt
      go (some r) e = t base r e

  store_release-TrustedStore :
      (base : GoString) (r : Release) (s : Server)
      → Vouched o r
      → TrustedStore o s
      → TrustedStore o (store_release base r s)
  store_release-TrustedStore base r s v t j q e = elim (Bool-cases (str_eq base j)) [
    | inl f ↦
        let same : r ≡ q = ground (arith, lookup-insert base j r s.release_store) in
        subst (Vouched o) same v
    | inr f ↦ t j q (ground (arith, lookup-insert base j r s.release_store))
  ]

  -- A release that is obtained is vouched for, and the store stays so.
  abbrev pub Trusted : Server × Option Release → Type 0
  Trusted (s, r?) = TrustedStore o s × Vouched? o r?

  fetch_release_on_demand-Trusted :
      (base : GoString) (s : Server) → TrustedStore o s → Trusted (fetch_release_on_demand o base s)
  unfolding fetch_release_on_demand
  fetch_release_on_demand-Trusted base s t = elim (Bool-cases o.has_fetcher) [
    | inr f ↦ rw f (t, tt)
    | inl f ↦ elim (Bool-cases (failed_lately o base s)) [
      | inl g ↦ rw (f, g) (t, tt)
      | inr g ↦
          rw (f, g)
            (known (lookup base s.release_store) (stored-Vouched base s t)
              (release_from o o.fetch base) (release_from-Vouched o.fetch base))
    ]
  ]
    where
      known :
          (u : Option Release)
          → Vouched? o u
          → (v : Option Release) → Vouched? o v
          → Trusted (elim u as (λ x. Server × Option Release) [
            | some r ↦ (s, some r)
            | none ↦ elim v as (λ x. Server × Option Release) [
              | some r ↦ (
                record (store_release base r s) { fetch_failed = delete base s.fetch_failed },
                some r,
              )
              | none ↦ (record s { fetch_failed = insert base o.now s.fetch_failed }, none)
            ]
          ])
      known (some r) k v w = (t, k)
      known none k (some r) w = (store_release-TrustedStore base r s w t, w)
      known none k none w = (t, tt)

  pub obtain_release-Trusted :
      (base : GoString) (s : Server) → TrustedStore o s → Trusted (obtain_release o base s)
  unfolding obtain_release
  obtain_release-Trusted base s t =
      known (lookup base s.release_store) (stored-Vouched base s t) (release_from o o.cached base)
        (release_from-Vouched o.cached base)
    where
      known :
          (u : Option Release)
          → Vouched? o u
          → (v : Option Release) → Vouched? o v
          → Trusted (elim u as (λ x. Server × Option Release) [
            | some r ↦ (s, some r)
            | none ↦ elim v as (λ x. Server × Option Release) [
              | some r ↦ (store_release base r s, some r)
              | none ↦ if is_enforce s.mode then fetch_release_on_demand o base s else (s, none)
            ]
          ])
      known (some r) k v w = (t, k)
      known none k (some r) w = (store_release-TrustedStore base r s w t, w)
      known none k none w = elim (Bool-cases (is_enforce s.mode)) [
        | inl e ↦ rw e (fetch_release_on_demand-Trusted base s t)
        | inr e ↦ rw e (t, tt)
      ]
