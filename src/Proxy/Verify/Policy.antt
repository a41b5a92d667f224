-- ===== src/Proxy/Verify/Policy.antt =====
-- internal/proxy/verify.go: what the policy lets through, in each mode.
use debswarm.Prelude.{
  ℕ, ◌≡◌, ◌≢◌, ◌↔◌, refl, sym, ap, Option, none, some, true, false, not, ◌&&◌, List, [], ◌∷◌, ltb,
  if◌then◌else◌, arith, GoString, str_eq, eq_iff, Option-cases, Bool-cases, inl, inr, ◌⊎◌,
}
use mathlib.Core.Option.{some-injective}
use debswarm.Prelude.Assoc.{lookup}
use debswarm.Prelude.Strings.{trim_prefix}
use debswarm.Release.{Release, FileHash, has_hash}
use debswarm.Proxy.Urls.{verification_base_url, by_hash_digest, is_verifiable_index_url}
use debswarm.Proxy.Verify.{
  Mode, off, warn, auto, enforce, Reason, Outside, Server, Verdict, obtain_release, check_digest,
  answer, verify_at, verify_index, mode_refuses, is_decisive, is_exempt_host,
  check_index_verification, verification_enabled,
}
use debswarm.Proxy.Verify.Trust.{Vouched, TrustedStore, Trusted, obtain_release-Trusted}

-- A release stands behind an index: by the digest in its URL, or by the hash of its bytes under the
-- path that the release lists.
abbrev pub StandsBehind : Outside → GoString → List ℕ → Release → Type 0
StandsBehind o url bytes r =
    ((by_hash_digest url ≢ []) × (has_hash (by_hash_digest url) r ≡ true))
    ⊎ ((by_hash_digest url ≡ [])
        × ((f : FileHash) × (lookup (trim_prefix (verification_base_url url) url) r.sha256 ≡ some f)
            × (o.hash_bytes bytes ≡ f.sha256)))

mode_refuses_iff :
    (m : Mode) (reason : Reason)
    → (mode_refuses m reason ≡ true) ↔ ((m ≡ enforce) ⊎ ((m ≡ auto) × (is_decisive reason ≡ true)))
unfolding mode_refuses
mode_refuses_iff off reason = (λ e. cc, λ e. ground arith)
mode_refuses_iff warn reason = (λ e. cc, λ e. ground arith)
mode_refuses_iff auto reason = (λ e. inr (refl, e), λ e. ground arith)
mode_refuses_iff enforce reason = (λ e. inl refl, λ e. refl)

module _ (o : Outside) (url : GoString) (bytes : List ℕ) where
  check_digest-StandsBehind :
      (r : Release)
      → check_digest o url (verification_base_url url) bytes r ≡ none
      → StandsBehind o url bytes r
  check_digest-StandsBehind r e =
      go (by_hash_digest url) refl
        (Option-cases (lookup (trim_prefix (verification_base_url url) url) r.sha256)) e
    where
      go :
          (d : GoString)
          → by_hash_digest url ≡ d
          → (lookup (trim_prefix (verification_base_url url) url) r.sha256 ≡ none)
            ⊎ ((f : FileHash) × (lookup (trim_prefix (verification_base_url url) url) r.sha256
                  ≡ some f))
          → (elim d as (λ x. Option Reason) [
            | a ∷ digest ↦ if has_hash (a ∷ digest) r then none else some Reason.hash_mismatch
            | [] ↦
                elim (lookup (trim_prefix (verification_base_url url) url) r.sha256)
                  as (λ x. Option Reason) [
                    | none ↦ some Reason.not_listed
                    | some f ↦
                        if str_eq (o.hash_bytes bytes) f.sha256
                        then none
                        else some Reason.hash_mismatch
                  ]
          ])
            ≡ none
          → StandsBehind o url bytes r
      go (a ∷ digest) f k e = inl (λ g. cc, ground arith)
      go [] f (inl k) e = absurd (ground arith)
      go [] f (inr (h, k)) e = inr (f, (h, k, ground (arith, eq_iff (o.hash_bytes bytes) h.sha256)))

  answer-trusts :
      (base : GoString)
      → verification_base_url url ≡ base
      → (p : Server × Option Release) → Trusted o p
      → TrustedStore o (answer o url base bytes p).0
        × ((answer o url base bytes p).1 ≡ none
            → (r : Release) × Vouched o r × StandsBehind o url bytes r)
  answer-trusts base e (s, none) t = (t.0, λ f. cc)
  answer-trusts base e (s, some r) t = (t.0, λ f. (r, t.1, check_digest-StandsBehind r (rw e f)))

  verify_at-trusts :
      (base : GoString) (s : Server)
      → verification_base_url url ≡ base
      → TrustedStore o s
      → TrustedStore o (verify_at o url bytes base s).0
        × ((verify_at o url bytes base s).1 ≡ none
            → (r : Release) × Vouched o r × StandsBehind o url bytes r)
  unfolding verify_at
  verify_at-trusts [] s e t = (t, λ f. cc)
  verify_at-trusts (a ∷ base) s e t =
      answer-trusts (a ∷ base) e (obtain_release o (a ∷ base) s)
        (obtain_release-Trusted o (a ∷ base) s t)

  verify_index-trusts :
      (s : Server)
      → TrustedStore o s
      → TrustedStore o (verify_index o url bytes s).0
        × ((verify_index o url bytes s).1 ≡ none
            → (r : Release) × Vouched o r × StandsBehind o url bytes r)
  unfolding verify_index
  verify_index-trusts s t = elim (Bool-cases (ltb 0 o.pgp.entities)) [
    | inr e ↦ rw (e, verify_index) (t, λ f. cc)
    | inl e ↦ rw (e, verify_index) (verify_at-trusts (verification_base_url url) s refl t)
  ]

  -- The verdict follows from the result of the verification.
  verdict_of : Server → Option Reason → Verdict
  verdict_of s none = record { allowed = true; unverified = none }
  verdict_of s (some reason) =
      if mode_refuses s.mode reason && not (is_exempt_host o url s)
      then record { allowed = false; unverified = none }
      else record { allowed = true; unverified = some reason }

  check_index_verification-verdict :
      (s : Server)
      → verification_enabled s.mode ≡ true
      → is_verifiable_index_url url ≡ true
      → check_index_verification o url bytes s
        ≡ ((verify_index o url bytes s).0, verdict_of s (verify_index o url bytes s).1)
  unfolding check_index_verification verdict_of
  check_index_verification-verdict s e f = go (verify_index o url bytes s).1 refl
    where
      go :
          (v : Option Reason)
          → (verify_index o url bytes s).1 ≡ v
          → check_index_verification o url bytes s
            ≡ ((verify_index o url bytes s).0, verdict_of s (verify_index o url bytes s).1)
      go none g = ground arith
      go (some reason) g = ground arith

  -- In the mode enforce an index of a host that is not exempt is only let through if a release
  -- stands behind it whose body has a good signature of a key of the keyring, where the releases in
  -- the store come from such bodies, and they still do afterwards.
  pub enforce_sound :
      (s : Server)
      → TrustedStore o s
      → s.mode ≡ enforce
      → is_verifiable_index_url url ≡ true
      → is_exempt_host o url s ≡ false
      → (check_index_verification o url bytes s).1.allowed ≡ true
      → TrustedStore o (check_index_verification o url bytes s).0
        × ((r : Release) × Vouched o r × StandsBehind o url bytes r)
  unfolding verdict_of mode_refuses
  enforce_sound s t e f g allowed =
      let same = check_index_verification-verdict s (rw e refl) f in
      let (kept, sound) = verify_index-trusts s t in
      rw same (kept, sound (go (verify_index o url bytes s).1 refl (rw same at allowed)))
    where
      go :
          (v : Option Reason)
          → (verify_index o url bytes s).1 ≡ v
          → (verdict_of s (verify_index o url bytes s).1).allowed ≡ true
          → (verify_index o url bytes s).1 ≡ none
      go none h k = h
      go (some reason) h k = absurd (ground arith)

  verdict_of_iff :
      (s : Server) (v : Option Reason)
      → (((verdict_of s v).allowed ≡ false) ↔ (
          (reason : Reason) × (v ≡ some reason)
          × ((s.mode ≡ enforce) ⊎ ((s.mode ≡ auto) × (is_decisive reason ≡ true)))
          × (is_exempt_host o url s ≡ false)))
        × ((verdict_of s v).allowed ≡ true → (verdict_of s v).unverified ≡ v)
  unfolding verdict_of
  verdict_of_iff s none = ((λ e. cc, λ (reason, e, f, g). cc), λ e. refl)
  verdict_of_iff s (some reason) = (
    (
      λ e. (reason, refl, (mode_refuses_iff s.mode reason).0 (ground arith), ground arith),
      λ (reason', e, f, g).
          let same : reason' ≡ reason = some-injective reason' reason (sym e) in
          let refuses = (mode_refuses_iff s.mode reason).1 (rw same at f) in ground arith,
    ),
    λ e. ground arith,
  )

  -- Where verification is on, an index is refused exactly if its verification failed in the mode
  -- enforce, or in the mode auto for a reason that is decisive, and its host is not exempt; an index
  -- that is let through is flagged with the reason for which its verification failed, if it did.
  pub refused_iff :
      (s : Server)
      → verification_enabled s.mode ≡ true
      → is_verifiable_index_url url ≡ true
      → (((check_index_verification o url bytes s).1.allowed ≡ false) ↔ (
          (reason : Reason) × ((verify_index o url bytes s).1 ≡ some reason)
          × ((s.mode ≡ enforce) ⊎ ((s.mode ≡ auto) × (is_decisive reason ≡ true)))
          × (is_exempt_host o url s ≡ false)))
        × ((check_index_verification o url bytes s).1.allowed ≡ true
            → (check_index_verification o url bytes s).1.unverified
              ≡ (verify_index o url bytes s).1)
  refused_iff s e f =
      rw (check_index_verification-verdict s e f) (verdict_of_iff s (verify_index o url bytes s).1)

  check_digest_by_hash :
      (bytes' : List ℕ) (base : GoString) (r : Release)
      → by_hash_digest url ≢ []
      → check_digest o url base bytes r ≡ check_digest o url base bytes' r
  check_digest_by_hash bytes' base r e = go (by_hash_digest url) refl
    where
      go :
          (d : GoString)
          → by_hash_digest url ≡ d
          → check_digest o url base bytes r ≡ check_digest o url base bytes' r
      go [] f = absurd (e f)
      go (a ∷ d) f = rw (f, check_digest) refl

  verify_index_by_hash :
      (bytes' : List ℕ) (s : Server)
      → by_hash_digest url ≢ []
      → verify_index o url bytes s ≡ verify_index o url bytes' s
  unfolding verify_index verify_at
  verify_index_by_hash bytes' s e = elim (Bool-cases (ltb 0 o.pgp.entities)) [
    | inr f ↦ ground arith
    | inl f ↦ ground (arith, at (verification_base_url url))
  ]
    where
      answers :
          (base : GoString) (p : Server × Option Release)
          → answer o url base bytes p ≡ answer o url base bytes' p
      answers base (s', none) = refl
      answers base (s', some r) = ap (λ v. (s', v)) (check_digest_by_hash bytes' base r e)

      at : (base : GoString) → verify_at o url bytes base s ≡ verify_at o url bytes' base s
      at [] = refl
      at (a ∷ base) = answers (a ∷ base) (obtain_release o (a ∷ base) s)

  -- The bytes of an index with a digest in its URL are not looked at: whatever a mirror sends for
  -- such a URL has the same verdict, also in the mode enforce.
  pub by_hash_unchecked :
      (bytes' : List ℕ) (s : Server)
      → by_hash_digest url ≢ []
      → check_index_verification o url bytes s ≡ check_index_verification o url bytes' s
  unfolding check_index_verification
  by_hash_unchecked bytes' s e = ground (
    arith,
    ap (λ (v : Server × Option Reason). v.1) (verify_index_by_hash bytes' s e),
    ap (λ (v : Server × Option Reason). v.0) (verify_index_by_hash bytes' s e),
  )
