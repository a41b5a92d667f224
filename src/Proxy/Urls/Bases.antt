-- ===== src/Proxy/Urls/Bases.antt =====
-- internal/proxy/verify.go: an index and the Release files of its suite have one base.
use debswarm.Prelude.{
  ◌≡◌, ◌≢◌, refl, sym, ap, ◌∙◌, none, some, [], ◌∷◌, ◌++◌, arith, GoString, codes, Option-cases,
  inl, inr, ◌⊎◌,
}
use mathlib.Core.List.{append_assoc}
use debswarm.Prelude.Strings.{cut}
use debswarm.Prelude.Strings.Laws.{cut_sound, cut-stable}
use debswarm.Proxy.Urls.{dists, dist_base_url, verification_base_url}

-- The shape of a base, and that of what has it.
dist_base_url-shape :
    (url base : GoString)
    → dist_base_url url ≡ base
    → base ≢ []
    → (before suite file : GoString) × (base ≡ before ++ (dists ++ (suite ++ codes "/")))
      × (url ≡ before ++ (dists ++ (suite ++ (codes "/" ++ file))))
      × ((rest : GoString)
          → dist_base_url (before ++ (dists ++ (suite ++ (codes "/" ++ rest)))) ≡ base)
unfolding dist_base_url
dist_base_url-shape url base e full = go (Option-cases (cut dists url))
  where
    inside :
        (before rest : GoString)
        → cut dists url ≡ some (before, rest)
        → (cut (codes "/") rest ≡ none)
          ⊎ ((p : GoString × GoString) × (cut (codes "/") rest ≡ some p))
        → (before suite file : GoString) × (base ≡ before ++ (dists ++ (suite ++ codes "/")))
          × (url ≡ before ++ (dists ++ (suite ++ (codes "/" ++ file))))
          × ((rest : GoString)
              → dist_base_url (before ++ (dists ++ (suite ++ (codes "/" ++ rest)))) ≡ base)
    inside before rest f (inl g) = absurd (full (ground arith))
    inside before rest f (inr ((suite, file), g)) = (
      before,
      suite,
      file,
      ground arith,
      cut_sound dists url before rest f
          ∙ ap (λ t. before ++ (dists ++ t)) (cut_sound (codes "/") rest suite file g),
      λ other.
          rw
            (
              cut-stable dists url before rest (suite ++ (codes "/" ++ other)) f,
              dist_base_url,
              cut-stable (codes "/") rest suite file other g,
            )
            (ground arith),
    )

    go :
        (cut dists url ≡ none) ⊎ ((p : GoString × GoString) × (cut dists url ≡ some p))
        → (before suite file : GoString) × (base ≡ before ++ (dists ++ (suite ++ codes "/")))
          × (url ≡ before ++ (dists ++ (suite ++ (codes "/" ++ file))))
          × ((rest : GoString)
              → dist_base_url (before ++ (dists ++ (suite ++ (codes "/" ++ rest)))) ≡ base)
    go (inl f) = absurd (full (ground arith))
    go (inr ((before, rest), f)) = inside before rest f (Option-cases (cut (codes "/") rest))

of_dist :
    (url base : GoString) → dist_base_url url ≡ base → base ≢ [] → verification_base_url url ≡ base
unfolding verification_base_url
of_dist url [] e full = absurd (full refl)
of_dist url (a ∷ base) e full = rw (e, verification_base_url) refl

-- A URL with a dist base begins with it, and each URL that begins with this base has it for the
-- base of its verification: so the index, InRelease, Release and Release.gpg of a suite have one.
verification_base_url-stable :
    (url base : GoString)
    → dist_base_url url ≡ base
    → base ≢ []
    → ((file : GoString) × (url ≡ base ++ file))
      × ((rest : GoString) → verification_base_url (base ++ rest) ≡ base)
verification_base_url-stable url base e full =
    let (before, suite, file, shape, whole, other) = dist_base_url-shape url base e full in
    (
      (file, whole ∙ regroup before suite file shape),
      λ rest.
          of_dist (base ++ rest) base
            (ap dist_base_url (sym (regroup before suite rest shape)) ∙ other rest) full,
    )
  where
    regroup :
        (before suite rest : GoString)
        → base ≡ before ++ (dists ++ (suite ++ codes "/"))
        → before ++ (dists ++ (suite ++ (codes "/" ++ rest))) ≡ base ++ rest
    regroup before suite rest shape = rw shape (simp append_assoc)
