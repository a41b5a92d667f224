-- ===== src/Proxy/Urls.antt =====
-- internal/proxy/verify.go and server.go: what the proxy reads from the URL of an index.
pub mod Bases
use debswarm.Prelude.{
  ℕ, Option, none, some, Bool, true, false, not, ◌&&◌, ◌||◌, List, [], ◌∷◌, ◌++◌, if◌then◌else◌,
  GoString, codes, ◌==◌,
}
use debswarm.Prelude.Strings.{to_lower, cut, contains, has_byte}

abbrev pub dists : GoString
dists = codes "/dists/"

-- `distBaseURL`
unfoldable pub dist_base_url : GoString → GoString
dist_base_url url = elim (cut dists url) [
  | none ↦ []
  | some (before, rest) ↦ elim (cut (codes "/") rest) [
    | none ↦ []
    | some (suite, file) ↦ before ++ (dists ++ (suite ++ codes "/"))
  ]
]

-- The bytes up to the last slash, with it, or none.
unfoldable pub up_to_last_slash : GoString → GoString
unfolding has_byte
up_to_last_slash [] = []
up_to_last_slash (a ∷ s) =
    let rest = up_to_last_slash s in
    if has_byte b'/' s then a ∷ rest else if a == b'/' then a ∷ [] else []

-- `flatBaseURL`
unfoldable pub flat_base_url : GoString → GoString
unfolding up_to_last_slash
flat_base_url url = elim (cut (codes "/by-hash/") url) [
  | some (before, rest) ↦ before ++ codes "/"
  | none ↦ up_to_last_slash url
]

unfoldable pub verification_base_url : GoString → GoString
unfolding dist_base_url flat_base_url
verification_base_url url = elim (dist_base_url url) [ [] ↦ flat_base_url url | a ∷ s ↦ a ∷ s ]

unfoldable pub by_hash_digest : GoString → GoString
by_hash_digest url = elim (cut (codes "/by-hash/SHA256/") url) [
  | none ↦ []
  | some (before, digest) ↦ to_lower digest
]

unfoldable pub is_flat_by_hash : GoString → Bool
is_flat_by_hash lower =
    not (contains dists lower)
    && (not (contains (codes "/i18n/") lower)
        && (not (contains (codes "/cnf/") lower) && not (contains (codes "/dep11/") lower)))

unfoldable pub is_packages_index_url : GoString → Bool
unfolding is_flat_by_hash
is_packages_index_url url =
    let lower = to_lower url in
    (contains (codes "/packages") lower && not (contains (codes "/translation") lower))
    || (contains (codes "/by-hash/") lower
        && (contains (codes "/binary-") lower || is_flat_by_hash lower))

unfoldable pub is_sources_index_url : GoString → Bool
is_sources_index_url url =
    let lower = to_lower url in
    if contains (codes "/pool/") lower
    then false
    else if not (contains (codes "/source/") lower)
    then false
    else contains (codes "/sources") lower || contains (codes "/by-hash/") lower

unfoldable pub is_verifiable_index_url : GoString → Bool
unfolding is_packages_index_url is_sources_index_url
is_verifiable_index_url url = is_packages_index_url url || is_sources_index_url url
