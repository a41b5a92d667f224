-- ===== src/Index/Urls.antt =====
-- internal/index/index.go: what the index reads from a URL. `url.PathUnescape`, and the path of a
-- URL that `url.Parse` gives, are parameters.
use debswarm.Prelude.{
  Option, none, some, List, [], ◌∷◌, ◌++◌, GoString, codes, str_eq, ◌||◌, if◌then◌else◌,
}
use debswarm.Prelude.Strings.{cut, cut_prefix, cut_suffix, base_name}

-- `s[:Index(s, marker)]` for the first of the markers that stands in s.
unfoldable pub before_marker : List GoString → GoString → Option GoString
before_marker [] s = none
before_marker (m ∷ ms) s = elim (cut m s) [
  | some (before, after) ↦ some before
  | none ↦ before_marker ms s
]

unfoldable pub trim_extensions : List GoString → GoString → GoString
trim_extensions [] s = s
trim_extensions (e ∷ es) s = elim (cut_suffix e s) [
  | none ↦ trim_extensions es s
  | some stem ↦ trim_extensions es stem
]

unfoldable pub index_file_key : GoString → GoString
unfolding before_marker trim_extensions
index_file_key s = elim (before_marker (codes "/by-hash/" ∷ []) s) [
  | some dir ↦ dir
  | none ↦
      trim_extensions (codes ".gz" ∷ codes ".xz" ∷ codes ".lz4" ∷ codes ".bz2" ∷ codes ".zst" ∷ [])
        s
]

abbrev pub drop_scheme : GoString → GoString
drop_scheme url = elim (cut_prefix (codes "https://") url) [
  | some s ↦ s
  | none ↦ elim (cut_prefix (codes "http://") url) [ some s ↦ s | none ↦ url ]
]

unfoldable pub extract_repo_from_url : GoString → GoString
unfolding before_marker
extract_repo_from_url url =
    let s = drop_scheme url in
    elim (before_marker (codes "/dists/" ∷ codes "/pool/" ∷ []) s) [
      | some repo ↦ repo
      | none ↦ elim (cut (codes "/") s) [ some (host, rest) ↦ host | none ↦ s ]
    ]

abbrev pub decoded : (GoString → Option GoString) → GoString → GoString
decoded path_unescape p = elim (path_unescape p) [ some q ↦ q | none ↦ p ]

unfoldable pub extract_path_from_url : (GoString → Option GoString) → GoString → GoString
extract_path_from_url path_unescape url = elim (cut (codes "/pool/") url) [
  | some (before, after) ↦ decoded path_unescape (codes "pool/" ++ after)
  | none ↦ elim (cut (codes "/dists/") url) [
    | some (before, after) ↦ decoded path_unescape (codes "dists/" ++ after)
    | none ↦ []
  ]
]

-- `path.Base` of the path of the URL, which is none where the URL cannot be parsed.
unfoldable pub basename_from_url : (GoString → Option GoString) → GoString → GoString
basename_from_url url_path url = elim (url_path url) [
  | none ↦ []
  | some p ↦
      if str_eq (base_name p) (codes ".") || str_eq (base_name p) (codes "/")
      then []
      else base_name p
]
