-- ===== src/Index/Load.antt =====
-- internal/index: loading an index from the bytes of a response, and finding the package of a URL.
-- The decompressors are parameters.
use debswarm.Prelude.{
  ℕ, ◌*◌, Option, none, some, Bool, true, false, ◌&&◌, ltb, length, List, [], ◌∷◌, GoString,
}
use debswarm.Prelude.Strings.{take, cut_prefix}
use debswarm.Index.Urls.{
  index_file_key, extract_repo_from_url, extract_path_from_url, basename_from_url,
}
use debswarm.Index.{PackageInfo, Index, get_by_basename, get_by_repo_and_path, get_by_path}
use debswarm.Index.Packages.{parse_for_repo}
use debswarm.Index.Sources.{parse_sources_for_repo}

-- The bytes that come out, with whether they end in an error; none if the reader cannot be made.
abbrev pub Decompressor : Type 0
Decompressor = List ℕ → Option (List ℕ × Bool)

pub record Outer : Type 0 where
  pub gzip : Decompressor
  pub xz : Decompressor
  pub zstd : Decompressor
  pub lz4 : Decompressor
  pub path_unescape : GoString → Option GoString
  pub url_path : GoString → Option GoString

-- `maxDecompressedBytes`
abbrev pub max_decompressed_bytes : ℕ
max_decompressed_bytes = 512 * 1024 * 1024

-- An error behind the limit is not seen.
abbrev pub limited : Option (List ℕ × Bool) → Option (List ℕ × Bool)
limited none = none
limited (some (bytes, broken)) =
    some (take max_decompressed_bytes bytes, broken && ltb (length bytes) max_decompressed_bytes)

-- The first four magic numbers that match; none of them is plain text.
unfoldable pub decompress_by_magic : Outer → List ℕ → Option (List ℕ × Bool)
decompress_by_magic o bytes = elim (cut_prefix (0x1f ∷ 0x8b ∷ []) bytes) [
  | some s ↦ limited (o.gzip bytes)
  | none ↦ elim (cut_prefix (0xfd ∷ b'7' ∷ b'z' ∷ b'X' ∷ b'Z' ∷ 0 ∷ []) bytes) [
    | some s ↦ limited (o.xz bytes)
    | none ↦ elim (cut_prefix (0x28 ∷ 0xb5 ∷ 0x2f ∷ 0xfd ∷ []) bytes) [
      | some s ↦ limited (o.zstd bytes)
      | none ↦ elim (cut_prefix (0x04 ∷ 0x22 ∷ 0x4d ∷ 0x18 ∷ []) bytes) [
        | some s ↦ limited (o.lz4 bytes)
        | none ↦ some (bytes, false)
      ]
    ]
  ]
]

unfoldable pub load_from_data : Outer → List ℕ → GoString → Index → Index × Bool
unfolding decompress_by_magic
load_from_data o bytes url idx = elim (decompress_by_magic o bytes) [
  | none ↦ (idx, true)
  | some (body, broken) ↦
      parse_for_repo (extract_repo_from_url url) (index_file_key url) body broken idx
]

unfoldable pub load_sources_from_data : Outer → List ℕ → GoString → Index → Index × Bool
unfolding decompress_by_magic
load_sources_from_data o bytes url idx = elim (decompress_by_magic o bytes) [
  | none ↦ (idx, true)
  | some (body, broken) ↦
      parse_sources_for_repo (extract_repo_from_url url) (index_file_key url) body broken idx
]

abbrev pub by_basename : GoString → GoString → Index → Option PackageInfo
by_basename [] repo idx = none
by_basename (a ∷ base) repo idx = get_by_basename (a ∷ base) repo idx

unfoldable pub get_by_url_path : Outer → GoString → Index → Option PackageInfo
get_by_url_path o url idx = elim (extract_repo_from_url url) [
  | [] ↦ none
  | a ∷ repo ↦ elim (extract_path_from_url o.path_unescape url) [
    | [] ↦ by_basename (basename_from_url o.url_path url) (a ∷ repo) idx
    | b ∷ path ↦ elim (get_by_repo_and_path (a ∷ repo) (b ∷ path) idx) [
      | some p ↦ some p
      | none ↦ get_by_path (b ∷ path) idx
    ]
  ]
]
