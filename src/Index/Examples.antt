-- ===== src/Index/Examples.antt =====
-- The theorems of internal/index at concrete inputs.
use debswarm.Prelude.{
  ◌≡◌, ◌≢◌, refl, sym, ◌∙◌, str_eq, none, some, true, false, List, [], ◌∷◌, ◌++◌, GoString, codes,
  map, length, ◌⊎◌, ◌≤◌, arith,
}
use debswarm.Prelude.Int.{pos}
use debswarm.Prelude.Assoc.{lookup, insert}
use debswarm.Prelude.Strings.{cut, split, trim_space}
use debswarm.Index.Packages.{parse_for_repo, load_lines}
use debswarm.Index.{
  clear_repo, Index, PackageInfo, new_index, get_by_sha256, add_package, get_by_repo_and_path,
}
use debswarm.Index.Urls.{extract_repo_from_url, extract_path_from_url}
use debswarm.Index.Load.{Outer, get_by_url_path}
use debswarm.Index.Calls.{IndexCall, packages_file, clear_one_repo, index_run}
use debswarm.Index.Limit.{recorded, load_lines-recorded}
use debswarm.Index.Refines.{HashAnswer, Answers, asked_name, index_run-Answers}

-- No body is compressed, and no URL is escaped.
abbrev plain : Outer
plain = record {
  gzip = λ s. none;
  xz = λ s. none;
  zstd = λ s. none;
  lz4 = λ s. none;
  path_unescape = λ s. some s;
  url_path = λ s. some s;
}

abbrev curl : GoString
curl = codes "Package: curl\nFilename: pool/c/curl_1.deb\nSize: 7\nSHA256: aa\n\n"

abbrev wget : GoString
wget = codes "Package: wget\nFilename: pool/w/wget_2.deb\nSHA256: bb\n"

-- A file with two packages is loaded, and then again with one.
abbrev loads : List IndexCall
loads =
    packages_file (codes "deb.org/debian") (codes "main") (curl ++ wget) false
    ∷ packages_file (codes "deb.org/debian") (codes "main") curl false
    ∷ []

abbrev url : GoString
url = codes "http://deb.org/debian/pool/c/curl_1.deb"

url_repo : extract_repo_from_url url ≡ codes "deb.org/debian"
unfolding extract_repo_from_url cut
url_repo = refl

repo_not_empty : extract_repo_from_url url ≢ []
repo_not_empty e = go (sym url_repo ∙ e)
  where
    go : codes "deb.org/debian" ≢ []
    go f = cc

index_run-Answers_example :
    HashAnswer
      (index_run plain loads new_index)
      (codes "aa")
      (get_by_sha256 (codes "aa") (index_run plain loads new_index))
    × Answers
        (index_run plain loads new_index)
        (asked_name plain url)
        (get_by_url_path plain url (index_run plain loads new_index))
index_run-Answers_example =
    index_run-Answers plain loads (codes "aa") url (tt, (tt, tt)) repo_not_empty

found_after :
    get_by_url_path plain url (index_run plain loads new_index)
    ≡ some (record {
      id = 2;
      name = codes "curl";
      version = [];
      architecture = [];
      filename = codes "pool/c/curl_1.deb";
      size = pos 7;
      sha256 = codes "aa";
      repo = codes "deb.org/debian";
    })
unfolding index_run get_by_url_path new_index extract_repo_from_url cut extract_path_from_url
    get_by_repo_and_path lookup parse_for_repo split str_eq trim_space add_package insert
found_after = refl

-- A package without a file name is found by its hash after `ClearRepo`, though no loaded file lists
-- it any more.
abbrev cleared : List IndexCall
cleared =
    packages_file (codes "deb.org/debian") (codes "main") (codes "Package: curl\nSHA256: aa\n")
      false
    ∷ clear_one_repo (codes "deb.org/debian")
    ∷ []

abbrev after_clear_repo : Index
after_clear_repo = index_run plain cleared new_index

cleared_repo_found :
    (p : PackageInfo) × (get_by_sha256 (codes "aa") after_clear_repo ≡ some p)
    × (after_clear_repo.by_index_file ≡ [])
unfolding index_run get_by_sha256 new_index lookup parse_for_repo split str_eq trim_space cut
    add_package insert clear_repo
cleared_repo_found = (_, refl, refl)

-- Two stanzas under a limit of one.
abbrev two_stanzas : List GoString
two_stanzas = codes "SHA256: aa" ∷ [] ∷ codes "SHA256: bb" ∷ [] ∷ []

load_lines-recorded_example :
    (((load_lines 1 (codes "h") (codes "main") two_stanzas new_index).1 ≡ true)
      × (length (
            recorded
              (codes "main")
              (load_lines 1 (codes "h") (codes "main") two_stanzas new_index).0)
          ≡ 2))
    ⊎ (((load_lines 1 (codes "h") (codes "main") two_stanzas new_index).1 ≡ false)
        × (length (
              recorded
                (codes "main")
                (load_lines 1 (codes "h") (codes "main") two_stanzas new_index).0)
            ≤ 1))
load_lines-recorded_example =
    load_lines-recorded 1 (codes "h") (codes "main") two_stanzas new_index (omega arith)

-- The first package is recorded twice.
recorded_twice :
    map
      (λ p. p.sha256)
      (recorded (codes "main") (load_lines 1 (codes "h") (codes "main") two_stanzas new_index).0)
    ≡ codes "aa" ∷ codes "aa" ∷ []
unfolding load_lines add_package insert lookup str_eq trim_space cut new_index
recorded_twice = refl
