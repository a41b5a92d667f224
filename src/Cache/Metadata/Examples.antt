-- ===== src/Cache/Metadata/Examples.antt =====
-- The theorems of internal/cache/metadata.go at concrete inputs. Here bytes are their own hash.
use debswarm.Prelude.{
  ℕ, ◌-◌, ◌≤◌, ◌≡◌, refl, none, some, true, false, List, [], ◌∷◌, arith, GoString, codes, str_eq,
  inl, inr, sym, ◌∙◌, ap, ◌≢◌,
}
use debswarm.Prelude.Assoc.{lookup, delete, insert}
use debswarm.Prelude.Strings.{cut, to_lower, take}
use debswarm.Cache.State.{System}
use debswarm.Cache.Metadata.{
  MetadataEntry, Metadata, MetadataWriter, commit_metadata, get_metadata, by_hash_sha256,
  ensure_metadata_space, install_metadata, record_metadata,
}
use debswarm.Cache.Metadata.Commits.{
  total, commit_metadata-total, commit_metadata_undercounts, get_metadata-commit,
}
use debswarm.Cache.Metadata.Runs.{
  MetadataCall, touch, drop_row, finish_write, set_max_size, metadata_run, Trustworthy,
  metadata_run-Trustworthy, NoClash,
}

abbrev self_hash : List ℕ → GoString
self_hash bytes = bytes

abbrev one : GoString
one = codes "deb/Release"

abbrev two : GoString
two = codes "sec/Release"

abbrev three : GoString
three = codes "new/Release"

abbrev entry_at : ℕ → MetadataEntry
entry_at t = record {
  etag = [];
  last_modified = [];
  size = 3;
  content_type = [];
  fetched_at = 0;
  last_validated = 0;
  last_accessed = t;
  access_count = 1;
}

-- Two files of three bytes, and a budget of six.
abbrev full : Metadata
full = record {
  metadata_max_size = 6;
  metadata_size = 6;
  rows = (one, entry_at 1) ∷ (two, entry_at 2) ∷ [];
  files = (one, codes "abc") ∷ (two, codes "def") ∷ [];
}

abbrev system : System
system = record {
  now = 10;
  disk_free = none;
  locked = λ h. false;
  can_move = true;
  can_open = λ h. true;
}

abbrev writer : GoString → List ℕ → MetadataWriter
writer url bytes = record {
  url = url;
  etag = codes "v2";
  last_modified = [];
  content_type = [];
  written = bytes;
  closes = true;
  done = false;
}

abbrev after : GoString → List ℕ → Metadata
after url bytes = (commit_metadata self_hash system (writer url bytes) full).0

commit_metadata-total_example :
    ((after three (codes "ghi")).metadata_size ≡ total (after three (codes "ghi")))
    × (total (after three (codes "ghi")) ≤ 6)
unfolding commit_metadata by_hash_sha256 cut to_lower ensure_metadata_space lookup str_eq
    install_metadata delete record_metadata insert
commit_metadata-total_example =
    commit_metadata-total self_hash system (writer three (codes "ghi")) full
      (after three (codes "ghi")) (refl, (refl, tt)) refl refl refl refl

-- The oldest of the files is replaced by a larger one.
commit_metadata_undercounts_example :
    (after one (codes "ghij")).metadata_size ≡ total (after one (codes "ghij")) - 3
unfolding commit_metadata by_hash_sha256 cut to_lower ensure_metadata_space lookup str_eq
    install_metadata delete record_metadata insert
commit_metadata_undercounts_example =
    commit_metadata_undercounts self_hash system (writer one (codes "ghij")) full
      (after one (codes "ghij")) (entry_at 1) (refl, (refl, tt)) refl refl refl refl refl

-- The rows then have seven bytes, one above the budget.
over_budget : total (after one (codes "ghij")) ≡ 7
unfolding commit_metadata by_hash_sha256 cut to_lower ensure_metadata_space lookup str_eq
    install_metadata delete record_metadata insert
over_budget = refl

get_metadata-commit_example :
    (e : MetadataEntry) × ((get_metadata self_hash system three (after three (codes "ghi"))).1
      ≡ some (e, codes "ghi"))
    × (e.etag ≡ codes "v2")
    × (e.last_modified ≡ [])
    × (e.size ≡ 3)
unfolding commit_metadata by_hash_sha256 cut to_lower ensure_metadata_space lookup str_eq
    install_metadata delete record_metadata insert
get_metadata-commit_example =
    get_metadata-commit self_hash system (writer three (codes "ghi")) full system
      (after three (codes "ghi")) (refl, (refl, tt)) refl refl refl

abbrev digest : GoString
digest = codes "0123456789abcdef0123456789abcdef0123456789abcdef0123456789abcdef"

abbrev by_hash : GoString
by_hash =
    codes "deb/by-hash/SHA256/0123456789abcdef0123456789abcdef0123456789abcdef0123456789abcdef"

abbrev calls : List (System × MetadataCall)
calls =
    (system, set_max_size 100)
    ∷ (system, finish_write (writer by_hash digest))
    ∷ (system, touch two)
    ∷ (system, drop_row one)
    ∷ (system, finish_write (writer by_hash (codes "forged")))
    ∷ []

abbrev empty : Metadata
empty = record { metadata_max_size = 0; metadata_size = 0; rows = []; files = [] }

-- A hash that takes many byte strings to one, but not the two URLs.
abbrev short_hash : List ℕ → GoString
short_hash bytes = take 100 bytes

abbrev urls : List GoString
urls = by_hash ∷ three ∷ []

short_hash-differs : short_hash by_hash ≢ short_hash three
unfolding str_eq take
short_hash-differs same =
    let differ : false ≡ true = ap (λ s. str_eq s three) same in absurd (ground arith)

urls-NoClash : NoClash short_hash urls
urls-NoClash u v (inl e) (inl f) same = e ∙ sym f
urls-NoClash u v (inl e) (inr (inl f)) same = absurd (short_hash-differs (rw (e, f) at same))
urls-NoClash u v (inr (inl e)) (inl f) same = absurd (short_hash-differs (sym (rw (e, f) at same)))
urls-NoClash u v (inr (inl e)) (inr (inl f)) same = e ∙ sym f
urls-NoClash u v (inl e) (inr (inr none_left)) same = absurd none_left
urls-NoClash u v (inr (inl e)) (inr (inr none_left)) same = absurd none_left
urls-NoClash u v (inr (inr none_left)) f same = absurd none_left

metadata_run-Trustworthy_example : Trustworthy short_hash urls (metadata_run short_hash calls empty)
unfolding lookup
metadata_run-Trustworthy_example =
    metadata_run-Trustworthy short_hash urls urls-NoClash calls empty
      (tt, (inl refl, (tt, (tt, (inl refl, tt)))))
      (record { once = tt; at_most = omega arith; intact = λ url expected bytes u e f. cc })
