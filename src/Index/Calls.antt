-- ===== src/Index/Calls.antt =====
-- internal/index: any sequence of the calls that change the index.
use debswarm.Prelude.{ℕ, ◌≡◌, refl, Option, none, some, Bool, List, [], ◌∷◌, All, arith, GoString}
use debswarm.Prelude.Assoc.{lookup}
use debswarm.Prelude.Strings.{split}
use debswarm.Index.{PackageInfo, Index, clear_index, clear_repo, new_index}
use debswarm.Index.Urls.{extract_repo_from_url, index_file_key}
use debswarm.Index.Packages.{parse_for_repo, max_packages_per_repo, scan_parts, max_line}
use debswarm.Index.Sources.{parse_sources_for_repo}
use debswarm.Index.Load.{Outer, decompress_by_magic, load_from_data, load_sources_from_data}
use debswarm.Index.Indexed.{Owned, Indexed}
use debswarm.Index.Runs.{load_lines-Indexed, load_source_lines-Indexed}

-- A file of the watcher, or the bytes of a response, of either kind; `Clear`; or `ClearRepo`.
pub data IndexCall : Type 0 where
  packages_file sources_file : GoString → GoString → List ℕ → Bool → IndexCall
  packages_data sources_data : List ℕ → GoString → IndexCall
  clear : IndexCall
  clear_one_repo : GoString → IndexCall

unfoldable pub index_step : Outer → IndexCall → Index → Index
index_step o (packages_file repo key body broken) idx = (parse_for_repo repo key body broken idx).0
index_step o (sources_file repo key body broken) idx =
    (parse_sources_for_repo repo key body broken idx).0
index_step o (packages_data bytes url) idx = (load_from_data o bytes url idx).0
index_step o (sources_data bytes url) idx = (load_sources_from_data o bytes url idx).0
index_step o clear idx = clear_index idx
index_step o (clear_one_repo repo) idx = clear_repo repo idx

unfoldable pub index_run : Outer → List IndexCall → Index → Index
unfolding index_step
index_run o [] idx = idx
index_run o (call ∷ calls) idx = index_run o calls (index_step o call idx)

-- The call is no `ClearRepo`.
abbrev pub KeepsRepos : IndexCall → Type 0
KeepsRepos (packages_file repo key body broken) = Unit
KeepsRepos (sources_file repo key body broken) = Unit
KeepsRepos (packages_data bytes url) = Unit
KeepsRepos (sources_data bytes url) = Unit
KeepsRepos clear = Unit
KeepsRepos (clear_one_repo repo) = ⊥

empty-Indexed : (idx : Index) → Indexed [] (clear_index idx)
unfolding clear_index lookup
empty-Indexed idx = record {
  hash = λ h p e. absurd (ground arith);
  path = λ r f m p e g. absurd (ground arith);
  base = λ b p m. absurd m;
  whole = λ p (o, k) named. absurd (nobody o p k);
  fresh = λ p (o, k). absurd (nobody o p k);
  apart = λ o o' p q k k' same. absurd (nobody o p k);
  once = tt;
}
  where
    nobody : (o : Option GoString) (p : PackageInfo) → Owned [] (clear_index idx) o p → ⊥
    nobody none p k = k
    nobody (some key) p (gen, e, m) = ground arith

parse_for_repo-Indexed :
    (repo key : GoString) (body : List ℕ) (broken : Bool) (idx : Index)
    → Indexed [] idx
    → Indexed [] (parse_for_repo repo key body broken idx).0
unfolding parse_for_repo
parse_for_repo-Indexed repo key body broken idx w =
    load_lines-Indexed max_packages_per_repo repo key (scan_parts max_line (split 10 body)).0 idx w

parse_sources_for_repo-Indexed :
    (repo key : GoString) (body : List ℕ) (broken : Bool) (idx : Index)
    → Indexed [] idx
    → Indexed [] (parse_sources_for_repo repo key body broken idx).0
unfolding parse_sources_for_repo
parse_sources_for_repo-Indexed repo key body broken idx w =
    load_source_lines-Indexed max_packages_per_repo repo key (scan_parts max_line (split 10 body)).0
      idx w

index_step-Indexed :
    (o : Outer) (call : IndexCall) (idx : Index)
    → KeepsRepos call
    → Indexed [] idx
    → Indexed [] (index_step o call idx)
unfolding index_step load_from_data load_sources_from_data
index_step-Indexed o (packages_file repo key body broken) idx k w =
    parse_for_repo-Indexed repo key body broken idx w
index_step-Indexed o (sources_file repo key body broken) idx k w =
    parse_sources_for_repo-Indexed repo key body broken idx w
index_step-Indexed o (packages_data bytes url) idx k w = go (decompress_by_magic o bytes) refl
  where
    go :
        (d : Option (List ℕ × Bool))
        → decompress_by_magic o bytes ≡ d
        → Indexed [] (load_from_data o bytes url idx).0
    go none e = rw (e, load_from_data) w
    go (some (body, broken)) e =
        rw (e, load_from_data)
          (parse_for_repo-Indexed (extract_repo_from_url url) (index_file_key url) body broken idx
            w)
index_step-Indexed o (sources_data bytes url) idx k w = go (decompress_by_magic o bytes) refl
  where
    go :
        (d : Option (List ℕ × Bool))
        → decompress_by_magic o bytes ≡ d
        → Indexed [] (load_sources_from_data o bytes url idx).0
    go none e = rw (e, load_sources_from_data) w
    go (some (body, broken)) e =
        rw (e, load_sources_from_data)
          (parse_sources_for_repo-Indexed (extract_repo_from_url url) (index_file_key url) body
            broken idx w)
index_step-Indexed o clear idx k w = empty-Indexed idx
index_step-Indexed o (clear_one_repo repo) idx k w = absurd k

pub index_run-Indexed :
    (o : Outer) (calls : List IndexCall) (idx : Index)
    → All KeepsRepos calls
    → Indexed [] idx
    → Indexed [] (index_run o calls idx)
unfolding index_run
index_run-Indexed o [] idx k w = w
index_run-Indexed o (call ∷ calls) idx (here, k) w =
    index_run-Indexed o calls (index_step o call idx) k (index_step-Indexed o call idx here w)

pub new-Indexed : Indexed [] new_index
unfolding new_index clear_index
new-Indexed = empty-Indexed new_index
