-- ===== src/Index/Limit.antt =====
-- internal/index/index.go: how many packages a load of a Packages file records.
use debswarm.Prelude.{
  ℕ, ◌+◌, ◌≡◌, ◌≤◌, ◌<◌, refl, sym, ap, ◌∙◌, Option, none, some, true, false, List, [], ◌∷◌, length,
  arith, GoString, str_eq_self, inl, inr, ◌⊎◌,
}
use debswarm.Prelude.Assoc.{lookup, lookup-insert}
use debswarm.Index.{PackageInfo, Index, or_empty, clear_index_file}
use debswarm.Index.Packages.{
  Loading, finish_last, read_lines, open_repo, record_generation, load_lines,
}
use debswarm.Index.Members.{Mem}
use debswarm.Index.Runs.{clear_index_file-gone}
use debswarm.Index.Counting.{read_lines-Ended, finish_last-Counted}

no_members : (ps : List PackageInfo) → ((p : PackageInfo) → Mem p ps → ⊥) → length ps ≡ 0
no_members [] none_in = refl
no_members (p ∷ ps) none_in = absurd (none_in p (inl refl))

-- The packages that the index has recorded for a file.
abbrev pub recorded : GoString → Index → List PackageInfo
recorded key idx = or_empty (lookup key idx.by_index_file)

record_generation-recorded :
    (key : GoString) (gen : List PackageInfo) (idx : Index)
    → length (recorded key idx) ≡ 0
    → length (recorded key (record_generation key gen idx)) ≡ length gen
unfolding record_generation
record_generation-recorded key [] idx e = e
record_generation-recorded key (p ∷ ps) idx e =
    ground (arith, lookup-insert key key (p ∷ ps) idx.by_index_file, str_eq_self key)

cleared-recorded :
    (repo key : GoString) (idx : Index)
    → length (recorded key (open_repo repo (clear_index_file key idx))) ≡ 0
unfolding open_repo
cleared-recorded repo key idx = go (lookup key (clear_index_file key idx).by_index_file) refl
  where
    go :
        (o : Option (List PackageInfo))
        → lookup key (clear_index_file key idx).by_index_file ≡ o
        → length (or_empty o) ≡ 0
    go none e = refl
    go (some gen) e = no_members gen (λ p m. clear_index_file-gone key idx gen p e m)

-- A load of lines under a positive limit, whatever the index held before, either stops at the limit
-- and then records one package more than the limit for the file, or reads to the end and records
-- at most the limit.
pub load_lines-recorded :
    (limit : ℕ) (repo key : GoString) (lines : List GoString) (idx : Index)
    → 0 < limit
    → (((load_lines limit repo key lines idx).1 ≡ true)
        × (length (recorded key (load_lines limit repo key lines idx).0) ≡ limit + 1))
      ⊎ (((load_lines limit repo key lines idx).1 ≡ false)
          × (length (recorded key (load_lines limit repo key lines idx).0) ≤ limit))
unfolding load_lines
load_lines-recorded limit repo key lines idx positive =
    let (w, how) = finish_last-Counted opened.by_index_file limit repo looped (
      read_lines-Ended opened.by_index_file limit repo lines start
        (record { counts = refl; same = refl }) positive) in
    let total : length (recorded key (load_lines limit repo key lines idx).0) ≡ c.count =
      record_generation-recorded key c.generation c.index
        (ap (λ m. length (or_empty (lookup key m))) w.same ∙ cleared-recorded repo key idx)
      ∙ sym w.counts in
    elim how [
      | inl (below, few) ↦ inr (ground arith, ground (arith, total, few))
      | inr (full, more) ↦ inl (ground arith, ground (arith, total, more))
    ]
  where
    opened : Index
    opened = open_repo repo (clear_index_file key idx)

    start : Loading
    start = record { index = opened; generation = []; current = none; count = 0 }

    looped : Loading
    looped = read_lines limit repo lines start

    c : Loading
    c = finish_last repo looped
