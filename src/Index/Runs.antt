-- ===== src/Index/Runs.antt =====
-- internal/index: the index under any sequence of loads. What is found is what the files that are
-- loaded list.
use debswarm.Prelude.{
  ℕ, ◌≡◌, refl, sym, ap, ◌∙◌, Option, none, some, false, List, [], ◌∷◌, arith, GoString, str_eq,
  str_eq_self, eq_iff, Bool-cases, inl, inr,
}
use mathlib.Core.Path.{subst}
use mathlib.Core.Option.{some-injective}
use debswarm.Prelude.Assoc.{Map, lookup, insert, delete, lookup-insert, lookup-delete}
use debswarm.Index.{PackageInfo, Index, clear_index_file}
use debswarm.Index.Packages.{open_repo, record_generation, Loading, read_lines, load_lines}
use debswarm.Index.Sources.{Stanza, read_source_lines, load_source_lines}
use debswarm.Index.Members.{Mem}
use debswarm.Index.Forget.{forget-rest}
use debswarm.Index.Indexed.{Owned, Indexed, clear_index_file-Indexed}
use debswarm.Index.Adding.{open_repo-Indexed, inserted}
use debswarm.Index.Reading.{Reading, read_lines-Done, finish_last-Done}
use debswarm.Index.Stanzas.{read_source_lines-Keeps, emit_last-Keeps}

-- No package is owned by a file that was cleared.
pub clear_index_file-gone :
    (key : GoString) (idx : Index) (gen : List PackageInfo) (p : PackageInfo)
    → lookup key (clear_index_file key idx).by_index_file ≡ some gen
    → Mem p gen
    → ⊥
unfolding clear_index_file
clear_index_file-gone key idx gen p e m = go (lookup key idx.by_index_file) refl
  where
    go : (old : Option (List PackageInfo)) → lookup key idx.by_index_file ≡ old → ⊥
    go none f = ground arith
    go (some []) f =
        let nothing : [] ≡ gen = some-injective [] gen (ground arith) in rw (sym nothing) at m
    go (some (q ∷ qs)) f =
        let rest = (forget-rest (q ∷ qs) (q ∷ qs) idx).1 in
        ground (
          arith,
          str_eq_self key,
          ap (λ g. lookup key (delete key g)) rest,
          lookup-delete key key idx.by_index_file,
        )

module _ (key : GoString) (gen : List PackageInfo) (idx : Index)
    (absent : (g : List PackageInfo) (p : PackageInfo)
      → lookup key idx.by_index_file ≡ some g
      → Mem p g
      → ⊥)
    (w : Indexed gen idx) where
  renamed : Option GoString → Option GoString
  renamed none = some key
  renamed (some k) = some k

  module _ (p0 : PackageInfo) (ps : List PackageInfo) (is : gen ≡ p0 ∷ ps) where
    abbrev recorded : Index
    recorded = record idx { by_index_file = insert key (p0 ∷ ps) idx.by_index_file }

    from_old :
        (o : Option GoString) (p : PackageInfo)
        → Owned gen idx o p
        → Owned [] recorded (renamed o) p
    unfolding renamed
    from_old none p m = (
      p0 ∷ ps,
      ground (arith, lookup-insert key key (p0 ∷ ps) idx.by_index_file, str_eq_self key),
      rw is at m,
    )
    from_old (some k) p (g, e, m) = elim (Bool-cases (str_eq key k)) [
      | inl same ↦
          absurd (absent g p (ap (λ j. lookup j idx.by_index_file) ((eq_iff key k).0 same) ∙ e) m)
      | inr other ↦ (g, ground (arith, lookup-insert key k (p0 ∷ ps) idx.by_index_file), m)
    ]

    to_old :
        (o : Option GoString) (p : PackageInfo)
        → Owned [] recorded o p
        → (o' : Option GoString) × Owned gen idx o' p × (o ≡ renamed o')
    unfolding renamed
    to_old none p m = absurd m
    to_old (some k) p (g, e, m) = elim (inserted key k (p0 ∷ ps) g idx.by_index_file e) [
      | inl old ↦ (some k, (g, old, m), refl)
      | inr (same, all) ↦ (none, subst (Mem p) (sym all ∙ sym is) m, ap some (sym same))
    ]

    recorded-Indexed : Indexed [] recorded
    recorded-Indexed = record {
      hash = λ h p e. let ((o, k), a) = w.hash h p e in ((renamed o, from_old o p k), a);
      path = λ r f m p e g.
          let ((o, k), a, b) = w.path r f m p e g in ((renamed o, from_old o p k), a, b);
      base = λ b p m. let ((o, k), a, c) = w.base b p m in ((renamed o, from_old o p k), a, c);
      whole = λ p (o, k) named. let (o', k', e) = to_old o p k in w.whole p (o', k') named;
      fresh = λ p (o, k). let (o', k', e) = to_old o p k in w.fresh p (o', k');
      apart = λ o1 o2 p q k1 k2 same.
          let (a, ka, ea) = to_old o1 p k1 in
          let (b, kb, eb) = to_old o2 q k2 in
          let (owner, is_same) = w.apart a b p q ka kb same in
          (ea ∙ (ap renamed owner ∙ sym eb), is_same);
      once = w.once;
    }

  record_generation-Indexed : Indexed [] (record_generation key gen idx)
  unfolding record_generation
  record_generation-Indexed = go gen refl
    where
      go : (g : List PackageInfo) → gen ≡ g → Indexed [] (record_generation key gen idx)
      go [] e =
          let shape : record_generation key gen idx ≡ idx = ground arith in
          subst (Indexed []) (sym shape) (subst (λ g. Indexed g idx) e w)
      go (p ∷ ps) e =
          let shape : record_generation key gen idx ≡ recorded p ps e = ground arith in
          subst (Indexed []) (sym shape) (recorded-Indexed p ps e)

module _ (limit : ℕ) (repo key : GoString) (lines : List GoString) (idx : Index)
    (w : Indexed [] idx) where
  abbrev opened : Index
  opened = open_repo repo (clear_index_file key idx)

  opened-Indexed : Indexed [] opened
  opened-Indexed =
      open_repo-Indexed [] repo (clear_index_file key idx) (clear_index_file-Indexed key idx w)

  opened-gone :
      (files : Map (List PackageInfo))
      → files ≡ opened.by_index_file
      → (g : List PackageInfo) (p : PackageInfo) → lookup key files ≡ some g
      → Mem p g
      → ⊥
  unfolding open_repo
  opened-gone files e g p f m = clear_index_file-gone key idx g p (ap (lookup key) (sym e) ∙ f) m

  pub load_lines-Indexed : Indexed [] (load_lines limit repo key lines idx).0
  unfolding load_lines
  load_lines-Indexed =
      let done =
        finish_last-Done opened.by_index_file repo (read_lines limit repo lines start)
          (read_lines-Done opened.by_index_file repo limit lines start ready) in
      record_generation-Indexed key _ _ (opened-gone _ done.same) done.indexed
    where
      start : Loading
      start = record { index = opened; generation = []; current = none; count = 0 }

      ready : Reading opened.by_index_file repo start
      ready = record {
        indexed = opened-Indexed;
        same = refl;
        below = λ p e. absurd (ground arith);
        unused = λ p e. absurd (ground arith);
      }

  pub load_source_lines-Indexed : Indexed [] (load_source_lines limit repo key lines idx).0
  unfolding load_source_lines
  load_source_lines-Indexed =
      let kept =
        emit_last-Keeps opened.by_index_file limit repo (read_source_lines limit repo lines start) (
          read_source_lines-Keeps opened.by_index_file limit repo lines start
            (record { indexed = opened-Indexed; same = refl })) in
      record_generation-Indexed key _ _ (opened-gone _ kept.same) kept.indexed
    where
      start : Stanza
      start = record {
        index = opened;
        generation = [];
        count = 0;
        src_name = [];
        directory = [];
        files = [];
        in_checksums = false;
      }
