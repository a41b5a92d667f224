-- ===== src/Index/Indexed.antt =====
-- internal/index: what the maps of the index say of the index files that are loaded.
use debswarm.Prelude.{
  ◌≡◌, ◌≢◌, ◌<◌, refl, sym, ap, ◌∙◌, Option, none, some, Bool, true, false, not, List, [], ◌∷◌,
  arith, GoString, str_eq, eq_iff, Bool-cases, inl, inr,
}
use mathlib.Core.Option.{some-injective}
use debswarm.Prelude.Assoc.{Map, lookup, delete, lookup-delete, Distinct}
use debswarm.Prelude.Strings.{base_name}
use debswarm.Index.{PackageInfo, Index, is_among, forget, clear_index_file}
use debswarm.Index.Members.{Mem, is_among_iff}
use debswarm.Index.Forget.{
  at_base, forget-hash, forget-path, forget-base, forget-base_kept, forget-rest, forget-Distinct,
}

-- Who a package comes from: a file that is loaded, or the one that is being read.
abbrev pub Owned : List PackageInfo → Index → Option GoString → PackageInfo → Type 0
Owned pending idx none p = Mem p pending
Owned pending idx (some key) p =
    (gen : List PackageInfo) × (lookup key idx.by_index_file ≡ some gen) × Mem p gen

abbrev pub Live : List PackageInfo → Index → PackageInfo → Type 0
Live pending idx p = (o : Option GoString) × Owned pending idx o p

-- The entries of the maps are packages of the files, under their own keys; the lists of base names
-- have all of these that have a file name; a number belongs to one package of one file; and the map
-- of the repositories holds a key once.
pub record Indexed (pending : List PackageInfo) (idx : Index) : Type 0 where
  pub hash :
      (h : GoString) (p : PackageInfo)
      → lookup h idx.packages ≡ some p
      → Live pending idx p × (p.sha256 ≡ h)
  pub path :
      (r f : GoString) (m : Map PackageInfo) (p : PackageInfo)
      → lookup r idx.by_repo ≡ some m
      → lookup f m ≡ some p
      → Live pending idx p × (p.repo ≡ r) × (p.filename ≡ f)
  pub base :
      (b : GoString) (p : PackageInfo)
      → Mem p (at_base b idx)
      → Live pending idx p × (p.filename ≢ []) × (base_name p.filename ≡ b)
  pub whole :
      (p : PackageInfo)
      → Live pending idx p
      → p.filename ≢ []
      → Mem p (at_base (base_name p.filename) idx)
  pub fresh : (p : PackageInfo) → Live pending idx p → p.id < idx.next
  pub apart :
      (o o' : Option GoString) (p q : PackageInfo)
      → Owned pending idx o p
      → Owned pending idx o' q
      → p.id ≡ q.id
      → (o ≡ o') × (p ≡ q)
  pub once : Distinct idx.by_repo

-- The files of an index that lost one of them.
delete-Owned :
    (key : GoString) (idx idx' : Index) (o : Option GoString) (p : PackageInfo)
    → idx'.by_index_file ≡ delete key idx.by_index_file
    → Owned [] idx' o p
    → Owned [] idx o p × (o ≢ some key)
delete-Owned key idx idx' none p e m = absurd m
delete-Owned key idx idx' (some k) p e (gen, f, m) =
    let left : lookup k (delete key idx.by_index_file) ≡ some gen = ap (lookup k) (sym e) ∙ f in
    (
      (gen, ground (arith, lookup-delete key k idx.by_index_file), m),
      λ same.
          ground
            (arith, lookup-delete key k idx.by_index_file, eq_iff key k, some-injective k key same),
    )

other-Owned :
    (key : GoString) (idx idx' : Index) (o : Option GoString) (p : PackageInfo)
    → idx'.by_index_file ≡ delete key idx.by_index_file
    → o ≢ some key
    → Owned [] idx o p
    → Owned [] idx' o p
other-Owned key idx idx' none p e ne m = absurd m
other-Owned key idx idx' (some k) p e ne (gen, f, m) =
    let other : str_eq key k ≡ false = elim (Bool-cases (str_eq key k)) [
      | inl same ↦ absurd (ne (ap some (sym ((eq_iff key k).0 same))))
      | inr other ↦ other
    ] in
    (gen, ap (lookup k) e ∙ ground (arith, lookup-delete key k idx.by_index_file), m)

negated : (b : Bool) → not b ≡ true → b ≢ true
negated true e = λ f. cc
negated false e = λ f. cc

forgotten-Indexed :
    (key : GoString) (gen : List PackageInfo) (idx idx' : Index)
    → lookup key idx.by_index_file ≡ some gen
    → idx'.packages ≡ (forget gen gen idx).packages
    → idx'.by_repo ≡ (forget gen gen idx).by_repo
    → idx'.by_basename ≡ (forget gen gen idx).by_basename
    → idx'.next ≡ idx.next
    → idx'.by_index_file ≡ delete key idx.by_index_file
    → Indexed [] idx
    → Indexed [] idx'
forgotten-Indexed key gen idx idx' here pk pr pb pn pf w = record {
  hash = λ h p e.
      let (there, others) = forget-hash gen gen idx h p (ap (lookup h) (sym pk) ∙ e) in
      let (live, same) = w.hash h p there in (still p live (λ m. others p m same refl), same);
  path = λ r f m p e g.
      let (m0, e0, g0, others) = forget-path gen gen idx r f m p (ap (lookup r) (sym pr) ∙ e) g in
      let (live, in_repo, named) = w.path r f m0 p e0 g0 in
      (still p live (λ k. others p k in_repo named refl), in_repo, named);
  base = λ b p m.
      let (there, others) = forget-base gen gen idx b p (at_old b p m) in
      let (live, named, at) = w.base b p there in
      (
        still p live
            (λ k. negated (is_among gen p) (others p k named at) ((is_among_iff gen p).1 p k refl)),
        named,
        at,
      );
  whole = λ p (o, own) named.
      let (before, ne) = delete-Owned key idx idx' o p pf own in
      let left = w.whole p (o, before) named in
      at_new (base_name p.filename) p
        (forget-base_kept gen gen idx (base_name p.filename) p left (unmarked o p before ne));
  fresh = λ p (o, own). rw pn (w.fresh p (o, (delete-Owned key idx idx' o p pf own).0));
  apart = λ o o' p q own own' same.
      w.apart o o' p q (delete-Owned key idx idx' o p pf own).0
        (delete-Owned key idx idx' o' q pf own').0 same;
  once = rw pr (forget-Distinct gen gen idx w.once);
}
  where
    unmarked :
        (o : Option GoString) (p : PackageInfo)
        → Owned [] idx o p
        → o ≢ some key
        → not (is_among gen p) ≡ true
    unmarked o p own ne = elim (Bool-cases (is_among gen p)) [
      | inr e ↦ rw e refl
      | inl e ↦
          let (q, m, same) = (is_among_iff gen p).0 e in
          absurd (ne (w.apart o (some key) p q own (gen, here, m) (sym same)).0)
    ]

    still : (p : PackageInfo) → Live [] idx p → (Mem p gen → ⊥) → Live [] idx' p
    still p (none, own) out = absurd own
    still p (some k, (g, f, m)) out = elim (Bool-cases (str_eq key k)) [
      | inl same ↦
          let at_key = ap (λ j. lookup j idx.by_index_file) ((eq_iff key k).0 same) in
          let all : gen ≡ g = some-injective gen g (sym here ∙ (at_key ∙ f)) in
          absurd (out (rw all m))
      | inr other ↦ (
        some k,
        other-Owned key idx idx' (some k) p pf
            (λ e. ground (arith, eq_iff key k, some-injective k key e)) (g, f, m),
      )
    ]

    at_old :
        (b : GoString) (p : PackageInfo)
        → Mem p (at_base b idx')
        → Mem p (at_base b (forget gen gen idx))
    at_old b p m = rw pb at m

    at_new :
        (b : GoString) (p : PackageInfo)
        → Mem p (at_base b (forget gen gen idx))
        → Mem p (at_base b idx')
    at_new b p m = rw pb m

pub clear_index_file-Indexed :
    (key : GoString) (idx : Index) → Indexed [] idx → Indexed [] (clear_index_file key idx)
unfolding clear_index_file
clear_index_file-Indexed key idx w = go (lookup key idx.by_index_file) refl
  where
    go :
        (gen : Option (List PackageInfo))
        → lookup key idx.by_index_file ≡ gen
        → Indexed [] (clear_index_file key idx)
    go none e = rw (e, clear_index_file) w
    go (some []) e = rw (e, clear_index_file) w
    go (some (p ∷ ps)) e =
        rw (e, clear_index_file)
          (forgotten-Indexed key (p ∷ ps) idx _ e refl refl refl
            (forget-rest (p ∷ ps) (p ∷ ps) idx).0
            (ap (delete key) (forget-rest (p ∷ ps) (p ∷ ps) idx).1) w)
