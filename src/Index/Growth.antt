-- ===== src/Index/Growth.antt =====
-- internal/index: what the reading of a file adds to the index.
use debswarm.Prelude.{
  ◌+◌, ◌≡◌, ◌≢◌, ◌<◌, refl, sym, ap, ◌∙◌, Option, none, some, List, [], ◌∷◌, ◌++◌, arith, GoString,
  inl, inr, ◌⊎◌,
}
use debswarm.Prelude.Assoc.{Map, lookup, Distinct}
use debswarm.Prelude.Strings.{base_name}
use debswarm.Index.{PackageInfo, Index}
use debswarm.Index.Members.{Mem, Mem-append, Mem_left, Mem_last}
use debswarm.Index.Forget.{at_base}
use debswarm.Index.Indexed.{Owned, Live, Indexed}

-- A package that may enter: its number is in use for itself alone, in the file that is being read.
pub record Enters (pending : List PackageInfo) (idx : Index) (p : PackageInfo) : Type 0 where
  pub below : p.id < idx.next
  pub own :
      (o : Option GoString) (q : PackageInfo)
      → Owned pending idx o q
      → q.id ≡ p.id
      → (o ≡ none) × (q ≡ p)

pub fresh-Enters :
    (pending : List PackageInfo) (idx : Index) (p : PackageInfo)
    → Indexed pending idx
    → p.id ≡ idx.next
    → Enters pending (record idx { next = idx.next + 1 }) p
fresh-Enters pending idx p w e = record {
  below = omega (arith, e);
  own = λ o q k same. absurd (clash o q k same);
}
  where
    clash :
        (o : Option GoString) (q : PackageInfo)
        → Owned pending (record idx { next = idx.next + 1 }) o q
        → q.id ≡ p.id
        → ⊥
    clash none q k same = omega (arith, w.fresh q (none, k), e, same)
    clash (some key) q k same = omega (arith, w.fresh q (some key, k), e, same)

pub next-Indexed :
    (pending : List PackageInfo) (idx : Index)
    → Indexed pending idx
    → Indexed pending (record idx { next = idx.next + 1 })
next-Indexed pending idx w = record {
  hash = λ h p e. let ((o, k), same) = w.hash h p e in ((o, same_owner o p k), same);
  path = λ r f m p e g. let ((o, k), a, b') = w.path r f m p e g in ((o, same_owner o p k), a, b');
  base = λ b p m. let ((o, k), a, b') = w.base b p m in ((o, same_owner o p k), a, b');
  whole = λ p (o, k) named. w.whole p (o, old_owner o p k) named;
  fresh = λ p (o, k). omega (arith, w.fresh p (o, old_owner o p k));
  apart = λ o o' p q k k' same. w.apart o o' p q (old_owner o p k) (old_owner o' q k') same;
  once = w.once;
}
  where
    same_owner :
        (o : Option GoString) (p : PackageInfo)
        → Owned pending idx o p
        → Owned pending (record idx { next = idx.next + 1 }) o p
    same_owner none p k = k
    same_owner (some key) p k = k

    old_owner :
        (o : Option GoString) (p : PackageInfo)
        → Owned pending (record idx { next = idx.next + 1 }) o p
        → Owned pending idx o p
    old_owner none p k = k
    old_owner (some key) p k = k

module _ (pending : List PackageInfo) (idx : Index) (p : PackageInfo) where
  -- Another index with the same files has the owners of the old one, and the new package.
  module _ (idx' : Index) (files : idx'.by_index_file ≡ idx.by_index_file) where
    grown :
        (o : Option GoString) (q : PackageInfo)
        → Owned pending idx o q
        → Owned (pending ++ p ∷ []) idx' o q
    grown none q m = Mem_left q pending (p ∷ []) m
    grown (some key) q (gen, e, m) = (gen, ap (lookup key) files ∙ e, m)

    ungrown :
        (o : Option GoString) (q : PackageInfo)
        → Owned (pending ++ p ∷ []) idx' o q
        → Owned pending idx o q ⊎ ((o ≡ none) × (q ≡ p))
    ungrown none q m = elim (Mem-append q pending (p ∷ []) m) [
      | inl old ↦ inl old
      | inr (inl same) ↦ inr (refl, same)
      | inr (inr none_left) ↦ absurd none_left
    ]
    ungrown (some key) q (gen, e, m) = inl (gen, sym (ap (lookup key) files) ∙ e, m)

    pub grown-Indexed :
        idx'.next ≡ idx.next
        → ((h : GoString) (q : PackageInfo)
            → lookup h idx'.packages ≡ some q
            → (lookup h idx.packages ≡ some q) ⊎ ((q ≡ p) × (p.sha256 ≡ h)))
        → ((r f : GoString) (m : Map PackageInfo) (q : PackageInfo)
            → lookup r idx'.by_repo ≡ some m
            → lookup f m ≡ some q
            → ((m0 : Map PackageInfo) × (lookup r idx.by_repo ≡ some m0) × (lookup f m0 ≡ some q))
              ⊎ ((q ≡ p) × (p.repo ≡ r) × (p.filename ≡ f)))
        → ((b : GoString) (q : PackageInfo)
            → Mem q (at_base b idx')
            → Mem q (at_base b idx) ⊎ ((q ≡ p) × (p.filename ≢ []) × (base_name p.filename ≡ b)))
        → ((b : GoString) (q : PackageInfo) → Mem q (at_base b idx) → Mem q (at_base b idx'))
        → (p.filename ≢ [] → Mem p (at_base (base_name p.filename) idx'))
        → (Distinct idx.by_repo → Distinct idx'.by_repo)
        → Enters pending idx p
        → Indexed pending idx
        → Indexed (pending ++ p ∷ []) idx'
    grown-Indexed next hash path base base_old base_new once enters w = record {
      hash = λ h q e. elim (hash h q e) [
        | inl old ↦ let ((o, k), same) = w.hash h q old in ((o, grown o q k), same)
        | inr (same, at) ↦ (new_live q same, ap (λ (x : PackageInfo). x.sha256) same ∙ at)
      ];
      path = λ r f m q e g. elim (path r f m q e g) [
        | inl (m0, e0, g0) ↦
            let ((o, k), a, b') = w.path r f m0 q e0 g0 in ((o, grown o q k), a, b')
        | inr (same, in_repo, at) ↦ (
          new_live q same,
          ap (λ (x : PackageInfo). x.repo) same ∙ in_repo,
          ap (λ (x : PackageInfo). x.filename) same ∙ at,
        )
      ];
      base = λ b q m. elim (base b q m) [
        | inl old ↦ let ((o, k), a, b') = w.base b q old in ((o, grown o q k), a, b')
        | inr (same, named, at) ↦ (
          new_live q same,
          λ e. named (sym (ap (λ (x : PackageInfo). x.filename) same) ∙ e),
          ap (λ (x : PackageInfo). base_name x.filename) same ∙ at,
        )
      ];
      whole = λ q (o, k) named. elim (ungrown o q k) [
        | inl old ↦ base_old (base_name q.filename) q (w.whole q (o, old) named)
        | inr (at, same) ↦
            rw (sym same) at (base_new (λ e. named (ap (λ (x : PackageInfo). x.filename) same ∙ e)))
      ];
      fresh = λ q (o, k). rw next (elim (ungrown o q k) [
        | inl old ↦ w.fresh q (o, old)
        | inr (at, same) ↦ rw same enters.below
      ]);
      apart = λ o o' q r k k' same. elim (ungrown o q k) [
        | inl old ↦ elim (ungrown o' r k') [
          | inl old' ↦ w.apart o o' q r old old' same
          | inr (at', is) ↦
              let (a, b) = enters.own o q old (same ∙ ap (λ (x : PackageInfo). x.id) is) in
              (a ∙ sym at', b ∙ sym is)
        ]
        | inr (at, is) ↦ elim (ungrown o' r k') [
          | inl old' ↦
              let (a, b) = enters.own o' r old' (sym same ∙ ap (λ (x : PackageInfo). x.id) is) in
              (at ∙ sym a, is ∙ sym b)
          | inr (at', is') ↦ (at ∙ sym at', is ∙ sym is')
        ]
      ];
      once = once w.once;
    }
      where
        new_live : (q : PackageInfo) → q ≡ p → Live (pending ++ p ∷ []) idx' q
        new_live q same = (none, rw same (Mem_last p pending))
