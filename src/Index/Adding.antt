-- ===== src/Index/Adding.antt =====
-- internal/index: a package that enters the maps, a repository that is opened, and a file that is
-- recorded.
use debswarm.Prelude.{
  ◌≡◌, ◌≢◌, refl, sym, ap, ◌∙◌, Option, none, some, List, [], ◌∷◌, ◌++◌, if◌then◌else◌, arith,
  GoString, str_eq, str_eq_self, eq_iff, Bool-cases, inl, inr, ◌⊎◌,
}
use mathlib.Core.Path.{subst}
use mathlib.Core.Option.{some-injective}
use debswarm.Prelude.Assoc.{Map, lookup, insert, lookup-insert, insert-Distinct}
use debswarm.Prelude.Strings.{base_name}
use debswarm.Index.{PackageInfo, Index, or_empty, add_package}
use debswarm.Index.Packages.{open_repo}
use debswarm.Index.Members.{Mem, Mem-append, Mem_left, Mem_last}
use debswarm.Index.Forget.{at_base}
use debswarm.Index.Indexed.{Owned, Indexed}
use debswarm.Index.Growth.{Enters, grown-Indexed}

-- An entry of a map after an insertion is the new one under its key, or an old one.
pub inserted :
    {V : Type 0} (k j : GoString) (v u : V) (m : Map V)
    → lookup j (insert k v m) ≡ some u
    → (lookup j m ≡ some u) ⊎ ((k ≡ j) × (v ≡ u))
inserted k j v u m e = elim (Bool-cases (str_eq k j)) [
  | inl same ↦ inr ((eq_iff k j).0 same, some-injective v u (ground (arith, lookup-insert k j v m)))
  | inr other ↦ inl (ground (arith, lookup-insert k j v m))
]

list_of :
    {V : Type 0} (k j : GoString) (v : List V) (m : Map (List V))
    → or_empty (lookup j (insert k v m)) ≡ (if str_eq k j then v else or_empty (lookup j m))
list_of k j v m = elim (Bool-cases (str_eq k j)) [
  | inl same ↦ ground (arith, lookup-insert k j v m)
  | inr other ↦ ground (arith, lookup-insert k j v m)
]

empty_or :
    (m? : Option (Map PackageInfo)) (f : GoString) (q : PackageInfo)
    → lookup f (or_empty m?) ≡ some q
    → (m : Map PackageInfo) × (m? ≡ some m) × (lookup f m ≡ some q)
unfolding lookup
empty_or none f q e = absurd (ground arith)
empty_or (some m) f q e = (m, refl, e)

pub add_package-Indexed :
    (pending : List PackageInfo) (idx : Index) (p : PackageInfo)
    → Enters pending idx p
    → Indexed pending idx
    → Indexed (pending ++ p ∷ []) (add_package p idx)
unfolding add_package
add_package-Indexed pending idx p enters w = go p.filename refl
  where
    hashes :
        (h : GoString) (q : PackageInfo)
        → lookup h (insert p.sha256 p idx.packages) ≡ some q
        → (lookup h idx.packages ≡ some q) ⊎ ((q ≡ p) × (p.sha256 ≡ h))
    hashes h q e = elim (inserted p.sha256 h p q idx.packages e) [
      | inl old ↦ inl old
      | inr (same, is) ↦ inr (sym is, same)
    ]

    paths :
        (name : GoString)
        → p.filename ≡ name
        → (r f : GoString) (m : Map PackageInfo) (q : PackageInfo)
        → lookup r
            (insert p.repo (insert name p (or_empty (lookup p.repo idx.by_repo))) idx.by_repo)
          ≡ some m
        → lookup f m ≡ some q
        → ((m0 : Map PackageInfo) × (lookup r idx.by_repo ≡ some m0) × (lookup f m0 ≡ some q))
          ⊎ ((q ≡ p) × (p.repo ≡ r) × (p.filename ≡ f))
    paths name is r f m q e g = elim (inserted p.repo r _ m idx.by_repo e) [
      | inl old ↦ inl (m, old, g)
      | inr (repo, maps) ↦
          elim (inserted name f p q (or_empty (lookup p.repo idx.by_repo))
            (ap (lookup f) maps ∙ g)) [
              | inl old ↦
                  let (m0, e0, g0) = empty_or (lookup p.repo idx.by_repo) f q old in
                  inl (m0, sym (ap (λ j. lookup j idx.by_repo) repo) ∙ e0, g0)
              | inr (named, one) ↦ inr (sym one, repo, is ∙ named)
            ]
    ]

    go : (name : GoString) → p.filename ≡ name → Indexed (pending ++ p ∷ []) (add_package p idx)
    go [] e =
        let shape : add_package p idx ≡ record idx { packages = insert p.sha256 p idx.packages } =
          ground arith in
        subst (Indexed (pending ++ p ∷ [])) (sym shape) (
          grown-Indexed pending idx p (record idx { packages = insert p.sha256 p idx.packages })
            refl refl hashes (λ r f m q a b. inl (m, a, b)) (λ b q m. inl m) (λ b q m. m)
            (λ named. absurd (named e)) (λ d. d) enters w)
    go (a ∷ s) e =
        let shape : add_package p idx ≡ whole = ground arith in
        subst (Indexed (pending ++ p ∷ [])) (sym shape) (
          grown-Indexed pending idx p whole refl refl hashes (paths (a ∷ s) e) lists lists_old
            lists_new
            (insert-Distinct p.repo (insert (a ∷ s) p (or_empty (lookup p.repo idx.by_repo)))
              idx.by_repo)
            enters w)
      where
        name : GoString
        name = base_name (a ∷ s)

        old : List PackageInfo
        old = or_empty (lookup name idx.by_basename)

        whole : Index
        whole = record idx {
          packages = insert p.sha256 p idx.packages;
          by_repo =
              insert p.repo (insert (a ∷ s) p (or_empty (lookup p.repo idx.by_repo))) idx.by_repo;
          by_basename = insert name (old ++ p ∷ []) idx.by_basename;
        }

        lists :
            (b : GoString) (q : PackageInfo)
            → Mem q (or_empty (lookup b (insert name (old ++ p ∷ []) idx.by_basename)))
            → Mem q (at_base b idx) ⊎ ((q ≡ p) × (p.filename ≢ []) × (base_name p.filename ≡ b))
        lists b q m = elim (Bool-cases (str_eq name b)) [
          | inl same ↦
              let all : Mem q (old ++ p ∷ []) =
                rw same at (rw (list_of name b (old ++ p ∷ []) idx.by_basename) at m) in
              elim (Mem-append q old (p ∷ []) all) [
                | inl before ↦ inl (rw ((eq_iff name b).0 same) at before)
                | inr (inl is) ↦ inr (is, λ f. cc, ap base_name e ∙ (eq_iff name b).0 same)
                | inr (inr none_left) ↦ absurd none_left
              ]
          | inr other ↦ inl (rw other at (rw (list_of name b (old ++ p ∷ []) idx.by_basename) at m))
        ]

        lists_old :
            (b : GoString) (q : PackageInfo)
            → Mem q (at_base b idx)
            → Mem q (or_empty (lookup b (insert name (old ++ p ∷ []) idx.by_basename)))
        lists_old b q m = elim (Bool-cases (str_eq name b)) [
          | inl same ↦
              rw (list_of name b (old ++ p ∷ []) idx.by_basename)
                (rw same (Mem_left q old (p ∷ []) (rw (sym ((eq_iff name b).0 same)) at m)))
          | inr other ↦ rw (list_of name b (old ++ p ∷ []) idx.by_basename) (rw other m)
        ]

        lists_new :
            p.filename ≢ []
            → Mem p (
                or_empty
                  (lookup (base_name p.filename) (insert name (old ++ p ∷ []) idx.by_basename)))
        lists_new named =
            subst
              (λ n.
                Mem p
                  (or_empty (lookup (base_name n) (insert name (old ++ p ∷ []) idx.by_basename))))
              (sym e)
              (rw (list_of name name (old ++ p ∷ []) idx.by_basename)
                (rw (str_eq_self name) (Mem_last p old)))

pub open_repo-Indexed :
    (pending : List PackageInfo) (repo : GoString) (idx : Index)
    → Indexed pending idx
    → Indexed pending (open_repo repo idx)
unfolding open_repo
open_repo-Indexed pending repo idx w = record {
  hash = λ h p e. let ((o, k), same) = w.hash h p e in ((o, moved o p k), same);
  path = λ r f m p e g.
      let (m0, e0, g0) = was r f m p e g in
      let ((o, k), a, b) = w.path r f m0 p e0 g0 in ((o, moved o p k), a, b);
  base = λ b p m. let ((o, k), a, c) = w.base b p m in ((o, moved o p k), a, c);
  whole = λ p (o, k) named. w.whole p (o, unmoved o p k) named;
  fresh = λ p (o, k). w.fresh p (o, unmoved o p k);
  apart = λ o o' p q k k' same. w.apart o o' p q (unmoved o p k) (unmoved o' q k') same;
  once = insert-Distinct repo (or_empty (lookup repo idx.by_repo)) idx.by_repo w.once;
}
  where
    was :
        (r f : GoString) (m : Map PackageInfo) (p : PackageInfo)
        → lookup r (open_repo repo idx).by_repo ≡ some m
        → lookup f m ≡ some p
        → (m0 : Map PackageInfo) × (lookup r idx.by_repo ≡ some m0) × (lookup f m0 ≡ some p)
    was r f m p e g = elim (inserted repo r (or_empty (lookup repo idx.by_repo)) m idx.by_repo e) [
      | inl old ↦ (m, old, g)
      | inr (same, is) ↦
          let (m0, e0, g0) = empty_or (lookup repo idx.by_repo) f p (ap (lookup f) is ∙ g) in
          (m0, sym (ap (λ j. lookup j idx.by_repo) same) ∙ e0, g0)
    ]

    moved :
        (o : Option GoString) (p : PackageInfo)
        → Owned pending idx o p
        → Owned pending (open_repo repo idx) o p
    moved none p k = k
    moved (some key) p k = k

    unmoved :
        (o : Option GoString) (p : PackageInfo)
        → Owned pending (open_repo repo idx) o p
        → Owned pending idx o p
    unmoved none p k = k
    unmoved (some key) p k = k
