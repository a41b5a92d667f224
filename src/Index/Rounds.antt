-- ===== src/Index/Rounds.antt =====
-- internal/index/index.go: what one round of `clearIndexFileLocked` leaves of each map.
use debswarm.Prelude.{
  ℕ, ◌≡◌, ◌≢◌, refl, sym, ap, ◌∙◌, Option, none, some, Bool, true, false, List, [], ◌∷◌,
  if◌then◌else◌, select, arith, GoString, str_eq, eq_iff, Bool-cases, inl, inr, ◌⊎◌,
}
use debswarm.Prelude.Assoc.{
  Map, lookup, lookup-delete, lookup-insert, Distinct, delete-Distinct, insert-Distinct,
}
use debswarm.Prelude.Strings.{base_name}
use debswarm.Index.{PackageInfo, or_empty, delete_own, forget_path, keep_basename}
use debswarm.Index.Members.{Mem, Mem-select, Mem_kept}

pub delete_own-left :
    (k h : GoString) (p q : PackageInfo) (m : Map PackageInfo)
    → lookup h (delete_own k p m) ≡ some q
    → (lookup h m ≡ some q) × (k ≡ h → p.id ≢ q.id)
unfolding delete_own
delete_own-left k h p q m e = go (lookup k m) refl
  where
    go :
        (cur : Option PackageInfo)
        → lookup k m ≡ cur
        → (lookup h m ≡ some q) × (k ≡ h → p.id ≢ q.id)
    go none f = (ground arith, λ same g. ground (arith, ap (λ j. lookup j m) same))
    go (some cur) f = (
      ground (arith, lookup-delete k h m),
      λ same g. ground (arith, lookup-delete k h m, eq_iff k h, ap (λ j. lookup j m) same),
    )

pub forget_path-left :
    (p q : PackageInfo) (m : Map (Map PackageInfo)) (r f : GoString) (m' : Map PackageInfo)
    → lookup r (forget_path p m) ≡ some m'
    → lookup f m' ≡ some q
    → (m0 : Map PackageInfo) × (lookup r m ≡ some m0)
      × (lookup f m0 ≡ some q)
      × (p.repo ≡ r → p.filename ≡ f → p.id ≢ q.id)
unfolding forget_path
forget_path-left p q m r f m' e g = go (lookup p.repo m) refl (Bool-cases (str_eq p.repo r))
  where
    at :
        (paths left : Map PackageInfo)
        → lookup p.repo m ≡ some paths
        → delete_own p.filename p paths ≡ left
        → p.repo ≡ r
        → (m0 : Map PackageInfo) × (lookup r m ≡ some m0)
          × (lookup f m0 ≡ some q)
          × (p.repo ≡ r → p.filename ≡ f → p.id ≢ q.id)
    at paths [] h k same = absurd (ground (arith, lookup-delete p.repo r m, eq_iff p.repo r))
    at paths (x ∷ left) h k same =
        let inside : x ∷ left ≡ m' =
          ground (arith, lookup-insert p.repo r (x ∷ left) m, eq_iff p.repo r) in
        let (there, other) =
          delete_own-left p.filename f p q paths (ap (lookup f) (k ∙ inside) ∙ g) in
        (paths, sym (ap (λ j. lookup j m) same) ∙ h, there, λ a b. other b)

    apart :
        (paths left : Map PackageInfo)
        → lookup p.repo m ≡ some paths
        → delete_own p.filename p paths ≡ left
        → str_eq p.repo r ≡ false
        → lookup r m ≡ some m'
    apart paths [] h k other = ground (arith, lookup-delete p.repo r m)
    apart paths (x ∷ left) h k other = ground (arith, lookup-insert p.repo r (x ∷ left) m)

    go :
        (paths : Option (Map PackageInfo))
        → lookup p.repo m ≡ paths
        → ((str_eq p.repo r ≡ true) ⊎ (str_eq p.repo r ≡ false))
        → (m0 : Map PackageInfo) × (lookup r m ≡ some m0)
          × (lookup f m0 ≡ some q)
          × (p.repo ≡ r → p.filename ≡ f → p.id ≢ q.id)
    go none h c = (m', ground arith, g, λ a b d. ground (arith, ap (λ j. lookup j m) a))
    go (some paths) h (inl c) =
        at paths (delete_own p.filename p paths) h refl ((eq_iff p.repo r).0 c)
    go (some paths) h (inr c) = (
      m',
      apart paths (delete_own p.filename p paths) h refl c,
      g,
      λ a b d. ground (arith, eq_iff p.repo r),
    )

keep_basename-lookup :
    (k : PackageInfo → Bool) (a : ℕ) (s b : GoString) (m : Map (List PackageInfo))
    → or_empty (lookup b (keep_basename k (a ∷ s) m)) ≡ (
        if str_eq (base_name (a ∷ s)) b
        then select k (or_empty (lookup b m))
        else or_empty (lookup b m))
unfolding keep_basename
keep_basename-lookup k a s b m =
    go (or_empty (lookup (base_name (a ∷ s)) m)) refl
      (select k (or_empty (lookup (base_name (a ∷ s)) m))) refl
  where
    go :
        (ps : List PackageInfo)
        → or_empty (lookup (base_name (a ∷ s)) m) ≡ ps
        → (left : List PackageInfo) → select k (or_empty (lookup (base_name (a ∷ s)) m)) ≡ left
        → or_empty (lookup b (keep_basename k (a ∷ s) m)) ≡ (
            if str_eq (base_name (a ∷ s)) b
            then select k (or_empty (lookup b m))
            else or_empty (lookup b m))
    go [] e left f = ground (arith, eq_iff (base_name (a ∷ s)) b)
    go (p ∷ ps) e [] f =
        ground (arith, eq_iff (base_name (a ∷ s)) b, lookup-delete (base_name (a ∷ s)) b m)
    go (p ∷ ps) e (r ∷ left) f =
        ground
          (arith, eq_iff (base_name (a ∷ s)) b, lookup-insert (base_name (a ∷ s)) b (r ∷ left) m)

pub keep_basename-Mem :
    (k : PackageInfo → Bool) (filename b : GoString) (q : PackageInfo) (m : Map (List PackageInfo))
    → Mem q (or_empty (lookup b (keep_basename k filename m)))
    → Mem q (or_empty (lookup b m)) × (filename ≢ [] → base_name filename ≡ b → k q ≡ true)
unfolding keep_basename
keep_basename-Mem k [] b q m e = (e, λ f. absurd (f refl))
keep_basename-Mem k (a ∷ s) b q m e = elim (Bool-cases (str_eq (base_name (a ∷ s)) b)) [
  | inl same ↦
      let kept : Mem q (select k (or_empty (lookup b m))) =
        rw same at (rw (keep_basename-lookup k a s b m) at e) in
      let (there, yes_kept) = Mem-select k q (or_empty (lookup b m)) kept in
      (there, λ f g. yes_kept)
  | inr other ↦ (
    rw other at (rw (keep_basename-lookup k a s b m) at e),
    λ f g. ground (arith, eq_iff (base_name (a ∷ s)) b),
  )
]

pub keep_basename_kept :
    (k : PackageInfo → Bool) (filename b : GoString) (q : PackageInfo) (m : Map (List PackageInfo))
    → Mem q (or_empty (lookup b m))
    → k q ≡ true
    → Mem q (or_empty (lookup b (keep_basename k filename m)))
unfolding keep_basename
keep_basename_kept k [] b q m e kept = e
keep_basename_kept k (a ∷ s) b q m e kept = elim (Bool-cases (str_eq (base_name (a ∷ s)) b)) [
  | inl same ↦
      rw (keep_basename-lookup k a s b m) (rw same (Mem_kept k q (or_empty (lookup b m)) e kept))
  | inr other ↦ rw (keep_basename-lookup k a s b m) (rw other e)
]

pub forget_path-Distinct :
    (p : PackageInfo) (m : Map (Map PackageInfo)) → Distinct m → Distinct (forget_path p m)
unfolding forget_path
forget_path-Distinct p m d = go (lookup p.repo m) refl
  where
    kept :
        (paths : Map PackageInfo) (left : Map PackageInfo)
        → lookup p.repo m ≡ some paths
        → delete_own p.filename p paths ≡ left
        → Distinct (forget_path p m)
    kept paths [] e f = rw (e, f, forget_path) (delete-Distinct p.repo m d)
    kept paths (x ∷ xs) e f = rw (e, f, forget_path) (insert-Distinct p.repo (x ∷ xs) m d)

    go : (paths : Option (Map PackageInfo)) → lookup p.repo m ≡ paths → Distinct (forget_path p m)
    go none e = rw (e, forget_path) d
    go (some paths) e = kept paths (delete_own p.filename p paths) e refl
