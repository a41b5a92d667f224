-- ===== src/Index/Forget.antt =====
-- internal/index/index.go: what `clearIndexFileLocked` leaves of each map.
use debswarm.Prelude.{
  ◌≡◌, ◌≢◌, refl, sym, ap, ◌∙◌, some, true, not, List, [], ◌∷◌, GoString, inl, inr,
}
use debswarm.Prelude.Assoc.{Map, lookup, Distinct}
use debswarm.Prelude.Strings.{base_name}
use debswarm.Index.{PackageInfo, Index, or_empty, is_among, forget_hash, forget}
use debswarm.Index.Members.{Mem}
use debswarm.Index.Rounds.{
  delete_own-left, forget_path-Distinct, forget_path-left, keep_basename-Mem, keep_basename_kept,
}

abbrev pub at_base : GoString → Index → List PackageInfo
at_base b idx = or_empty (lookup b idx.by_basename)

-- The packages of the list are gone from the map of hashes, and no other entry is new.

pub forget-hash :
    (old ps : List PackageInfo) (idx : Index) (h : GoString) (q : PackageInfo)
    → lookup h (forget old ps idx).packages ≡ some q
    → (lookup h idx.packages ≡ some q) × ((p : PackageInfo) → Mem p ps → p.sha256 ≡ h → p.id ≢ q.id)
unfolding forget forget_hash
forget-hash old [] idx h q e = (e, λ p m. absurd m)
forget-hash old (r ∷ ps) idx h q e =
    let (there, others) = forget-hash old ps _ h q e in
    let (before, other) = delete_own-left r.sha256 h r q idx.packages there in
    (
      before,
      λ p m same. elim m [
        | inl first ↦ λ k.
            other (sym (ap (λ (x : PackageInfo). x.sha256) first) ∙ same)
              (sym (ap (λ (x : PackageInfo). x.id) first) ∙ k)
        | inr later ↦ others p later same
      ],
    )

pub forget-path :
    (old ps : List PackageInfo) (idx : Index) (r f : GoString) (m : Map PackageInfo)
    (q : PackageInfo)
    → lookup r (forget old ps idx).by_repo ≡ some m
    → lookup f m ≡ some q
    → (m0 : Map PackageInfo) × (lookup r idx.by_repo ≡ some m0)
      × (lookup f m0 ≡ some q)
      × ((p : PackageInfo) → Mem p ps → p.repo ≡ r → p.filename ≡ f → p.id ≢ q.id)
unfolding forget
forget-path old [] idx r f m q e g = (m, e, g, λ p k. absurd k)
forget-path old (x ∷ ps) idx r f m q e g =
    let (m1, e1, g1, others) = forget-path old ps _ r f m q e g in
    let (m0, e0, g0, other) = forget_path-left x q idx.by_repo r f m1 e1 g1 in
    (
      m0,
      e0,
      g0,
      λ p k a b. elim k [
        | inl first ↦ λ c.
            other (sym (ap (λ (y : PackageInfo). y.repo) first) ∙ a)
              (sym (ap (λ (y : PackageInfo). y.filename) first) ∙ b)
              (sym (ap (λ (y : PackageInfo). y.id) first) ∙ c)
        | inr later ↦ others p later a b
      ],
    )

pub forget-base :
    (old ps : List PackageInfo) (idx : Index) (b : GoString) (q : PackageInfo)
    → Mem q (at_base b (forget old ps idx))
    → Mem q (at_base b idx)
      × ((p : PackageInfo)
          → Mem p ps
          → p.filename ≢ []
          → base_name p.filename ≡ b
          → not (is_among old q) ≡ true)
unfolding forget
forget-base old [] idx b q e = (e, λ p m. absurd m)
forget-base old (r ∷ ps) idx b q e =
    let (there, others) = forget-base old ps _ b q e in
    let (before, other) =
      keep_basename-Mem (λ x. not (is_among old x)) r.filename b q idx.by_basename there in
    (
      before,
      λ p m named same. elim m [
        | inl first ↦
            let name = ap (λ (x : PackageInfo). x.filename) first in
            other (λ k. named (name ∙ k)) (sym (ap base_name name) ∙ same)
        | inr later ↦ others p later named same
      ],
    )

pub forget-base_kept :
    (old ps : List PackageInfo) (idx : Index) (b : GoString) (q : PackageInfo)
    → Mem q (at_base b idx)
    → not (is_among old q) ≡ true
    → Mem q (at_base b (forget old ps idx))
unfolding forget
forget-base_kept old [] idx b q m k = m
forget-base_kept old (r ∷ ps) idx b q m k =
    forget-base_kept old ps _ b q
      (keep_basename_kept (λ x. not (is_among old x)) r.filename b q idx.by_basename m k) k

pub forget-rest :
    (old ps : List PackageInfo) (idx : Index)
    → ((forget old ps idx).next ≡ idx.next)
      × ((forget old ps idx).by_index_file ≡ idx.by_index_file)
unfolding forget
forget-rest old [] idx = (refl, refl)
forget-rest old (p ∷ ps) idx = forget-rest old ps _

pub forget-Distinct :
    (old ps : List PackageInfo) (idx : Index)
    → Distinct idx.by_repo
    → Distinct (forget old ps idx).by_repo
unfolding forget
forget-Distinct old [] idx d = d
forget-Distinct old (p ∷ ps) idx d = forget-Distinct old ps _ (forget_path-Distinct p idx.by_repo d)
