-- ===== src/Index/Members.antt =====
-- internal/index: the packages of a list, and those that a clearing marks.
use debswarm.Prelude.{
  ◌≡◌, ◌==◌, refl, sym, ap, ◌∙◌, Bool, true, List, [], ◌∷◌, ◌++◌, select, arith, Bool-cases, inl,
  inr, ◌⊎◌,
}
use debswarm.Index.{PackageInfo, is_among}

abbrev pub Mem : PackageInfo → List PackageInfo → Type 0
Mem p [] = ⊥
Mem p (q ∷ qs) = (p ≡ q) ⊎ Mem p qs

pub Mem-append :
    (p : PackageInfo) (ps qs : List PackageInfo) → Mem p (ps ++ qs) → Mem p ps ⊎ Mem p qs
Mem-append p [] qs m = inr m
Mem-append p (r ∷ ps) qs (inl e) = inl (inl e)
Mem-append p (r ∷ ps) qs (inr m) = elim (Mem-append p ps qs m) [
  | inl k ↦ inl (inr k)
  | inr k ↦ inr k
]

pub Mem_left : (p : PackageInfo) (ps qs : List PackageInfo) → Mem p ps → Mem p (ps ++ qs)
Mem_left p [] qs m = absurd m
Mem_left p (r ∷ ps) qs (inl e) = inl e
Mem_left p (r ∷ ps) qs (inr m) = inr (Mem_left p ps qs m)

pub Mem_last : (p : PackageInfo) (ps : List PackageInfo) → Mem p (ps ++ p ∷ [])
Mem_last p [] = inl refl
Mem_last p (r ∷ ps) = inr (Mem_last p ps)

pub Mem-select :
    (k : PackageInfo → Bool) (p : PackageInfo) (ps : List PackageInfo)
    → Mem p (select k ps)
    → Mem p ps × (k p ≡ true)
Mem-select k p [] m = absurd m
Mem-select k p (q ∷ ps) m = elim (Bool-cases (k q)) [
  | inl e ↦
      let first : (p ≡ q) ⊎ Mem p (select k ps) = rw e at m in
      elim first [
        | inl same ↦ (inl same, ap k same ∙ e)
        | inr later ↦ let (there, kept) = Mem-select k p ps later in (inr there, kept)
      ]
  | inr e ↦ let (there, kept) = Mem-select k p ps (rw e at m) in (inr there, kept)
]

pub Mem_kept :
    (k : PackageInfo → Bool) (p : PackageInfo) (ps : List PackageInfo)
    → Mem p ps
    → k p ≡ true
    → Mem p (select k ps)
Mem_kept k p [] m e = absurd m
Mem_kept k p (q ∷ ps) (inl same) e =
    let here : k q ≡ true = sym (ap k same) ∙ e in rw here (inl same)
Mem_kept k p (q ∷ ps) (inr m) e = elim (Bool-cases (k q)) [
  | inl f ↦ rw f (inr (Mem_kept k p ps m e))
  | inr f ↦ rw f (Mem_kept k p ps m e)
]

pub is_among_iff :
    (ps : List PackageInfo) (q : PackageInfo)
    → ((is_among ps q ≡ true) → (p : PackageInfo) × Mem p ps × (p.id ≡ q.id))
      × ((p : PackageInfo) → Mem p ps → p.id ≡ q.id → is_among ps q ≡ true)
is_among_iff [] q = (λ e. cc, λ p m e. absurd m)
is_among_iff (r ∷ ps) q =
    let (found, found_back) = is_among_iff ps q in
    (
      λ e. elim (Bool-cases (r.id == q.id)) [
        | inl f ↦ (r, inl refl, ground arith)
        | inr f ↦ let (p, m, same) = found (ground arith) in (p, inr m, same)
      ],
      λ p m e. elim m [
        | inl same ↦ ground (arith, ap (λ (x : PackageInfo). x.id) same)
        | inr later ↦ ground (arith, found_back p later e)
      ],
    )

-- An entry that is left was there, and is not the package.
