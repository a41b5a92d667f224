-- ===== src/Prelude/Strings/Laws.antt =====
-- The laws of the functions on byte strings.
use Prim.Native.Nat.{ℕ, suc, ◌≤◌}
use mathlib.Core.Path.{◌≡◌, refl, sym, ap, ◌∙◌}
use mathlib.Core.Logic.{◌≢◌, ◌⊎◌, inl, inr}
use mathlib.Core.Bool.{false, ◌||◌}
use mathlib.Core.List.{List, [], ◌∷◌, ◌++◌, map}
use mathlib.Core.Option.{none, some}
use mathlib.Core.List.{append_assoc}
use native.Mathlib.Omega.{arith}
use debswarm.Prelude.Tests.{◌==◌, Bool-cases, Option-cases}
use debswarm.Prelude.Lists.{length, length-append}
use debswarm.Prelude.Text.{GoString, str_eq, str_eq_self, eq_iff}
use debswarm.Prelude.Strings.{
  take, split, join, cut, cut_prefix, cut_suffix, after_last, trim_right_byte, has_byte, grow_first,
}

-- Joining what was split gives the string back.
pub join-grow_first :
    (c a : ℕ) (ps : List GoString) → ps ≢ [] → join c (grow_first a ps) ≡ a ∷ join c ps
unfolding join
join-grow_first c a [] e = absurd (e refl)
join-grow_first c a (p ∷ []) e = refl
join-grow_first c a (p ∷ q ∷ ps) e = refl

pub split-ne-nil : (c : ℕ) (s : GoString) → split c s ≢ []
unfolding split
split-ne-nil c [] e = cc
split-ne-nil c (a ∷ s) e = ground (arith, split-ne-nil c s)

pub join-cons : (c : ℕ) (ps : List GoString) → ps ≢ [] → join c ([] ∷ ps) ≡ c ∷ join c ps
unfolding join
join-cons c [] e = absurd (e refl)
join-cons c (p ∷ ps) e = refl

pub join-split : (c : ℕ) (s : GoString) → join c (split c s) ≡ s
unfolding split
join-split c [] = unfold join in refl
join-split c (a ∷ s) = elim (Bool-cases (a == c)) [
  | inl e ↦
      let same : a ≡ c = ground arith in
      rw e (join-cons c (split c s) (split-ne-nil c s) ∙ (rw (join-split c s, same) refl))
  | inr e ↦ rw e (join-grow_first c a (split c s) (split-ne-nil c s) ∙ (rw (join-split c s) refl))
]

-- A separator cuts the list of parts.
pub grow_first-append :
    (a : ℕ) (ps qs : List GoString) → ps ≢ [] → grow_first a (ps ++ qs) ≡ grow_first a ps ++ qs
grow_first-append a [] qs e = absurd (e refl)
grow_first-append a (p ∷ ps) qs e = refl

pub split-append : (c : ℕ) (s t : GoString) → split c (s ++ c ∷ t) ≡ split c s ++ split c t
unfolding split
split-append c [] t = ground arith
split-append c (a ∷ s) t = elim (Bool-cases (a == c)) [
  | inl e ↦ rw e (rw (split-append c s t) refl)
  | inr e ↦
      rw e
        (rw (split-append c s t) (grow_first-append a (split c s) (split c t) (split-ne-nil c s)))
]

pub split_whole : (c : ℕ) (s : GoString) → has_byte c s ≡ false → split c s ≡ s ∷ []
unfolding split has_byte
split_whole c [] e = refl
split_whole c (a ∷ s) e = ground (arith, split_whole c s)

pub has_byte-append : (c : ℕ) (s t : GoString) → has_byte c (s ++ t) ≡ has_byte c s || has_byte c t
unfolding has_byte
has_byte-append c [] t = refl
has_byte-append c (a ∷ s) t = ground (arith, has_byte-append c s t)

pub after_last_whole : (c : ℕ) (s : GoString) → has_byte c s ≡ false → after_last c s ≡ s
unfolding after_last has_byte
after_last_whole c [] e = refl
after_last_whole c (a ∷ s) e = ground arith

pub after_last-append :
    (c : ℕ) (s t : GoString) → has_byte c t ≡ false → after_last c (s ++ c ∷ t) ≡ t
unfolding after_last has_byte
after_last-append c [] t e = ground arith
after_last-append c (a ∷ s) t e =
    ground (arith, after_last-append c s t e, has_byte-append c s (c ∷ t))

pub trim_right_byte_other :
    (c b : ℕ) (s : GoString) → b ≢ c → trim_right_byte c (s ++ b ∷ []) ≡ s ++ b ∷ []
unfolding trim_right_byte
trim_right_byte_other c b [] e = ground arith
trim_right_byte_other c b (a ∷ []) e = ground arith
trim_right_byte_other c b (a ∷ a' ∷ s) e = rw (trim_right_byte_other c b (a' ∷ s) e) refl

pub cut_suffix-append : (p s : GoString) → cut_suffix p (s ++ p) ≡ some s
unfolding cut_suffix
cut_suffix-append [] [] = unfold str_eq in refl
cut_suffix-append (a ∷ p) [] = rw (str_eq_self (a ∷ p)) refl
cut_suffix-append p (a ∷ s) = elim (Bool-cases (str_eq p (a ∷ (s ++ p)))) [
  | inl e ↦
      let longer = ap length ((eq_iff p (a ∷ (s ++ p))).0 e) in
      absurd (omega (arith, longer, length-append s p))
  | inr e ↦ rw e (rw (cut_suffix-append p s) refl)
]

pub length-map : (f : ℕ → ℕ) (s : GoString) → length (map f s) ≡ length s
length-map f [] = refl
length-map f (a ∷ s) = ap suc (length-map f s)

pub take-append : (s t : GoString) → take (length s) (s ++ t) ≡ s
take-append [] t = refl
take-append (a ∷ s) t = ap (λ u. a ∷ u) (take-append s t)

-- What `Cut` gives, put together, is the string,
pub cut_prefix_sound : (p s t : GoString) → cut_prefix p s ≡ some t → s ≡ p ++ t
unfolding cut_prefix
cut_prefix_sound [] s t e = ground arith
cut_prefix_sound (a ∷ p) [] t e = cc
cut_prefix_sound (a ∷ p) (b ∷ s) t e = ground (arith, cut_prefix_sound p s t)

pub cut_prefix-append : (p t : GoString) → cut_prefix p (p ++ t) ≡ some t
unfolding cut_prefix
cut_prefix-append [] t = refl
cut_prefix-append (a ∷ p) t = ground (arith, cut_prefix-append p t)

cut_prefix_short :
    (p u v w : GoString)
    → length p ≤ length u
    → cut_prefix p (u ++ v) ≡ none
    → cut_prefix p (u ++ w) ≡ none
unfolding cut_prefix
cut_prefix_short [] u v w l e = cc
cut_prefix_short (a ∷ p) [] v w l e = absurd (omega (arith, l))
cut_prefix_short (a ∷ p) (b ∷ u) v w l e = ground (arith, cut_prefix_short p u v w)

cut_here : (sep s t : GoString) → cut_prefix sep s ≡ some t → cut sep s ≡ some ([], t)
unfolding cut
cut_here sep [] t e = rw (e, cut) refl
cut_here sep (a ∷ s) t e = rw (e, cut) refl

cut_later :
    (sep : GoString) (a : ℕ) (s b t : GoString)
    → cut_prefix sep (a ∷ s) ≡ none
    → cut sep s ≡ some (b, t)
    → cut sep (a ∷ s) ≡ some (a ∷ b, t)
unfolding cut
cut_later sep a s b t e f = rw (e, f, cut) refl

pub cut_sound :
    (sep s before after : GoString)
    → cut sep s ≡ some (before, after)
    → s ≡ before ++ (sep ++ after)
unfolding cut
cut_sound sep [] before after e = go (Option-cases (cut_prefix sep []))
  where
    go :
        (cut_prefix sep [] ≡ none) ⊎ ((t : GoString) × (cut_prefix sep [] ≡ some t))
        → [] ≡ before ++ (sep ++ after)
    go (inl f) = absurd (ground arith)
    go (inr (t, f)) = ground (arith, cut_prefix_sound sep [] t f)
cut_sound sep (a ∷ s) before after e =
    go (Option-cases (cut_prefix sep (a ∷ s))) (Option-cases (cut sep s)) (cut_sound sep s)
  where
    go :
        (cut_prefix sep (a ∷ s) ≡ none) ⊎ ((t : GoString) × (cut_prefix sep (a ∷ s) ≡ some t))
        → (cut sep s ≡ none) ⊎ ((p : GoString × GoString) × (cut sep s ≡ some p))
        → ((b c : GoString) → cut sep s ≡ some (b, c) → s ≡ b ++ (sep ++ c))
        → a ∷ s ≡ before ++ (sep ++ after)
    go (inr (t, f)) q ih = ground (arith, cut_prefix_sound sep (a ∷ s) t f)
    go (inl f) (inl g) ih = absurd (ground arith)
    go (inl f) (inr ((b, c), g)) ih = ground (arith, ih b c g)

-- and the same place is found whatever stands behind it.
pub cut-stable :
    (sep s before after t : GoString)
    → cut sep s ≡ some (before, after)
    → cut sep (before ++ (sep ++ t)) ≡ some (before, t)
unfolding cut
cut-stable sep [] before after t e = go (Option-cases (cut_prefix sep []))
  where
    go :
        (cut_prefix sep [] ≡ none) ⊎ ((r : GoString) × (cut_prefix sep [] ≡ some r))
        → cut sep (before ++ (sep ++ t)) ≡ some (before, t)
    go (inl f) = absurd (ground arith)
    go (inr (r, f)) =
        let first : before ≡ [] = ground arith in
        rw first (cut_here sep (sep ++ t) t (cut_prefix-append sep t))
cut-stable sep (a ∷ s) before after t e =
    go (Option-cases (cut_prefix sep (a ∷ s))) (Option-cases (cut sep s))
      (λ b c g. cut-stable sep s b c t g)
  where
    go :
        (cut_prefix sep (a ∷ s) ≡ none) ⊎ ((r : GoString) × (cut_prefix sep (a ∷ s) ≡ some r))
        → (cut sep s ≡ none) ⊎ ((p : GoString × GoString) × (cut sep s ≡ some p))
        → ((b c : GoString) → cut sep s ≡ some (b, c) → cut sep (b ++ (sep ++ t)) ≡ some (b, t))
        → cut sep (before ++ (sep ++ t)) ≡ some (before, t)
    go (inr (r, f)) q ih =
        let first : before ≡ [] = ground arith in
        rw first (cut_here sep (sep ++ t) t (cut_prefix-append sep t))
    go (inl f) (inl g) ih = absurd (ground arith)
    go (inl f) (inr ((b, c), g)) ih =
        let whole : before ≡ a ∷ b = ground arith in
        let from : cut_prefix sep ((a ∷ (b ++ sep)) ++ c) ≡ none =
          ap (λ u. cut_prefix sep (a ∷ u)) (append_assoc b sep c ∙ sym (cut_sound sep s b c g))
          ∙ f in
        let none_here : cut_prefix sep (a ∷ (b ++ (sep ++ t))) ≡ none =
          ap (λ u. cut_prefix sep (a ∷ u)) (sym (append_assoc b sep t))
          ∙ cut_prefix_short sep (a ∷ (b ++ sep)) c t (omega (arith, length-append b sep)) from in
        rw whole (cut_later sep a (b ++ (sep ++ t)) b t none_here (ih b c g))
