-- ===== src/Release/Lines.antt =====
-- internal/release/release.go: the lines of a Release file that was written line by line, and the
-- words of an entry.
use debswarm.Prelude.{
  ℕ, ◌≡◌, ◌≢◌, refl, ap, ◌∙◌, Bool, true, false, not, ◌&&◌, ◌||◌, List, [], ◌∷◌, ◌++◌, leb, arith,
  length, All, GoString,
}
use debswarm.Prelude.Strings.{split, fields, is_space, has_byte}
use debswarm.Prelude.Strings.Laws.{split-append, split_whole}
use debswarm.Release.{lines_of, drop_cr, too_long, max_release_size}

-- Each line with a newline behind it.
unfoldable pub unlines : List GoString → GoString
unlines [] = []
unlines (l ∷ ls) = l ++ (10 ∷ unlines ls)

-- A line that holds neither a newline nor a carriage return.
abbrev pub IsLine : GoString → Type 0
IsLine l = (has_byte 10 l ≡ false) × (has_byte 13 l ≡ false)

drop_cr_none : (l : GoString) → has_byte 13 l ≡ false → drop_cr l ≡ l
unfolding has_byte
drop_cr_none [] e = refl
drop_cr_none (a ∷ []) e = ground arith
drop_cr_none (a ∷ b ∷ l) e = ground (arith, drop_cr_none (b ∷ l))

split-unlines :
    (l : GoString) (ls : List GoString)
    → has_byte 10 l ≡ false
    → split 10 (unlines (l ∷ ls)) ≡ l ∷ split 10 (unlines ls)
unfolding unlines
split-unlines l ls e = split-append 10 l (unlines ls) ∙ (rw (split_whole 10 l e) refl)

pub lines_of-unlines : (ls : List GoString) → All IsLine ls → lines_of (split 10 (unlines ls)) ≡ ls
lines_of-unlines [] h = unfold split unlines in refl
lines_of-unlines (l ∷ []) h =
    rw (split-unlines l [] h.0.0) (unfold split unlines in ap (λ k. k ∷ []) (drop_cr_none l h.0.1))
lines_of-unlines (l ∷ m ∷ ls) h =
    let rest = lines_of-unlines (m ∷ ls) h.1 in
    let cut_there = split-unlines m ls h.1.0.0 in
    rw (split-unlines l (m ∷ ls) h.0.0, cut_there)
      (rw (drop_cr_none l h.0.1) (ap (λ k. l ∷ k) (rw cut_there at rest)))

pub too_long-unlines :
    (ls : List GoString) → All IsLine ls → too_long (split 10 (unlines ls)) ≡ too_long ls
too_long-unlines [] h = unfold split unlines in refl
too_long-unlines (l ∷ ls) h =
    rw (split-unlines l ls h.0.0)
      (ap (λ b. leb max_release_size (length l) || b) (too_long-unlines ls h.1))

-- Words hold no white space.
abbrev pub no_space : GoString → Bool
no_space [] = true
no_space (a ∷ s) = not (is_space a) && no_space s

abbrev pub IsWord : GoString → Type 0
IsWord w = (w ≢ []) × (no_space w ≡ true)

pub fields_one : (w : GoString) → IsWord w → fields w ≡ w ∷ []
unfolding fields
fields_one [] h = absurd (h.0 refl)
fields_one (a ∷ []) h = ground arith
fields_one (a ∷ b ∷ w) h = ground (arith, fields_one (b ∷ w))

pub fields_more : (w s : GoString) → IsWord w → fields (w ++ (32 ∷ s)) ≡ w ∷ fields s
unfolding fields
fields_more [] s h = absurd (h.0 refl)
fields_more (a ∷ []) s h = ground arith
fields_more (a ∷ b ∷ w) s h = ground (arith, fields_more (b ∷ w) s)

pub fields_blank : (s : GoString) → fields (32 ∷ s) ≡ fields s
unfolding fields
fields_blank s = refl

-- A word holds no byte that is white space.
pub word-has_byte :
    (c : ℕ) (w : GoString) → is_space c ≡ true → no_space w ≡ true → has_byte c w ≡ false
unfolding has_byte
word-has_byte c [] e h = refl
word-has_byte c (a ∷ w) e h = ground (arith, word-has_byte c w e)
