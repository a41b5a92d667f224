-- ===== src/Cache/DebFilename/Parts.antt =====
-- internal/cache/parser.go: the parts of a file name that is built as Debian builds it.
use debswarm.Prelude.{
  ℕ, ◌≡◌, ◌≢◌, refl, sym, ap, ◌∙◌, Option, none, some, true, false, List, [], ◌∷◌, ◌++◌, map, arith,
  GoString, codes,
}
use mathlib.Core.Path.{subst}
use mathlib.Core.List.{append_assoc, map-append}
use debswarm.Prelude.Strings.{
  to_lower, split, join, cut_suffix, base_name, after_last, trim_right_byte, has_byte, lower_byte,
}
use debswarm.Prelude.Strings.Laws.{
  split-ne-nil, join-split, split-append, split_whole, has_byte-append, after_last_whole,
  after_last-append, trim_right_byte_other, cut_suffix-append, length-map, take-append,
}
use debswarm.Cache.DebFilename.{DebName, of_parts, parse, is_whole}

-- The last two parts are the version and the architecture.
of_parts-append :
    (p : GoString) (ps : List GoString) (version arch : GoString)
    → of_parts (p ∷ ps ++ version ∷ arch ∷ [])
      ≡ some (record { name = join b'_' (p ∷ ps); version = version; arch = arch })
unfolding of_parts join
of_parts-append p [] version arch = refl
of_parts-append p (q ∷ []) version arch = refl
of_parts-append p (q ∷ q' ∷ []) version arch = refl
of_parts-append p (q ∷ q' ∷ q'' ∷ ps) version arch =
    rw (of_parts-append q (q' ∷ q'' ∷ ps) version arch) refl

-- A file in a directory, or alone.
abbrev pub place : Option GoString → GoString → GoString
place none file = file
place (some directory) file = directory ++ b'/' ∷ file

abbrev pub stem : DebName → GoString
stem n = n.name ++ b'_' ∷ (n.version ++ b'_' ∷ n.arch)

is_whole_parts : (n : DebName) → n.name ≢ [] → n.version ≢ [] → n.arch ≢ [] → is_whole n ≡ true
is_whole_parts n a b c = ground arith

base_name-of :
    (s f : GoString)
    → s ≢ []
    → after_last b'/' (trim_right_byte b'/' s) ≡ f
    → f ≢ []
    → base_name s ≡ f
unfolding base_name
base_name-of [] f e g k = absurd (e refl)
base_name-of (a ∷ s) [] e g k = absurd (k refl)
base_name-of (a ∷ s) (b ∷ f) e g k = rw (g, base_name) refl

base_name-place :
    (directory : Option GoString) (s : GoString) (b : ℕ)
    → b ≢ b'/'
    → has_byte b'/' (s ++ b ∷ []) ≡ false
    → base_name (place directory (s ++ b ∷ [])) ≡ s ++ b ∷ []
base_name-place none s b e slash =
    base_name-of (s ++ b ∷ []) (s ++ b ∷ []) (not_empty s)
      (rw (trim_right_byte_other b'/' b s e) (after_last_whole b'/' (s ++ b ∷ []) slash))
      (not_empty s)
  where
    not_empty : (t : GoString) → t ++ b ∷ [] ≢ []
    not_empty [] f = cc
    not_empty (a ∷ t) f = cc
base_name-place (some directory) s b e slash =
    base_name-of (directory ++ b'/' ∷ (s ++ b ∷ [])) (s ++ b ∷ []) (begins directory)
      (ap (after_last b'/') (
          ap (trim_right_byte b'/') (sym (append_assoc directory (b'/' ∷ s) (b ∷ [])))
          ∙ trim_right_byte_other b'/' b (directory ++ b'/' ∷ s) e
          ∙ append_assoc directory (b'/' ∷ s) (b ∷ []))
        ∙ after_last-append b'/' directory (s ++ b ∷ []) slash)
      (not_empty s)
  where
    not_empty : (t : GoString) → t ++ b ∷ [] ≢ []
    not_empty [] f = cc
    not_empty (a ∷ t) f = cc

    begins : (t : GoString) → t ++ b'/' ∷ (s ++ b ∷ []) ≢ []
    begins [] f = cc
    begins (a ∷ t) f = cc

split-stem :
    (n : DebName)
    → has_byte b'_' n.version ≡ false
    → has_byte b'_' n.arch ≡ false
    → of_parts (split b'_' (stem n)) ≡ some n
split-stem n version arch =
    rw
      (
        split-append b'_' n.name (n.version ++ b'_' ∷ n.arch),
        split-append b'_' n.version n.arch,
        split_whole b'_' n.version version,
        split_whole b'_' n.arch arch,
      )
      (go (split b'_' n.name) refl)
  where
    go :
        (ps : List GoString)
        → split b'_' n.name ≡ ps
        → of_parts (split b'_' n.name ++ n.version ∷ n.arch ∷ []) ≡ some n
    go [] e = absurd (split-ne-nil b'_' n.name e)
    go (p ∷ ps) e =
        let whole : join b'_' (p ∷ ps) ≡ n.name = ap (join b'_') (sym e) ∙ join-split b'_' n.name in
        rw e (of_parts-append p ps n.version n.arch ∙ (rw whole refl))

-- The parts of a Debian file name come back, with or without a directory, if none is empty or has a
-- slash, and neither the version nor the architecture has an underscore; the name may have some.
pub parse-stem :
    (directory : Option GoString) (n : DebName)
    → n.name ≢ []
    → n.version ≢ []
    → n.arch ≢ []
    → has_byte b'/' (stem n) ≡ false
    → has_byte b'_' n.version ≡ false
    → has_byte b'_' n.arch ≡ false
    → parse (place directory (stem n ++ codes ".deb")) ≡ some n
unfolding parse
parse-stem directory n a b c slash version arch =
    rw (based, lowered, parse)
      (rw (based, length-map lower_byte (stem n), take-append (stem n) (codes ".deb"))
        (rw (split-stem n version arch, is_whole_parts n a b c) refl))
  where
    no_slash : has_byte b'/' (stem n ++ codes ".deb") ≡ false
    no_slash = rw (has_byte-append b'/' (stem n) (codes ".deb"), slash) (unfold has_byte in refl)

    shape : (stem n ++ codes ".de") ++ b'b' ∷ [] ≡ stem n ++ codes ".deb"
    shape = append_assoc (stem n) (codes ".de") (b'b' ∷ [])

    based : base_name (place directory (stem n ++ codes ".deb")) ≡ stem n ++ codes ".deb"
    based =
        subst (λ f. base_name (place directory f) ≡ f) shape
          (base_name-place directory (stem n ++ codes ".de") b'b' (omega arith) (rw shape no_slash))

    lowered :
        cut_suffix (codes ".deb") (to_lower (stem n ++ codes ".deb"))
        ≡ some (map lower_byte (stem n))
    lowered =
        unfold to_lower in
        ap (cut_suffix (codes ".deb")) (map-append lower_byte (stem n) (codes ".deb"))
        ∙ cut_suffix-append (codes ".deb") (map lower_byte (stem n))
