-- ===== src/Prelude/Text.antt =====
-- Go strings are sequences of bytes: lists of numbers below 256, with Go's equality on them.
use Prim.Native.Char.{code}
use Prim.Native.Nat.{ℕ}
use Prim.Native.String.{String}
use mathlib.Core.Path.{◌≡◌, refl}
use mathlib.Core.Bool.{Bool, true, false, ◌&&◌}
use mathlib.Core.List.{List, [], ◌∷◌}
use mathlib.Core.Logic.{◌↔◌}
use native.Mathlib.Omega.{arith}
use debswarm.Prelude.Tests.{◌==◌}

abbrev pub GoString : Type 0
GoString = List ℕ

-- The bytes of an ASCII literal.
abbrev pub codes : String → GoString
codes String.[] = []
codes (String.◌∷◌ c s) = code c ∷ codes s

unfoldable pub str_eq : GoString → GoString → Bool
str_eq [] [] = true
str_eq (a ∷ s) (b ∷ t) = let rest = str_eq s t in a == b && rest
str_eq _ _ = false

str_eq_sound : (s t : GoString) → str_eq s t ≡ true → s ≡ t
unfolding str_eq
str_eq_sound [] [] h = refl
str_eq_sound [] (b ∷ t) h = cc
str_eq_sound (a ∷ s) [] h = cc
str_eq_sound (a ∷ s) (b ∷ t) h = ground (arith, str_eq_sound s t)

pub str_eq_self : (s : GoString) → str_eq s s ≡ true
unfolding str_eq
str_eq_self [] = refl
str_eq_self (a ∷ s) = ground (arith, str_eq_self s)

pub eq_iff : (s t : GoString) → (str_eq s t ≡ true) ↔ (s ≡ t)
eq_iff s t = (str_eq_sound s t, λ e. rw e (str_eq_self t))
