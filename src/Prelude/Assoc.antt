-- ===== src/Prelude/Assoc.antt =====
-- Go maps with string keys, as association lists with the laws that hold of each operation.
use Prim.Native.Nat.{ℕ, ◌+◌}
use mathlib.Core.Path.{◌≡◌, refl}
use mathlib.Core.List.{List, [], ◌∷◌}
use mathlib.Core.Option.{Option, none, some}
use native.Mathlib.Omega.{arith}
use debswarm.Prelude.Text.{GoString, str_eq, eq_iff}
use debswarm.Prelude.Tests.{if◌then◌else◌}
use debswarm.Prelude.Lists.{sum_by}

abbrev pub Map {ℓ} : Type ℓ → Type ℓ
Map V = List (GoString × V)

module _ {ℓ} {V : Type ℓ} where
  unfoldable pub lookup : GoString → Map V → Option V
  lookup k [] = none
  lookup k ((j, v) ∷ m) = if str_eq j k then some v else lookup k m

  unfoldable pub delete : GoString → Map V → Map V
  delete k [] = []
  delete k ((j, v) ∷ m) = let rest = delete k m in if str_eq j k then rest else (j, v) ∷ rest

  unfoldable pub insert : GoString → V → Map V → Map V
  unfolding delete
  insert k v m = (k, v) ∷ delete k m

  -- A Go map holds a key once.
  abbrev pub Distinct : Map V → Type ℓ
  Distinct [] = Unit
  Distinct ((k, v) ∷ m) = (lookup k m ≡ none) × Distinct m

  -- What the entries weigh together.
  abbrev pub weigh : (V → ℕ) → Map V → ℕ
  weigh f = sum_by (λ e. f e.1)

  abbrev pub weigh? : (V → ℕ) → Option V → ℕ
  weigh? f none = 0
  weigh? f (some v) = f v

module _ {ℓ} {V : Type ℓ} where
  pub lookup-delete :
      (k j : GoString) (m : Map V)
      → lookup j (delete k m) ≡ (if str_eq k j then none else lookup j m)
  unfolding lookup delete
  lookup-delete k j [] = ground arith
  lookup-delete k j ((i, v) ∷ m) =
      ground (arith, eq_iff k j, eq_iff i k, eq_iff i j, lookup-delete k j m)

  pub lookup-insert :
      (k j : GoString) (v : V) (m : Map V)
      → lookup j (insert k v m) ≡ (if str_eq k j then some v else lookup j m)
  unfolding lookup insert
  lookup-insert k j v m = ground (arith, lookup-delete k j m)

  pub delete-Distinct : (k : GoString) (m : Map V) → Distinct m → Distinct (delete k m)
  unfolding delete
  delete-Distinct k [] d = tt
  delete-Distinct k ((i, v) ∷ m) d =
      ground (arith, lookup-delete k i m, eq_iff k i, eq_iff i k, delete-Distinct k m d.1)

  pub insert-Distinct : (k : GoString) (v : V) (m : Map V) → Distinct m → Distinct (insert k v m)
  unfolding insert
  insert-Distinct k v m d = (ground (arith, lookup-delete k k m, eq_iff k k), delete-Distinct k m d)

  delete_absent-weigh :
      (f : V → ℕ) (k : GoString) (m : Map V) → lookup k m ≡ none → weigh f (delete k m) ≡ weigh f m
  unfolding lookup delete
  delete_absent-weigh f k [] h = refl
  delete_absent-weigh f k ((i, v) ∷ m) h = ground (arith, delete_absent-weigh f k m)

  -- Taking an entry out takes out its weight.
  pub weigh-delete :
      (f : V → ℕ) (k : GoString) (m : Map V)
      → Distinct m
      → weigh f m ≡ weigh f (delete k m) + weigh? f (lookup k m)
  unfolding lookup delete
  weigh-delete f k [] d = omega arith
  weigh-delete f k ((i, v) ∷ m) d =
      ground (arith, eq_iff i k, weigh-delete f k m d.1, delete_absent-weigh f k m)

  pub weigh-insert :
      (f : V → ℕ) (k : GoString) (v : V) (m : Map V)
      → Distinct m
      → weigh f (insert k v m) + weigh? f (lookup k m) ≡ weigh f m + f v
  unfolding insert
  weigh-insert f k v m d = omega (arith, weigh-delete f k m d)
