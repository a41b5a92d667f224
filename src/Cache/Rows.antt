-- ===== src/Cache/Rows.antt =====
-- internal/cache/cache.go: what an UPDATE of one row, and the flush of the access records, do to the
-- table of packages.
use debswarm.Prelude.{
  ℕ, ◌≤◌, ◌≡◌, refl, Option, none, some, true, false, [], ◌∷◌, if◌then◌else◌, arith, GoString,
  str_eq, eq_iff, Option-cases, Bool-cases, inl, inr, ◌∙◌, ◌⊎◌,
}
use debswarm.Prelude.Assoc.{
  Map, lookup, Distinct, weigh, lookup-insert, insert-Distinct, weigh-insert,
}
use debswarm.Cache.State.{Row, AccessRecord, update_row}
use debswarm.Cache.Access.{apply_access, apply_all}

abbrev pub total : Map Row → ℕ
total = weigh (λ r. r.size)

abbrev pub map_row : (Row → Row) → Option Row → Option Row
map_row f none = none
map_row f (some r) = some (f r)

module _ (h : GoString) (f : Row → Row) where
  pub lookup-update_row :
      (j : GoString) (m : Map Row)
      → lookup j (update_row h f m) ≡ (if str_eq h j then map_row f (lookup j m) else lookup j m)
  unfolding update_row
  lookup-update_row j m = elim (Option-cases (lookup h m)) [
    | inl e ↦ rw (e, update_row) (ground (arith, eq_iff h j))
    | inr (r, e) ↦ rw (e, update_row) (ground (arith, lookup-insert h j (f r) m, eq_iff h j))
  ]

  pub update_row-Distinct : (m : Map Row) → Distinct m → Distinct (update_row h f m)
  unfolding update_row
  update_row-Distinct m d = elim (Option-cases (lookup h m)) [
    | inl e ↦ rw (e, update_row) d
    | inr (r, e) ↦ rw (e, update_row) (insert-Distinct h (f r) m d)
  ]

  -- An UPDATE that keeps the sizes keeps the total.
  pub total-update_row :
      (m : Map Row)
      → Distinct m
      → ((r : Row) → (f r).size ≡ r.size)
      → total (update_row h f m) ≡ total m
  unfolding update_row
  total-update_row m d same = elim (Option-cases (lookup h m)) [
    | inl e ↦ rw (e, update_row) refl
    | inr (r, e) ↦
        rw (e, update_row) (ground (arith, weigh-insert (λ (q : Row). q.size) h (f r) m d, same r))
  ]

pub apply_all-Distinct :
    (p : Map AccessRecord) (m : Map Row) → Distinct m → Distinct (apply_all p m)
unfolding apply_all
apply_all-Distinct [] m d = d
apply_all-Distinct ((h, a) ∷ p) m d =
    apply_all-Distinct p (update_row h (apply_access a) m)
      (update_row-Distinct h (apply_access a) m d)

pub total-apply_all :
    (p : Map AccessRecord) (m : Map Row) → Distinct m → total (apply_all p m) ≡ total m
unfolding apply_all
total-apply_all [] m d = refl
total-apply_all ((h, a) ∷ p) m d =
    total-apply_all p (update_row h (apply_access a) m) (update_row-Distinct h (apply_access a) m d)
    ∙ total-update_row h (apply_access a) m d (λ r. refl)

-- What a flush may do to a row: time and count grow, and all else stays.
pub record Accessed (r q : Row) : Type 0 where
  pub later : r.last_accessed ≤ q.last_accessed
  pub more : r.access_count ≤ q.access_count
  pub same_size : q.size ≡ r.size
  pub same_pin : q.pinned ≡ r.pinned
  pub same_name : q.filename ≡ r.filename

abbrev pub Accessed? : Option Row → Option Row → Type 0
Accessed? none none = Unit
Accessed? none (some q) = ⊥
Accessed? (some r) none = ⊥
Accessed? (some r) (some q) = Accessed r q

Accessed?-trans : (a b c : Option Row) → Accessed? a b → Accessed? b c → Accessed? a c
Accessed?-trans none none none u v = tt
Accessed?-trans (some a) (some b) (some c) u v = record {
  later = omega (arith, u.later, v.later);
  more = omega (arith, u.more, v.more);
  same_size = v.same_size ∙ u.same_size;
  same_pin = v.same_pin ∙ u.same_pin;
  same_name = v.same_name ∙ u.same_name;
}
Accessed?-trans none none (some c) u v = absurd v
Accessed?-trans none (some b) c u v = absurd u
Accessed?-trans (some a) none c u v = absurd u
Accessed?-trans (some a) (some b) none u v = absurd v

apply_access-Accessed : (a : AccessRecord) (r : Row) → Accessed r (apply_access a r)
apply_access-Accessed a r = ground arith

Accessed?-refl : (o : Option Row) → Accessed? o o
Accessed?-refl none = tt
Accessed?-refl (some r) = ground arith

map_row-Accessed : (a : AccessRecord) (o : Option Row) → Accessed? o (map_row (apply_access a) o)
map_row-Accessed a none = tt
map_row-Accessed a (some r) = apply_access-Accessed a r

pub apply_all-Accessed :
    (p : Map AccessRecord) (m : Map Row) (j : GoString)
    → Accessed? (lookup j m) (lookup j (apply_all p m))
unfolding apply_all
apply_all-Accessed [] m j = Accessed?-refl (lookup j m)
apply_all-Accessed ((h, a) ∷ p) m j =
    Accessed?-trans (lookup j m) (lookup j (update_row h (apply_access a) m))
      (lookup j (apply_all p (update_row h (apply_access a) m))) (first (Bool-cases (str_eq h j)))
      (apply_all-Accessed p (update_row h (apply_access a) m) j)
  where
    first :
        (str_eq h j ≡ true) ⊎ (str_eq h j ≡ false)
        → Accessed? (lookup j m) (lookup j (update_row h (apply_access a) m))
    first (inl e) =
        rw (lookup-update_row h (apply_access a) j m) (rw e (map_row-Accessed a (lookup j m)))
    first (inr e) =
        rw (lookup-update_row h (apply_access a) j m) (rw e (Accessed?-refl (lookup j m)))
