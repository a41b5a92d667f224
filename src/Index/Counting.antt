-- ===== src/Index/Counting.antt =====
-- internal/index/index.go: the count of the packages during a load of a Packages file.
use debswarm.Prelude.{
  ℕ, ◌+◌, ◌≡◌, ◌≢◌, ◌≤◌, ◌<◌, refl, sym, ap, ◌∙◌, Option, none, some, ◌&&◌, ltb, leb, List, [], ◌∷◌,
  ◌++◌, length, arith, GoString, Bool-cases, inl, inr, ◌⊎◌,
}
use mathlib.Core.Path.{subst}
use mathlib.Core.Option.{some-injective}
use debswarm.Prelude.Assoc.{Map, lookup, insert}
use debswarm.Prelude.Strings.{base_name}
use debswarm.Index.{PackageInfo, Index, or_empty, add_package}
use debswarm.Index.Packages.{
  Loading, read_line, start_package, finish_package, finish_last, read_lines,
}

length-append_one :
    (ps : List PackageInfo) (p : PackageInfo) → length (ps ++ p ∷ []) ≡ length ps + 1
length-append_one [] p = omega arith
length-append_one (q ∷ ps) p = omega (arith, length-append_one ps p)

add_package-files :
    (p : PackageInfo) (idx : Index) → (add_package p idx).by_index_file ≡ idx.by_index_file
unfolding add_package
add_package-files p idx = go p.filename
  where
    go :
        (name : GoString)
        → (elim name as (λ x. Index) [
          | [] ↦ record idx { packages = insert p.sha256 p idx.packages }
          | a ∷ s ↦ record idx {
            packages = insert p.sha256 p idx.packages;
            by_repo =
                insert p.repo (insert (a ∷ s) p (or_empty (lookup p.repo idx.by_repo))) idx.by_repo;
            by_basename =
                insert
                  (base_name (a ∷ s))
                  (or_empty (lookup (base_name (a ∷ s)) idx.by_basename) ++ p ∷ [])
                  idx.by_basename;
          }
        ]).by_index_file
          ≡ idx.by_index_file
    go [] = refl
    go (a ∷ s) = refl

module _ (files : Map (List PackageInfo)) (limit : ℕ) (repo : GoString) where
  -- The count is that of the generation, and the files are as they were.
  pub record Counted (c : Loading) : Type 0 where
    pub counts : c.count ≡ length c.generation
    pub same : c.index.by_index_file ≡ files

  -- The loop is below the limit, or it has ended with a package that it has just counted.
  abbrev pub Ended : Loading → Type 0
  Ended c =
      Counted c
      × ((c.count < limit)
          ⊎ ((c.count ≡ limit) × (p : PackageInfo) × (c.current ≡ some p) × (p.sha256 ≢ [])))

  read_line-Counted : (line : GoString) (c : Loading) → Counted c → Counted (read_line line c)
  unfolding read_line
  read_line-Counted line c w = go c.current refl
    where
      go : (o : Option PackageInfo) → c.current ≡ o → Counted (read_line line c)
      go none e = rw (e, read_line, start_package) (record { counts = w.counts; same = w.same })
      go (some p) e = rw (e, read_line, start_package) (record { counts = w.counts; same = w.same })

  read_line-count : (line : GoString) (c : Loading) → (read_line line c).count ≡ c.count
  unfolding read_line start_package
  read_line-count line c = ground arith

  finish_package-cases :
      (p : PackageInfo) (c : Loading)
      → Counted c
      → Counted (finish_package repo p c)
        × (((p.sha256 ≡ []) × (finish_package repo p c ≡ c))
            ⊎ ((p.sha256 ≢ [])
                × ((finish_package repo p c).count ≡ c.count + 1)
                × (q : PackageInfo) × ((finish_package repo p c).current ≡ some q)
                × (q.sha256 ≢ [])))
  unfolding finish_package
  finish_package-cases p c w = go p.sha256 refl
    where
      entered : Loading
      entered = record c {
        index = add_package (record p { repo = repo }) c.index;
        generation = c.generation ++ record p { repo = repo } ∷ [];
        current = some (record p { repo = repo });
        count = c.count + 1;
      }

      go :
          (h : GoString)
          → p.sha256 ≡ h
          → Counted (finish_package repo p c)
            × (((p.sha256 ≡ []) × (finish_package repo p c ≡ c))
                ⊎ ((p.sha256 ≢ [])
                    × ((finish_package repo p c).count ≡ c.count + 1)
                    × (q : PackageInfo) × ((finish_package repo p c).current ≡ some q)
                    × (q.sha256 ≢ [])))
      go [] e =
          let shape : finish_package repo p c ≡ c = ground arith in
          (subst Counted (sym shape) w, inl (e, shape))
      go (a ∷ s) e =
          let shape : finish_package repo p c ≡ entered = ground arith in
          let hashed : p.sha256 ≢ [] = λ f. ground arith in
          (
            subst Counted (sym shape) (record {
              counts =
                  omega
                    (arith, w.counts, length-append_one c.generation (record p { repo = repo }));
              same = add_package-files (record p { repo = repo }) c.index ∙ w.same;
            }),
            inr (
              hashed,
              ap (λ (x : Loading). x.count) shape,
              record p { repo = repo },
              ap (λ (x : Loading). x.current) shape,
              hashed,
            ),
          )

  pub read_lines-Ended :
      (lines : List GoString) (c : Loading)
      → Counted c
      → c.count < limit
      → Ended (read_lines limit repo lines c)
  unfolding read_lines
  read_lines-Ended [] c w below = (w, inl below)
  read_lines-Ended ((a ∷ line) ∷ lines) c w below =
      read_lines-Ended lines (read_line (a ∷ line) c) (read_line-Counted (a ∷ line) c w)
        (omega (arith, below, read_line-count (a ∷ line) c))
  read_lines-Ended ([] ∷ lines) c w below =
      go (λ d v b. read_lines-Ended lines d v b) c.current refl
    where
      go :
          ((d : Loading) → Counted d → d.count < limit → Ended (read_lines limit repo lines d))
          → (o : Option PackageInfo) → c.current ≡ o
          → Ended (read_lines limit repo ([] ∷ lines) c)
      go later none e =
          let shape : read_lines limit repo ([] ∷ lines) c ≡ read_lines limit repo lines c =
            ground arith in
          subst Ended (sym shape) (later c w below)
      go later (some p) e =
          let (v, how) = finish_package-cases p c w in
          elim (Bool-cases (ltb c.count d.count && leb limit d.count)) [
            | inl stop ↦
                let shape : read_lines limit repo ([] ∷ lines) c ≡ d = ground arith in
                subst Ended (sym shape) (
                  v,
                  elim how [
                    | inl (bare, is) ↦ inl (ground (arith, ap (λ (x : Loading). x.count) is))
                    | inr (hashed, more, q, now, q_hashed) ↦ inr (ground arith, q, now, q_hashed)
                  ],
                )
            | inr on ↦
                let shape : read_lines limit repo ([] ∷ lines) c
                    ≡ read_lines limit repo lines (record d { current = none }) =
                  ground arith in
                subst Ended (sym shape) (
                  later (record d { current = none }) (record { counts = v.counts; same = v.same })
                    (elim how [
                      | inl (bare, is) ↦ ground (arith, ap (λ (x : Loading). x.count) is)
                      | inr (hashed, more, q, now, q_hashed) ↦ ground arith
                    ]))
          ]
        where
          d : Loading
          d = finish_package repo p c

  -- The last package comes in once more where the loop ended with it.
  pub finish_last-Counted :
      (c : Loading)
      → Ended c
      → Counted (finish_last repo c)
        × (((c.count < limit) × ((finish_last repo c).count ≤ limit))
            ⊎ ((c.count ≡ limit) × ((finish_last repo c).count ≡ limit + 1)))
  finish_last-Counted c (w, how) = go c.current refl
    where
      go :
          (o : Option PackageInfo)
          → c.current ≡ o
          → Counted (finish_last repo c)
            × (((c.count < limit) × ((finish_last repo c).count ≤ limit))
                ⊎ ((c.count ≡ limit) × ((finish_last repo c).count ≡ limit + 1)))
      go none e =
          let shape : finish_last repo c ≡ c = ground arith in
          (
            subst Counted (sym shape) w,
            elim how [
              | inl below ↦ inl (below, ground (arith, ap (λ (x : Loading). x.count) shape))
              | inr (full, q, now, hashed) ↦ absurd (ground arith)
            ],
          )
      go (some p) e =
          let shape : finish_last repo c ≡ finish_package repo p c = ground arith in
          let (v, step) = finish_package-cases p c w in
          (
            subst Counted (sym shape) v,
            elim how [
              | inl below ↦ inl (
                below,
                elim step [
                  | inl (bare, is) ↦ ground (arith, ap (λ (x : Loading). x.count) (shape ∙ is))
                  | inr (hashed, more, r, now2, r_hashed) ↦
                      ground (arith, ap (λ (x : Loading). x.count) shape)
                ],
              )
              | inr (full, q, now, q_hashed) ↦ inr (
                full,
                elim step [
                  | inl (bare, is) ↦
                      let one : q ≡ p = some-injective q p (sym now ∙ e) in
                      absurd (q_hashed (ap (λ (x : PackageInfo). x.sha256) one ∙ bare))
                  | inr (hashed, more, r, now2, r_hashed) ↦
                      ground (arith, ap (λ (x : Loading). x.count) shape)
                ],
              )
            ],
          )
