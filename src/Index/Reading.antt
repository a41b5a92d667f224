-- ===== src/Index/Reading.antt =====
-- internal/index: the parsers keep what the maps say of the files.
use debswarm.Prelude.{
  ℕ, ◌+◌, ◌≡◌, ◌≢◌, ◌<◌, refl, sym, ap, ◌∙◌, Option, none, some, List, [], ◌∷◌, ◌++◌, ◌&&◌, ltb,
  leb, arith, GoString, Bool-cases, inl, inr,
}
use mathlib.Core.Path.{subst}
use mathlib.Core.Option.{some-injective}
use debswarm.Prelude.Assoc.{Map}
use debswarm.Prelude.Strings.{cut}
use debswarm.Index.{PackageInfo, Index, add_package, new_package}
use debswarm.Index.Packages.{
  Loading, read_lines, read_line, read_field, set_package_field, start_package, finish_package,
  finish_last,
}
use debswarm.Index.Members.{Mem_last}
use debswarm.Index.Indexed.{Owned, Indexed}
use debswarm.Index.Growth.{Enters, fresh-Enters, next-Indexed}
use debswarm.Index.Adding.{add_package-Indexed}

pub add_package-files :
    (p : PackageInfo) (idx : Index) → (add_package p idx).by_index_file ≡ idx.by_index_file
unfolding add_package
add_package-files p idx = go p.filename refl
  where
    go :
        (name : GoString)
        → p.filename ≡ name
        → (add_package p idx).by_index_file ≡ idx.by_index_file
    go [] e = ground arith
    go (a ∷ s) e = ground arith

pub add_package-next : (p : PackageInfo) (idx : Index) → (add_package p idx).next ≡ idx.next
unfolding add_package
add_package-next p idx = go p.filename refl
  where
    go : (name : GoString) → p.filename ≡ name → (add_package p idx).next ≡ idx.next
    go [] e = ground arith
    go (a ∷ s) e = ground arith

set_package_field-id :
    (field value : GoString) (p : PackageInfo) → (set_package_field field value p).id ≡ p.id
unfolding set_package_field
set_package_field-id field value p = ground arith

read_field-id : (line : GoString) (p : PackageInfo) → (read_field line p).id ≡ p.id
unfolding read_field
read_field-id line p = go (cut (58 ∷ []) line) refl
  where
    go : (o : Option (GoString × GoString)) → cut (58 ∷ []) line ≡ o → (read_field line p).id ≡ p.id
    go none e = rw (e, read_field) refl
    go (some (field, value)) e = rw (e, read_field) (set_package_field-id field _ p)

module _ (files : Map (List PackageInfo)) (repo : GoString) where
  abbrev pub in_repo : PackageInfo → PackageInfo
  in_repo p = record p { repo = repo }

  -- Before the end of the loop the current package is in no file yet.
  pub record Reading (c : Loading) : Type 0 where
    pub indexed : Indexed c.generation c.index
    pub same : c.index.by_index_file ≡ files
    pub below : (p : PackageInfo) → c.current ≡ some p → p.id < c.index.next
    pub unused :
        (p : PackageInfo)
        → c.current ≡ some p
        → (o : Option GoString) (q : PackageInfo) → Owned c.generation c.index o q
        → q.id ≢ p.id

  -- At its end the current package may have entered.
  pub record Done (c : Loading) : Type 0 where
    pub indexed : Indexed c.generation c.index
    pub same : c.index.by_index_file ≡ files
    pub enters : (p : PackageInfo) → c.current ≡ some p → Enters c.generation c.index (in_repo p)

  Reading-Done : (c : Loading) → Reading c → Done c
  Reading-Done c r = record {
    indexed = r.indexed;
    same = r.same;
    enters =
        λ p e. record { below = r.below p e; own = λ o q k is. absurd (r.unused p e o q k is) };
  }

  Done-Reading : (c : Loading) → Done c → Reading (record c { current = none })
  Done-Reading c d = record {
    indexed = d.indexed;
    same = d.same;
    below = λ p e. absurd (ground arith);
    unused = λ p e. absurd (ground arith);
  }

  read_line-Reading : (line : GoString) (c : Loading) → Reading c → Reading (read_line line c)
  unfolding read_line start_package
  read_line-Reading line c r = go c.current refl
    where
      go : (o : Option PackageInfo) → c.current ≡ o → Reading (read_line line c)
      go none e =
          let w = next-Indexed c.generation c.index r.indexed in
          let enters =
            fresh-Enters c.generation c.index (new_package c.index.next) r.indexed refl in
          let new : PackageInfo = read_field line (new_package c.index.next) in
          let shape : read_line line c ≡ record c {
            index = record (c.index) { next = c.index.next + 1 };
            current = some new;
          } =
            ground arith in
          subst Reading (sym shape) (record {
            indexed = w;
            same = r.same;
            below = λ p f.
                let is : new ≡ p = some-injective new p f in
                omega (
                  arith,
                  ap (λ (x : PackageInfo). x.id) is,
                  read_field-id line (new_package c.index.next),
                );
            unused = λ p f o q k clash.
                let is : new ≡ p = some-injective new p f in
                omega (
                  arith,
                  ap (λ (x : PackageInfo). x.id) is,
                  clash,
                  w.fresh q (o, k),
                  read_field-id line (new_package c.index.next),
                  used o q k,
                );
          })
        where
          used :
              (o : Option GoString) (q : PackageInfo)
              → Owned c.generation (record (c.index) { next = c.index.next + 1 }) o q
              → q.id < c.index.next
          used none q k = r.indexed.fresh q (none, k)
          used (some key) q k = r.indexed.fresh q (some key, k)
      go (some p) e =
          let shape : read_line line c ≡ record c { current = some (read_field line p) } =
            ground arith in
          subst Reading (sym shape) (record {
            indexed = r.indexed;
            same = r.same;
            below = λ q f.
                let is : read_field line p ≡ q = some-injective _ q f in
                omega (arith, ap (λ (x : PackageInfo). x.id) is, read_field-id line p, r.below p e);
            unused = λ q f o x k clash.
                let is : read_field line p ≡ q = some-injective _ q f in
                r.unused p e o x k
                  (clash ∙ (sym (ap (λ (y : PackageInfo). y.id) is) ∙ read_field-id line p));
          })

  finish_package-Done :
      (p : PackageInfo) (c : Loading) → Done c → c.current ≡ some p → Done (finish_package repo p c)
  unfolding finish_package
  finish_package-Done p c d e = go p.sha256 refl
    where
      go : (h : GoString) → p.sha256 ≡ h → Done (finish_package repo p c)
      go [] f = let shape : finish_package repo p c ≡ c = ground arith in subst Done (sym shape) d
      go (a ∷ s) f =
          let p' : PackageInfo = in_repo p in
          let enters = d.enters p e in
          let w = add_package-Indexed c.generation c.index p' enters d.indexed in
          let shape : finish_package repo p c ≡ record c {
            index = add_package p' c.index;
            generation = c.generation ++ p' ∷ [];
            current = some p';
            count = c.count + 1;
          } =
            ground arith in
          subst Done (sym shape) (record {
            indexed = w;
            same = add_package-files p' c.index ∙ d.same;
            enters = λ q g.
                let is : p' ≡ q = some-injective p' q g in
                subst (λ x. Enters (c.generation ++ p' ∷ []) (add_package p' c.index) (in_repo x))
                  is
                  (record {
                    below = rw (add_package-next p' c.index) enters.below;
                    own = λ o x k same. w.apart o none x p' k (Mem_last p' c.generation) same;
                  });
          })

  pub read_lines-Done :
      (limit : ℕ) (lines : List GoString) (c : Loading)
      → Reading c
      → Done (read_lines limit repo lines c)
  unfolding read_lines
  read_lines-Done limit [] c r = Reading-Done c r
  read_lines-Done limit ((a ∷ line) ∷ lines) c r =
      read_lines-Done limit lines (read_line (a ∷ line) c) (read_line-Reading (a ∷ line) c r)
  read_lines-Done limit ([] ∷ lines) c r =
      go c.current refl (λ c' r'. read_lines-Done limit lines c' r')
    where
      go :
          (o : Option PackageInfo)
          → c.current ≡ o
          → ((c' : Loading) → Reading c' → Done (read_lines limit repo lines c'))
          → Done (read_lines limit repo ([] ∷ lines) c)
      go none e next =
          let shape : read_lines limit repo ([] ∷ lines) c ≡ read_lines limit repo lines c =
            ground arith in
          subst Done (sym shape) (next c r)
      go (some p) e next =
          let d = finish_package-Done p c (Reading-Done c r) e in
          elim (Bool-cases (
            ltb c.count (finish_package repo p c).count
            && leb limit (finish_package repo p c).count)) [
              | inl full ↦
                  let shape : read_lines limit repo ([] ∷ lines) c ≡ finish_package repo p c =
                    ground arith in
                  subst Done (sym shape) d
              | inr more ↦
                  let shape : read_lines limit repo ([] ∷ lines) c
                      ≡ read_lines limit repo lines
                          (record (finish_package repo p c) { current = none }) =
                    ground arith in
                  subst Done (sym shape) (next _ (Done-Reading (finish_package repo p c) d))
            ]

  pub finish_last-Done : (c : Loading) → Done c → Done (finish_last repo c)
  finish_last-Done c d = go c.current refl
    where
      go : (o : Option PackageInfo) → c.current ≡ o → Done (finish_last repo c)
      go none e = let shape : finish_last repo c ≡ c = ground arith in subst Done (sym shape) d
      go (some p) e =
          let shape : finish_last repo c ≡ finish_package repo p c = ground arith in
          subst Done (sym shape) (finish_package-Done p c d e)
