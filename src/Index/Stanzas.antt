-- ===== src/Index/Stanzas.antt =====
-- internal/index/sources.go: the parser of Sources files keeps what the maps say of the files.
use debswarm.Prelude.{
  ℕ, ◌+◌, ◌≡◌, refl, sym, ◌∙◌, Option, none, some, Bool, true, false, List, [], ◌∷◌, ◌++◌, ◌==◌,
  ◌&&◌, ◌||◌, leb, arith, GoString, codes, Bool-cases, inl, inr,
}
use mathlib.Core.Path.{subst}
use debswarm.Prelude.Assoc.{Map}
use debswarm.Prelude.Strings.{cut, trim_space}
use debswarm.Index.{PackageInfo, new_package}
use debswarm.Index.Sources.{
  Stanza, FileEntry, add_file, emit_files, emit, emit_last, read_source_line, set_source_field,
  read_source_lines, is_nameless, reset_stanza,
}
use debswarm.Index.Indexed.{Indexed}
use debswarm.Index.Growth.{fresh-Enters, next-Indexed}
use debswarm.Index.Adding.{add_package-Indexed}
use debswarm.Index.Reading.{add_package-files}

module _ (files : Map (List PackageInfo)) where
  pub record Keeps (c : Stanza) : Type 0 where
    pub indexed : Indexed c.generation c.index
    pub same : c.index.by_index_file ≡ files

  add_file-Keeps :
      (repo : GoString) (fe : FileEntry) (c : Stanza) → Keeps c → Keeps (add_file repo fe c)
  unfolding add_file
  add_file-Keeps repo fe c k = record {
    indexed =
        add_package-Indexed c.generation (record (c.index) { next = c.index.next + 1 }) p
          (fresh-Enters c.generation c.index p k.indexed refl)
          (next-Indexed c.generation c.index k.indexed);
    same = add_package-files p (record (c.index) { next = c.index.next + 1 }) ∙ k.same;
  }
    where
      p : PackageInfo
      p = record (new_package c.index.next) {
        name = c.src_name;
        filename = c.directory ++ b'/' ∷ fe.name;
        size = fe.size;
        sha256 = fe.sha256;
        repo = repo;
      }

  emit_files-Keeps :
      (limit : ℕ) (repo : GoString) (fes : List FileEntry) (c : Stanza)
      → Keeps c
      → Keeps (emit_files limit repo fes c).0
  unfolding emit_files
  emit_files-Keeps limit repo [] c k = k
  emit_files-Keeps limit repo (fe ∷ fes) c k = elim (Bool-cases (is_nameless fe)) [
    | inl e ↦
        let shape : emit_files limit repo (fe ∷ fes) c ≡ emit_files limit repo fes c =
          ground arith in
        subst (λ r. Keeps r.0) (sym shape) (emit_files-Keeps limit repo fes c k)
    | inr e ↦
        let added = add_file-Keeps repo fe c k in
        elim (Bool-cases (leb limit (add_file repo fe c).count)) [
          | inl f ↦
              let shape : emit_files limit repo (fe ∷ fes) c ≡ (add_file repo fe c, true) =
                ground arith in
              subst (λ r. Keeps r.0) (sym shape) added
          | inr f ↦
              let shape : emit_files limit repo (fe ∷ fes) c
                  ≡ emit_files limit repo fes (add_file repo fe c) =
                ground arith in
              subst (λ r. Keeps r.0) (sym shape)
                (emit_files-Keeps limit repo fes (add_file repo fe c) added)
        ]
  ]

  pub emit-Keeps :
      (limit : ℕ) (repo : GoString) (c : Stanza) → Keeps c → Keeps (emit limit repo c).0
  unfolding emit
  emit-Keeps limit repo c k = go c.directory refl
    where
      go : (d : GoString) → c.directory ≡ d → Keeps (emit limit repo c).0
      go [] e =
          let shape : emit limit repo c ≡ (reset_stanza c, false) = ground arith in
          subst (λ r. Keeps r.0) (sym shape) (record { indexed = k.indexed; same = k.same })
      go (a ∷ s) e =
          let w = emit_files-Keeps limit repo c.files c k in
          let shape : emit limit repo c ≡ (
            reset_stanza (emit_files limit repo c.files c).0,
            (emit_files limit repo c.files c).1,
          ) =
            ground arith in
          subst (λ r. Keeps r.0) (sym shape) (record { indexed = w.indexed; same = w.same })

  set_source_field-index :
      (field value : GoString) (c : Stanza)
      → ((set_source_field field value c).index ≡ c.index)
        × ((set_source_field field value c).generation ≡ c.generation)
  unfolding set_source_field
  set_source_field-index field value c = (ground arith, ground arith)

  read_source_line-Keeps :
      (a : ℕ) (line : GoString) (c : Stanza) → Keeps c → Keeps (read_source_line a line c)
  unfolding read_source_line
  read_source_line-Keeps a line c k = elim (Bool-cases (c.in_checksums && (a == 32 || a == 9))) [
    | inl e ↦ rw (e, read_source_line) (record { indexed = k.indexed; same = k.same })
    | inr e ↦ rw (e, read_source_line) (go (cut (codes ":") (a ∷ line)))
  ]
    where
      go :
          (o : Option (GoString × GoString))
          → Keeps (elim o as (λ x. Stanza) [
            | none ↦ record c { in_checksums = false }
            | some (field, value) ↦
                set_source_field field (trim_space value) (record c { in_checksums = false })
          ])
      go none = record { indexed = k.indexed; same = k.same }
      go (some (field, value)) =
          let (is, gen) =
            set_source_field-index field (trim_space value) (record c { in_checksums = false }) in
          record { indexed = rw (is, gen) k.indexed; same = rw is k.same }

  pub read_source_lines-Keeps :
      (limit : ℕ) (repo : GoString) (lines : List GoString) (c : Stanza)
      → Keeps c
      → Keeps (read_source_lines limit repo lines c).0
  unfolding read_source_lines
  read_source_lines-Keeps limit repo [] c k = k
  read_source_lines-Keeps limit repo ((a ∷ line) ∷ lines) c k =
      read_source_lines-Keeps limit repo lines (read_source_line a line c)
        (read_source_line-Keeps a line c k)
  read_source_lines-Keeps limit repo ([] ∷ lines) c k =
      let emitted = emit-Keeps limit repo c k in
      elim (Bool-cases (emit limit repo c).1) [
        | inl e ↦
            let shape : read_source_lines limit repo ([] ∷ lines) c
                ≡ ((emit limit repo c).0, true) =
              ground arith in
            subst (λ r. Keeps r.0) (sym shape) emitted
        | inr e ↦
            let shape : read_source_lines limit repo ([] ∷ lines) c
                ≡ read_source_lines limit repo lines (emit limit repo c).0 =
              ground arith in
            subst (λ r. Keeps r.0) (sym shape)
              (read_source_lines-Keeps limit repo lines (emit limit repo c).0 emitted)
      ]

  pub emit_last-Keeps :
      (limit : ℕ) (repo : GoString) (looped : Stanza × Bool)
      → Keeps looped.0
      → Keeps (emit_last limit repo looped)
  emit_last-Keeps limit repo (c, true) k = k
  emit_last-Keeps limit repo (c, false) k = emit-Keeps limit repo c k
