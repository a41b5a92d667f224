-- ===== src/Index/Refines.antt =====
-- internal/index: what the calls of the index promise, over any sequence of them.
use debswarm.Prelude.{
  ℕ, ◌≡◌, ◌≢◌, refl, sym, ap, ◌∙◌, Option, none, some, List, [], ◌∷◌, All, arith, GoString, str_eq,
  eq_iff, str_eq_self, codes, Option-cases, Bool-cases, inl, inr,
}
use mathlib.Core.Path.{subst}
use mathlib.Core.Option.{some-injective}
use debswarm.Prelude.Assoc.{Map, lookup, Distinct}
use debswarm.Prelude.Strings.{base_name, after_last, trim_right_byte}
use debswarm.Index.{
  PackageInfo, Index, new_index, get_by_sha256, get_by_repo_and_path, get_by_path, search_path,
  first, prefer, get_by_basename,
}
use debswarm.Index.Urls.{extract_repo_from_url, extract_path_from_url, basename_from_url}
use debswarm.Index.Load.{Outer, get_by_url_path, by_basename}
use debswarm.Index.Members.{Mem}
use debswarm.Index.Forget.{at_base}
use debswarm.Index.Indexed.{Live, Indexed}
use debswarm.Index.Calls.{IndexCall, KeepsRepos, index_run, index_run-Indexed, new-Indexed}

-- A file that is loaded lists the package.
abbrev pub Listed : Index → PackageInfo → Type 0
Listed idx p =
    (key : GoString) × (gen : List PackageInfo) × (lookup key idx.by_index_file ≡ some gen)
    × Mem p gen

Live-Listed : (idx : Index) (p : PackageInfo) → Live [] idx p → Listed idx p
Live-Listed idx p (none, k) = absurd k
Live-Listed idx p (some key, (gen, e, m)) = (key, gen, e, m)

-- What the URL asks for: the base name of its path.
abbrev pub asked_name : Outer → GoString → GoString
asked_name o url = elim (extract_path_from_url o.path_unescape url) [
  | [] ↦ basename_from_url o.url_path url
  | b ∷ path ↦ base_name (b ∷ path)
]

-- A package that the files list under the name.
abbrev pub Carries : Index → GoString → PackageInfo → Type 0
Carries idx name p = Listed idx p × (p.filename ≢ []) × (base_name p.filename ≡ name)

-- What the listing of the files has for a name: one of the packages, or none as there is none.
abbrev pub Answers : Index → GoString → Option PackageInfo → Type 0
Answers idx name none = ¬ ((p : PackageInfo) × Carries idx name p)
Answers idx name (some p) = Carries idx name p

abbrev pub HashAnswer : Index → GoString → Option PackageInfo → Type 0
HashAnswer idx h none = Unit
HashAnswer idx h (some p) = Listed idx p × (p.sha256 ≡ h)

search_path-lookup :
    (path : GoString) (m : Map (Map PackageInfo)) (p : PackageInfo)
    → Distinct m
    → search_path path m ≡ some p
    → (repo : GoString) × (paths : Map PackageInfo) × (lookup repo m ≡ some paths)
      × (lookup path paths ≡ some p)
unfolding search_path lookup
search_path-lookup path [] p d e = absurd (ground arith)
search_path-lookup path ((repo, paths) ∷ m) p (absent, d) e =
    elim (Option-cases (lookup path paths)) [
      | inr (q, f) ↦ (repo, paths, ground (arith, str_eq_self repo), ground arith)
      | inl f ↦
          let (r, ps, g, h) = search_path-lookup path m p d (ground arith) in
          (r, ps, ground (arith, eq_iff repo r, ap (λ k. lookup k m)), h)
    ]

base_name-not_empty : (s : GoString) → base_name s ≢ []
unfolding base_name
base_name-not_empty [] = λ e. cc
base_name-not_empty (a ∷ s) = go (after_last b'/' (trim_right_byte b'/' (a ∷ s)))
  where
    go : (t : GoString) → elim t [ [] ↦ codes "/" | b ∷ t' ↦ b ∷ t' ] ≢ []
    go [] = λ e. cc
    go (b ∷ t) = λ e. cc

module _ (idx : Index) (w : Indexed [] idx) where
  based : (b : GoString) (p : PackageInfo) → Mem p (at_base b idx) → Carries idx b p
  based b p m = let (live, named, at) = w.base b p m in (Live-Listed idx p live, named, at)

  listed : (b : GoString) (p : PackageInfo) → Carries idx b p → Mem p (at_base b idx)
  listed b p ((key, gen, e, m), named, at) =
      subst (λ c. Mem p (at_base c idx)) at (w.whole p (some key, (gen, e, m)) named)

  first-Answers : (b : GoString) → Answers idx b (first (at_base b idx))
  first-Answers b = go (at_base b idx) refl
    where
      go : (ps : List PackageInfo) → at_base b idx ≡ ps → Answers idx b (first ps)
      go [] e = λ (p, carries). subst (Mem p) e (listed b p carries)
      go (p ∷ ps) e = based b p (rw e (inl refl))

  prefer-Mem :
      (repo : GoString) (ps : List PackageInfo) (p : PackageInfo)
      → prefer repo ps ≡ some p
      → Mem p ps
  unfolding prefer
  prefer-Mem repo [] p e = absurd (ground arith)
  prefer-Mem repo (q ∷ ps) p e = elim (Bool-cases (str_eq q.repo repo)) [
    | inl f ↦ inl (sym (some-injective q p (ground arith)))
    | inr f ↦ inr (prefer-Mem repo ps p (ground arith))
  ]

  get_by_basename-Answers : (b repo : GoString) → Answers idx b (get_by_basename b repo idx)
  unfolding get_by_basename
  get_by_basename-Answers b [] = first-Answers b
  get_by_basename-Answers b (a ∷ s) = go (prefer (a ∷ s) (at_base b idx)) refl
    where
      go :
          (o : Option PackageInfo)
          → prefer (a ∷ s) (at_base b idx) ≡ o
          → Answers idx b (get_by_basename b (a ∷ s) idx)
      go none e = rw (e, get_by_basename) (first-Answers b)
      go (some p) e = rw (e, get_by_basename) (based b p (prefer-Mem (a ∷ s) (at_base b idx) p e))

  at_path-Carries :
      (repo path : GoString) (m : Map PackageInfo) (p : PackageInfo)
      → path ≢ []
      → lookup repo idx.by_repo ≡ some m
      → lookup path m ≡ some p
      → Carries idx (base_name path) p
  at_path-Carries repo path m p some_path e f =
      let (live, in_repo, at) = w.path repo path m p e f in
      (Live-Listed idx p live, λ g. some_path (sym at ∙ g), ap base_name at)

  get_by_path-Answers :
      (path : GoString) → path ≢ [] → Answers idx (base_name path) (get_by_path path idx)
  unfolding get_by_path
  get_by_path-Answers path some_path = go (search_path path idx.by_repo) refl
    where
      go :
          (o : Option PackageInfo)
          → search_path path idx.by_repo ≡ o
          → Answers idx (base_name path) (get_by_path path idx)
      go none e = rw (e, get_by_path) (first-Answers (base_name path))
      go (some p) e =
          let (repo, paths, f, g) = search_path-lookup path idx.by_repo p w.once e in
          rw (e, get_by_path) (at_path-Carries repo path paths p some_path f g)

  by_basename-Answers : (b repo : GoString) → Answers idx b (by_basename b repo idx)
  by_basename-Answers [] repo = λ (p, (l, named, at)). base_name-not_empty p.filename at
  by_basename-Answers (a ∷ b) repo = get_by_basename-Answers (a ∷ b) repo

  get_by_repo_and_path-Carries :
      (repo path : GoString) (p : PackageInfo)
      → path ≢ []
      → get_by_repo_and_path repo path idx ≡ some p
      → Carries idx (base_name path) p
  unfolding get_by_repo_and_path lookup
  get_by_repo_and_path-Carries repo path p some_path e = go (lookup repo idx.by_repo) refl
    where
      go :
          (o : Option (Map PackageInfo))
          → lookup repo idx.by_repo ≡ o
          → Carries idx (base_name path) p
      go none f = absurd (ground arith)
      go (some m) f = at_path-Carries repo path m p some_path f (ground arith)

  get_by_url_path-Answers :
      (o : Outer) (url : GoString)
      → extract_repo_from_url url ≢ []
      → Answers idx (asked_name o url) (get_by_url_path o url idx)
  unfolding get_by_url_path
  get_by_url_path-Answers o url has_repo =
      go (extract_repo_from_url url) refl (extract_path_from_url o.path_unescape url) refl
    where
      renamed :
          (name : GoString) (q : Option PackageInfo)
          → asked_name o url ≡ name
          → get_by_url_path o url idx ≡ q
          → Answers idx name q
          → Answers idx (asked_name o url) (get_by_url_path o url idx)
      renamed name q is found answers = rw is (rw found answers)

      at_path :
          (a : ℕ) (repo : GoString)
          → extract_repo_from_url url ≡ a ∷ repo
          → (b : ℕ) (path : GoString) → extract_path_from_url o.path_unescape url ≡ b ∷ path
          → (q : Option PackageInfo) → get_by_repo_and_path (a ∷ repo) (b ∷ path) idx ≡ q
          → Answers idx (asked_name o url) (get_by_url_path o url idx)
      at_path a repo e b path f none g =
          renamed (base_name (b ∷ path)) (get_by_path (b ∷ path) idx) (ground arith) (ground arith)
            (get_by_path-Answers (b ∷ path) (λ h. cc))
      at_path a repo e b path f (some p) g =
          renamed (base_name (b ∷ path)) (some p) (ground arith) (ground arith)
            (get_by_repo_and_path-Carries (a ∷ repo) (b ∷ path) p (λ h. cc) g)

      go :
          (r : GoString)
          → extract_repo_from_url url ≡ r
          → (path : GoString) → extract_path_from_url o.path_unescape url ≡ path
          → Answers idx (asked_name o url) (get_by_url_path o url idx)
      go [] e path f = absurd (has_repo e)
      go (a ∷ repo) e [] f =
          renamed (basename_from_url o.url_path url)
            (by_basename (basename_from_url o.url_path url) (a ∷ repo) idx) (ground arith)
            (ground arith) (by_basename-Answers (basename_from_url o.url_path url) (a ∷ repo))
      go (a ∷ repo) e (b ∷ path) f =
          at_path a repo e b path f (get_by_repo_and_path (a ∷ repo) (b ∷ path) idx) refl

  get_by_sha256-HashAnswer : (h : GoString) → HashAnswer idx h (get_by_sha256 h idx)
  unfolding get_by_sha256
  get_by_sha256-HashAnswer h = go (lookup h idx.packages) refl
    where
      go :
          (o : Option PackageInfo)
          → lookup h idx.packages ≡ o
          → HashAnswer idx h (get_by_sha256 h idx)
      go none e = rw (get_by_sha256, e) tt
      go (some p) e =
          rw (get_by_sha256, e) (let (live, same) = w.hash h p e in (Live-Listed idx p live, same))

-- Whatever sequence of files was loaded into a new index, with or without `Clear` in between, but
-- with no `ClearRepo`: the lookup by hash answers only with a package of that hash that a loaded file lists, and the lookup
-- by the URL, which has a repository, answers with a package that a loaded file lists under the
-- base name of the URL's path, or with none if no loaded file lists such a package.
pub index_run-Answers :
    (o : Outer) (calls : List IndexCall) (h url : GoString)
    → All KeepsRepos calls
    → extract_repo_from_url url ≢ []
    → HashAnswer (index_run o calls new_index) h (get_by_sha256 h (index_run o calls new_index))
      × Answers
          (index_run o calls new_index)
          (asked_name o url)
          (get_by_url_path o url (index_run o calls new_index))
index_run-Answers o calls h url keeps has_repo =
    let w = index_run-Indexed o calls new_index keeps new-Indexed in
    (
      get_by_sha256-HashAnswer (index_run o calls new_index) w h,
      get_by_url_path-Answers (index_run o calls new_index) w o url has_repo,
    )
