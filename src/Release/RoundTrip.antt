-- ===== src/Release/RoundTrip.antt =====
-- internal/release/release.go: parsing a Release file with a section of MD5 sums and one of SHA256
-- hashes gives the entries of the latter.
use debswarm.Prelude.{
  ℕ, ◌≡◌, ◌≢◌, refl, ap, ◌∙◌, Option, none, some, Bool, true, false, ◌||◌, List, [], ◌∷◌, ◌++◌, map,
  ◌==◌, if◌then◌else◌, arith, All, All-append, GoString, codes, str_eq,
}
use debswarm.Prelude.Assoc.{Map, lookup, insert, lookup-insert}
use debswarm.Prelude.Strings.{is_space, fields, to_lower, has_byte, cut, trim_space, split}
use debswarm.Prelude.Strings.Laws.{has_byte-append}
use debswarm.Release.{
  FileHash, Release, no_release, has_hash, member, too_long, parse_int, add_entry, Scan, scan_line,
  scan_lines, parsed, conclude, parse,
}
use debswarm.Release.Lines.{
  unlines, IsLine, lines_of-unlines, too_long-unlines, IsWord, fields_one, fields_more,
  fields_blank, word-has_byte,
}

-- An entry as a Release file has it: its size is the text of a number.
pub record Entry : Type 0 where
  pub hash : GoString
  pub digits : GoString
  pub path : GoString

abbrev pub IsEntry : Entry → Type 0
IsEntry e = IsWord e.hash × IsWord e.digits × IsWord e.path

abbrev pub entry_line : Entry → GoString
entry_line e = 32 ∷ (e.hash ++ (32 ∷ (e.digits ++ (32 ∷ e.path))))

abbrev pub release_lines : List Entry → List Entry → List GoString
release_lines md5 entries =
    codes "MD5Sum:" ∷ (map entry_line md5 ++ (codes "SHA256:" ∷ map entry_line entries))

-- What the last entry of a path says.
abbrev pub listed_hash : Entry → FileHash
listed_hash e = record { sha256 = to_lower e.hash; size = parse_int e.digits }

abbrev pub find_last : GoString → List Entry → Option FileHash
find_last path [] = none
find_last path (e ∷ es) = elim (find_last path es) [
  | some f ↦ some f
  | none ↦ if str_eq e.path path then some (listed_hash e) else none
]

abbrev pub any_listed : GoString → List Entry → Bool
any_listed h [] = false
any_listed h (e ∷ es) = any_listed h es || str_eq (to_lower e.hash) h

entry_line-fields :
    (e : Entry) → IsEntry e → fields (entry_line e) ≡ e.hash ∷ e.digits ∷ e.path ∷ []
entry_line-fields e h =
    fields_blank (e.hash ++ (32 ∷ (e.digits ++ (32 ∷ e.path))))
    ∙ fields_more e.hash (e.digits ++ (32 ∷ e.path)) h.0
    ∙ ap (λ ws. e.hash ∷ ws)
        (fields_more e.digits e.path h.1 ∙ ap (λ ws. e.digits ∷ ws) (fields_one e.path h.2))

-- The release after the entries of the section.
add_all : List Entry → Release → Release
add_all [] r = r
add_all (e ∷ es) r = add_all es (add_entry (e.hash ∷ e.digits ∷ e.path ∷ []) r)

module _ (parse_time : GoString → Option ℕ) where
  scan_lines-append :
      (ls ms : List GoString) (c : Scan)
      → scan_lines parse_time (ls ++ ms) c ≡ scan_lines parse_time ms (scan_lines parse_time ls c)
  unfolding scan_lines
  scan_lines-append [] ms c = refl
  scan_lines-append (l ∷ ls) ms c = scan_lines-append ls ms (scan_line parse_time l c)

  scan_outside :
      (es : List Entry) (r : Release)
      → scan_lines parse_time (map entry_line es) (record { in_sha256 = false; release = r })
        ≡ record { in_sha256 = false; release = r }
  unfolding scan_lines scan_line
  scan_outside [] r = refl
  scan_outside (e ∷ es) r = scan_outside es r

  scan_inside :
      (es : List Entry) (r : Release)
      → All IsEntry es
      → scan_lines parse_time (map entry_line es) (record { in_sha256 = true; release = r })
        ≡ record { in_sha256 = true; release = add_all es r }
  unfolding scan_lines scan_line add_all
  scan_inside [] r h = refl
  scan_inside (e ∷ es) r h =
      ap
        (λ ws.
          scan_lines parse_time (map entry_line es)
            (record { in_sha256 = true; release = add_entry ws r }))
        (entry_line-fields e h.0)
      ∙ scan_inside es (add_entry (e.hash ∷ e.digits ∷ e.path ∷ []) r) h.1

  md5_header :
      (ls : List GoString) (r : Release)
      → scan_lines parse_time (codes "MD5Sum:" ∷ ls) (record { in_sha256 = false; release = r })
        ≡ scan_lines parse_time ls (record { in_sha256 = false; release = r })
  unfolding scan_lines scan_line cut trim_space str_eq
  md5_header ls r = refl

  sha256_header :
      (ls : List GoString) (r : Release)
      → scan_lines parse_time (codes "SHA256:" ∷ ls) (record { in_sha256 = false; release = r })
        ≡ scan_lines parse_time ls (record { in_sha256 = true; release = r })
  unfolding scan_lines scan_line cut trim_space str_eq
  sha256_header ls r = refl

  scan-All :
      (md5 es : List Entry)
      → All IsEntry es
      → scan_lines parse_time
          (release_lines md5 es)
          (record { in_sha256 = false; release = no_release })
        ≡ record { in_sha256 = true; release = add_all es no_release }
  scan-All md5 es h =
      md5_header (map entry_line md5 ++ (codes "SHA256:" ∷ map entry_line es)) no_release
      ∙ scan_lines-append (map entry_line md5) (codes "SHA256:" ∷ map entry_line es)
          (record { in_sha256 = false; release = no_release })
      ∙ ap (scan_lines parse_time (codes "SHA256:" ∷ map entry_line es))
          (scan_outside md5 no_release)
      ∙ sha256_header (map entry_line es) no_release
      ∙ scan_inside es no_release h

-- What the release lists.
or_else : Option FileHash → Option FileHash → Option FileHash
or_else none g = g
or_else (some f) g = some f

add_all-lookup :
    (es : List Entry) (r : Release) (path : GoString)
    → lookup path (add_all es r).sha256 ≡ or_else (find_last path es) (lookup path r.sha256)
unfolding add_all or_else add_entry
add_all-lookup [] r path = refl
add_all-lookup (e ∷ es) r path = ground (
  arith,
  add_all-lookup es (add_entry (e.hash ∷ e.digits ∷ e.path ∷ []) r) path,
  lookup-insert e.path path (listed_hash e) r.sha256,
)

add_all-member :
    (es : List Entry) (r : Release) (h : GoString)
    → member h (add_all es r).hash_set ≡ any_listed h es || member h r.hash_set
unfolding add_all add_entry
add_all-member [] r h = refl
add_all-member (e ∷ es) r h =
    ground (arith, add_all-member es (add_entry (e.hash ∷ e.digits ∷ e.path ∷ []) r) h)

add_all-ne-nil : (es : List Entry) (r : Release) → r.sha256 ≢ [] → (add_all es r).sha256 ≢ []
unfolding add_all add_entry insert
add_all-ne-nil [] r h = h
add_all-ne-nil (e ∷ es) r h =
    add_all-ne-nil es (add_entry (e.hash ∷ e.digits ∷ e.path ∷ []) r) (λ f. cc)

add_all-listed : (es : List Entry) (r : Release) → es ≢ [] → (add_all es r).sha256 ≢ []
unfolding add_all add_entry insert
add_all-listed [] r h = absurd (h refl)
add_all-listed (e ∷ es) r h =
    add_all-ne-nil es (add_entry (e.hash ∷ e.digits ∷ e.path ∷ []) r) (λ f. cc)

words-IsLine :
    (c : ℕ) (e : Entry)
    → is_space c ≡ true
    → (c == 32) ≡ false
    → IsEntry e
    → has_byte c (entry_line e) ≡ false
unfolding has_byte
words-IsLine c e space other h = ground (
  arith,
  has_byte-append c e.hash (32 ∷ (e.digits ++ (32 ∷ e.path))),
  has_byte-append c e.digits (32 ∷ e.path),
  word-has_byte c e.hash space h.0.1,
  word-has_byte c e.digits space h.1.1,
  word-has_byte c e.path space h.2.1,
)

entry_lines-IsLine : (es : List Entry) → All IsEntry es → All IsLine (map entry_line es)
entry_lines-IsLine [] h = tt
entry_lines-IsLine (e ∷ es) h =
    ((words-IsLine 10 e refl refl h.0, words-IsLine 13 e refl refl h.0), entry_lines-IsLine es h.1)

release_lines-IsLine :
    (md5 es : List Entry) → All IsEntry md5 → All IsEntry es → All IsLine (release_lines md5 es)
unfolding has_byte
release_lines-IsLine md5 es g h = (
  (refl, refl),
  All-append IsLine (map entry_line md5) (codes "SHA256:" ∷ map entry_line es)
      (entry_lines-IsLine md5 g) ((refl, refl), entry_lines-IsLine es h),
)

conclude-parsed : (c : Scan) → c.release.sha256 ≢ [] → conclude c ≡ parsed c.release
conclude-parsed c full = go c.release.sha256 refl
  where
    go : (m : Map FileHash) → c.release.sha256 ≡ m → conclude c ≡ parsed c.release
    go [] e = absurd (full e)
    go (x ∷ m) e = ground arith

parse-of_lines :
    (parse_time : GoString → Option ℕ) (ls : List GoString) (c : Scan)
    → All IsLine ls
    → too_long ls ≡ false
    → scan_lines parse_time ls (record { in_sha256 = false; release = no_release }) ≡ c
    → c.release.sha256 ≢ []
    → parse parse_time (unlines ls) ≡ parsed c.release
unfolding parse
parse-of_lines parse_time ls c lines short scanned full =
    let fits : too_long (split 10 (unlines ls)) ≡ false = too_long-unlines ls lines ∙ short in
    rw fits (
      ap
        (λ ms.
          conclude (scan_lines parse_time ms (record { in_sha256 = false; release = no_release })))
        (lines_of-unlines ls lines)
      ∙ ap conclude scanned
      ∙ conclude-parsed c full)

or_else-none : (f : Option FileHash) → or_else f none ≡ f
unfolding or_else
or_else-none none = refl
or_else-none (some f) = refl

or-false : (b : Bool) → (b || false) ≡ b
or-false b = ground arith

-- A Release file that lists some entries under MD5Sum and at least one under SHA256, with no line
-- of 32 MB, is parsed; the release has for each path what the last entry of the SHA256 section says
-- of it, and nothing of the other section, and it has a hash exactly if an entry of the SHA256
-- section has it, in lower case.
pub parse-release_lines :
    (parse_time : GoString → Option ℕ) (md5 es : List Entry)
    → All IsEntry md5
    → All IsEntry es
    → es ≢ []
    → too_long (release_lines md5 es) ≡ false
    → (r : Release) × (parse parse_time (unlines (release_lines md5 es)) ≡ parsed r)
      × ((path : GoString) → lookup path r.sha256 ≡ find_last path es)
      × ((hex : GoString) → has_hash hex r ≡ any_listed (to_lower hex) es)
unfolding has_hash lookup
parse-release_lines parse_time md5 es g h some_entry short = (
  add_all es no_release,
  parse-of_lines parse_time (release_lines md5 es)
      (record { in_sha256 = true; release = add_all es no_release })
      (release_lines-IsLine md5 es g h) short (scan-All parse_time md5 es h)
      (add_all-listed es no_release some_entry),
  λ path. add_all-lookup es no_release path ∙ or_else-none (find_last path es),
  λ hex. add_all-member es no_release (to_lower hex) ∙ or-false (any_listed (to_lower hex) es),
)
