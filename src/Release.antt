-- ===== src/Release.antt =====
-- internal/release/release.go: the parser of Release files. How a time is read is `time.Parse`, a
-- parameter; white space and case are those of ASCII.
pub mod Lines
pub mod RoundTrip
mod Examples
use debswarm.Prelude.{
  ℕ, zero, suc, ◌+◌, ◌-◌, ◌*◌, ◌^◌, Option, none, some, Bool, true, false, ◌&&◌, ◌||◌, List, [],
  ◌∷◌, ◌==◌, ltb, leb, if◌then◌else◌, length, GoString, codes, str_eq,
}
use debswarm.Prelude.Assoc.{Map, lookup, insert}
use debswarm.Prelude.Int.{ℤ, pos, negsuc}
use debswarm.Prelude.Strings.{split, fields, trim_space, to_lower, cut}

pub record FileHash : Type 0 where
  pub sha256 : GoString
  pub size : ℤ

-- `hash_set` is a set as the list of its elements; no time is the zero time.
pub record Release : Type 0 where
  pub origin : GoString
  pub suite : GoString
  pub codename : GoString
  pub valid_until : Option ℕ
  pub acquire_by_hash : Bool
  pub sha256 : Map FileHash
  pub hash_set : List GoString

abbrev pub no_release : Release
no_release = record {
  origin = [];
  suite = [];
  codename = [];
  valid_until = none;
  acquire_by_hash = false;
  sha256 = [];
  hash_set = [];
}

abbrev pub member : GoString → List GoString → Bool
member h [] = false
member h (j ∷ js) = str_eq j h || member h js

unfoldable pub has_hash : GoString → Release → Bool
has_hash hex r = member (to_lower hex) r.hash_set

abbrev pub max_release_size : ℕ
max_release_size = 32 * 1024 * 1024

-- `bufio.ScanLines`: the end of a line is a newline with a carriage return before it, if there is
-- one, and a last line that is empty is none.
abbrev pub drop_cr : GoString → GoString
drop_cr [] = []
drop_cr (a ∷ []) = if a == 13 then [] else a ∷ []
drop_cr (a ∷ b ∷ s) = a ∷ drop_cr (b ∷ s)

abbrev pub lines_of : List GoString → List GoString
lines_of [] = []
lines_of (l ∷ []) = elim l [ [] ↦ [] | a ∷ s ↦ drop_cr (a ∷ s) ∷ [] ]
lines_of (l ∷ m ∷ ls) = drop_cr l ∷ lines_of (m ∷ ls)

abbrev pub too_long : List GoString → Bool
too_long [] = false
too_long (l ∷ ls) = leb max_release_size (length l) || too_long ls

-- `strconv.ParseInt(s, 10, 64)` without its error: 0 where it is no number, and the nearest bound
-- where it is out of range. The digits behind one that leaves 64 bits are not read.
abbrev pub digits_of : GoString → ℕ → Option ℕ
digits_of [] n = some n
digits_of (a ∷ s) n =
    let n' = n * 10 + (a - b'0') in
    let rest = digits_of s n' in
    if leb b'0' a && leb a b'9' then if ltb n' (2 ^ 64) then rest else some (2 ^ 64 - 1) else none

abbrev pub number_of : GoString → Option ℕ
number_of [] = none
number_of (a ∷ s) = digits_of (a ∷ s) 0

unfoldable pub parse_int : GoString → ℤ
parse_int [] = pos 0
parse_int (a ∷ s) =
    if a == b'-'
    then elim (number_of s) [
      | none ↦ pos 0
      | some n ↦
          if n == 0 then pos 0 else if leb n (2 ^ 63) then negsuc (n - 1) else negsuc (2 ^ 63 - 1)
    ]
    else elim (number_of (if a == b'+' then s else a ∷ s)) [
      | none ↦ pos 0
      | some n ↦ if ltb n (2 ^ 63) then pos n else pos (2 ^ 63 - 1)
    ]

-- `splitField`
unfoldable pub split_field : GoString → Option (GoString × GoString)
split_field line = elim (cut (codes ":") line) [
  | none ↦ none
  | some (before, after) ↦ some (trim_space before, trim_space after)
]

-- An entry of the section of SHA256 hashes: a hash, a size and a path.
unfoldable pub add_entry : List GoString → Release → Release
add_entry (h ∷ size ∷ path ∷ more) r = record r {
  sha256 = insert path (record { sha256 = to_lower h; size = parse_int size }) r.sha256;
  hash_set = to_lower h ∷ r.hash_set;
}
add_entry _ r = r

-- A top-level field.
unfoldable pub set_field : (GoString → Option ℕ) → GoString → GoString → Release → Release
set_field parse_time key val r =
    if str_eq key (codes "Origin")
    then record r { origin = val }
    else if str_eq key (codes "Suite")
    then record r { suite = val }
    else if str_eq key (codes "Codename")
    then record r { codename = val }
    else if str_eq key (codes "Acquire-By-Hash")
    then record r { acquire_by_hash = str_eq (to_lower val) (codes "yes") }
    else if str_eq key (codes "Valid-Until")
    then record r { valid_until = elim (parse_time val) [ none ↦ r.valid_until | some t ↦ some t ] }
    else r

-- What the loop carries: whether the section of the line is that of SHA256, and the release.
pub record Scan : Type 0 where
  pub in_sha256 : Bool
  pub release : Release

unfoldable pub scan_line : (GoString → Option ℕ) → GoString → Scan → Scan
unfolding add_entry set_field split_field
scan_line parse_time [] c = c
scan_line parse_time (a ∷ s) c =
    if a == 32 || a == 9
    then (if c.in_sha256 then record c { release = add_entry (fields (a ∷ s)) c.release } else c)
    else elim (split_field (a ∷ s)) [
      | none ↦ record c { in_sha256 = false }
      | some (key, val) ↦
          if str_eq key (codes "SHA256")
          then record c { in_sha256 = true }
          else record { in_sha256 = false; release = set_field parse_time key val c.release }
    ]

unfoldable pub scan_lines : (GoString → Option ℕ) → List GoString → Scan → Scan
scan_lines parse_time [] c = c
scan_lines parse_time (l ∷ ls) c = scan_lines parse_time ls (scan_line parse_time l c)

pub data ParseResult : Type 0 where
  parsed : Release → ParseResult
  no_sha256 line_too_long : ParseResult

-- A release with no entry of that section is refused.
abbrev pub conclude : Scan → ParseResult
conclude c = elim c.release.sha256 [ [] ↦ no_sha256 | e ∷ es ↦ parsed c.release ]

-- `Parse`
unfoldable pub parse : (GoString → Option ℕ) → GoString → ParseResult
parse parse_time body =
    let raw = split 10 body in
    let start : Scan = record { in_sha256 = false; release = no_release } in
    if too_long raw then line_too_long else conclude (scan_lines parse_time (lines_of raw) start)
