-- ===== src/Downloader/Assembly.antt =====
-- internal/downloader/downloader.go: the assembly file, with what the source uses of `os.File` on
-- it: a file is its size with the byte at each offset.
use debswarm.Prelude.{
  ℕ, zero, suc, ◌+◌, ◌-◌, ◌≤◌, ◌<◌, ◌≡◌, refl, Option, none, some, ◌&&◌, List, [], ◌∷◌, ltb, leb,
  if◌then◌else◌, arith, length, get_elem?,
}

pub record File : Type 0 where
  pub size : ℕ
  pub byte : ℕ → ℕ

-- A file that `OpenFile` creates.
abbrev pub empty_file : File
empty_file = record { size = 0; byte = λ b. 0 }

-- `Truncate`: a file that grows is filled up with zeros.
unfoldable pub truncate : ℕ → File → File
truncate n f = record { size = n; byte = λ b. if ltb b n && ltb b f.size then f.byte b else 0 }

abbrev pub overlay : Option ℕ → ℕ → ℕ
overlay none old = old
overlay (some x) old = x

-- `WriteAt`
unfoldable pub write_at : List ℕ → ℕ → File → File
write_at bytes start f = record {
  size = if ltb f.size (start + length bytes) then start + length bytes else f.size;
  byte = λ b. if leb start b then overlay (get_elem? bytes (b - start)) (f.byte b) else f.byte b;
}

-- The n bytes from an offset.
unfoldable pub slice : (ℕ → ℕ) → ℕ → ℕ → List ℕ
slice byte start zero = []
slice byte start (suc n) = byte start ∷ slice byte (suc start) n

abbrev pub read_all : File → List ℕ
read_all f = slice f.byte 0 f.size

pub length-slice : (byte : ℕ → ℕ) (start n : ℕ) → length (slice byte start n) ≡ n
unfolding slice
length-slice byte start zero = omega arith
length-slice byte start (suc n) = omega (arith, length-slice byte (suc start) n)

pub get_elem?-slice :
    (byte : ℕ → ℕ) (start n k : ℕ)
    → k < n
    → get_elem? (slice byte start n) k ≡ some (byte (start + k))
unfolding slice
get_elem?-slice byte start zero k h = absurd (omega (arith, h))
get_elem?-slice byte start (suc n) zero h = ground arith
get_elem?-slice byte start (suc n) (suc k) h =
    ground (arith, get_elem?-slice byte (suc start) n k (omega (arith, h)))

get_elem?-slice_beyond :
    (byte : ℕ → ℕ) (start n k : ℕ) → n ≤ k → get_elem? (slice byte start n) k ≡ none
unfolding slice
get_elem?-slice_beyond byte start zero k h = refl
get_elem?-slice_beyond byte start (suc n) zero h = absurd (omega (arith, h))
get_elem?-slice_beyond byte start (suc n) (suc k) h =
    get_elem?-slice_beyond byte (suc start) n k (omega (arith, h))

pub slice-agree :
    (f g : ℕ → ℕ) (start n : ℕ)
    → ((b : ℕ) → b < start + n → f b ≡ g b)
    → slice f start n ≡ slice g start n
unfolding slice
slice-agree f g start zero h = refl
slice-agree f g start (suc n) h =
    let rest = slice-agree f g (suc start) n (λ b l. h b (omega (arith, l))) in
    rw (h start (omega arith)) (rw rest refl)

-- A slice of some content, written at its place, puts that content there and keeps the rest.
pub write_at-slice :
    (content : ℕ → ℕ) (start n : ℕ) (f : File) (b : ℕ)
    → (start ≤ b → b < start + n → (write_at (slice content start n) start f).byte b ≡ content b)
      × ((b < start) → (write_at (slice content start n) start f).byte b ≡ f.byte b)
      × ((start + n ≤ b) → (write_at (slice content start n) start f).byte b ≡ f.byte b)
unfolding write_at
write_at-slice content start n f b = (
  λ low high. ground (arith, get_elem?-slice content start n (b - start) (omega arith)),
  λ low. ground arith,
  λ high. ground (arith, get_elem?-slice_beyond content start n (b - start) (omega arith)),
)

-- A write inside the file keeps its size.
pub write_at-size :
    (bytes : List ℕ) (start : ℕ) (f : File)
    → start + length bytes ≤ f.size
    → (write_at bytes start f).size ≡ f.size
unfolding write_at
write_at-size bytes start f h = ground arith
