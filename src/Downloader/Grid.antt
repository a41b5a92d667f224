-- ===== src/Downloader/Grid.antt =====
-- internal/downloader/downloader.go: the grid of chunks that a download is cut into. Sizes and
-- offsets are at least 0 and below 2 ^ 62, where the sums of the source do not wrap around.
use debswarm.Prelude.{
  ℕ, zero, suc, ◌+◌, ◌-◌, ◌*◌, ◌/◌, ◌≤◌, ◌<◌, ◌≡◌, List, [], ◌∷◌, ltb, if◌then◌else◌, arith,
}
use native.Mathlib.Nat.{div-lt_iff_lt-mul, div-mul-le_self, lt-div-mul-add, le-div_iff_mul-le}

-- The part of a `Chunk` that is fixed when it is queued.
pub record Chunk : Type 0 where
  pub index : ℕ
  pub start : ℕ
  pub end : ℕ

unfoldable pub num_chunks : ℕ → ℕ → ℕ
num_chunks size chunk_size = (size + chunk_size - 1) / chunk_size

unfoldable pub chunk_at : ℕ → ℕ → ℕ → Chunk
chunk_at size chunk_size i =
    let start = i * chunk_size in
    let end = start + chunk_size in
    record { index = i; start = start; end = if ltb size end then size else end }

-- The loop over the n indices from i.
unfoldable pub chunks_from : ℕ → ℕ → ℕ → ℕ → List Chunk
chunks_from size chunk_size i zero = []
chunks_from size chunk_size i (suc n) =
    chunk_at size chunk_size i ∷ chunks_from size chunk_size (suc i) n

unfoldable pub grid : ℕ → ℕ → List Chunk
unfolding chunks_from chunk_at
grid size chunk_size = chunks_from size chunk_size 0 (num_chunks size chunk_size)

-- The offset b stands in the chunk of the index b / chunk_size,
pub chunk_of-lt :
    (size chunk_size b : ℕ)
    → 0 < chunk_size
    → b < size
    → b / chunk_size < num_chunks size chunk_size
unfolding num_chunks
chunk_of-lt size chunk_size b h hb =
    let low = div-mul-le_self b chunk_size in
    omega (
      arith,
      (le-div_iff_mul-le {x = suc (b / chunk_size)} {y = size + chunk_size - 1} h).1 (omega arith),
    )

pub chunk_of-has :
    (size chunk_size b : ℕ)
    → 0 < chunk_size
    → b < size
    → ((chunk_at size chunk_size (b / chunk_size)).start ≤ b)
      × (b < (chunk_at size chunk_size (b / chunk_size)).end)
unfolding chunk_at
chunk_of-has size chunk_size b h hb =
    ground (arith, div-mul-le_self b chunk_size, lt-div-mul-add {a = b} h)

-- and in no other.
pub chunk_at_unique :
    (size chunk_size b i : ℕ)
    → 0 < chunk_size
    → (chunk_at size chunk_size i).start ≤ b
    → b < (chunk_at size chunk_size i).end
    → i ≡ b / chunk_size
unfolding chunk_at
chunk_at_unique size chunk_size b i h low high =
    let least = (le-div_iff_mul-le {x = i} {y = b} h).1 low in
    let most = (div-lt_iff_lt-mul {x = b} {y = suc i} h).1 (ground arith) in omega arith

-- The chunks are not empty, none is larger than the chunk size, and all lie in the file.
pub chunk_at-bounds :
    (size chunk_size i : ℕ)
    → 0 < chunk_size
    → i < num_chunks size chunk_size
    → ((chunk_at size chunk_size i).start < (chunk_at size chunk_size i).end)
      × ((chunk_at size chunk_size i).end ≤ size)
      × ((chunk_at size chunk_size i).end ≤ (chunk_at size chunk_size i).start + chunk_size)
unfolding chunk_at num_chunks
chunk_at-bounds size chunk_size i h hi =
    let least = (le-div_iff_mul-le {x = suc i} {y = size + chunk_size - 1} h).0 (omega arith) in
    ground arith

-- The grid tiles the file: each offset below its size stands in exactly one chunk, whose index is
-- below the number of chunks, which is not empty, not larger than the chunk size and lies in the
-- file.
pub chunk_at-tiles :
    (size chunk_size b : ℕ)
    → 0 < chunk_size
    → b < size
    → (i : ℕ) × (i < num_chunks size chunk_size)
      × ((chunk_at size chunk_size i).start ≤ b)
      × (b < (chunk_at size chunk_size i).end)
      × ((chunk_at size chunk_size i).end ≤ size)
      × ((chunk_at size chunk_size i).end ≤ (chunk_at size chunk_size i).start + chunk_size)
      × ((j : ℕ)
          → (chunk_at size chunk_size j).start ≤ b
          → b < (chunk_at size chunk_size j).end
          → j ≡ i)
chunk_at-tiles size chunk_size b h hb =
    let fits = chunk_of-lt size chunk_size b h hb in
    let has = chunk_of-has size chunk_size b h hb in
    let bounds = chunk_at-bounds size chunk_size (b / chunk_size) h fits in
    (
      b / chunk_size,
      fits,
      has.0,
      has.1,
      bounds.1,
      bounds.2,
      λ j. chunk_at_unique size chunk_size b j h,
    )
