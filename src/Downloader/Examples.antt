-- ===== src/Downloader/Examples.antt =====
-- The theorems of internal/downloader at concrete inputs.
use debswarm.Prelude.{
  ℕ, ◌+◌, ◌≤◌, ◌<◌, ◌≡◌, refl, none, some, true, false, List, [], ◌∷◌, ◌++◌, map, length, arith,
  codes, GoString, str_eq, ltb, ◌==◌, if◌then◌else◌, suc,
}
use debswarm.Downloader.Grid.{Chunk, num_chunks, chunk_at, grid, chunks_from, chunk_at-tiles}
use debswarm.Downloader.Assembly.{File, slice, truncate}
use debswarm.Downloader.State.{
  ChunkRow, Tables, insert_chunk, insert_chunks, completed, pending, create_download, cleanup_stale,
  get_download, order_by_index, insert_by_index,
}
use debswarm.Downloader.State.Cleanup.{cleanup_stale-create}
use debswarm.Downloader.Chunked.{
  Kind, Setup, broke, got, open_state, completed_from_disk, download_chunked,
}
use debswarm.Downloader.Chunked.Collects.{honest}
use debswarm.Downloader.Chunked.Delivers.{Delivers, download_chunked-Delivers}
use debswarm.Downloader.Racing.{
  RaceResult, RaceEvent, context_done, context_error, all_sent, reference, Reply, won, ended, fits,
  download_racing, download_racing_lem, download_chunk, download_chunk_lem,
}

chunk_at-tiles_example :
    (i : ℕ) × (i < num_chunks 5 2)
    × ((chunk_at 5 2 i).start ≤ 4)
    × (4 < (chunk_at 5 2 i).end)
    × ((chunk_at 5 2 i).end ≤ 5)
    × ((chunk_at 5 2 i).end ≤ (chunk_at 5 2 i).start + 2)
    × ((j : ℕ) → (chunk_at 5 2 j).start ≤ 4 → 4 < (chunk_at 5 2 j).end → j ≡ i)
chunk_at-tiles_example = chunk_at-tiles 5 2 4 (omega arith) (omega arith)

abbrev none_yet : Tables
none_yet = record { downloads = []; chunks = [] }

abbrev url : GoString
url = codes "u"

-- The tables that `CreateDownload` makes of a package of three bytes in chunks of two.
abbrev wanted : GoString
wanted = codes "p"

abbrev row_of : ℕ → ℕ → ℕ → ChunkRow
row_of index start end = record {
  download_id = wanted;
  index = index;
  start = start;
  end = end;
  status = pending;
  completed_at = none;
}

abbrev created : Tables
created = record {
  downloads =
      record {
        id = wanted;
        url = url;
        expected_size = 3;
        completed_size = some 0;
        chunk_size = 2;
        total_chunks = 2;
        status = pending;
        created_at = 7;
        updated_at = 7;
        error = none;
        retry_count = 0;
      }
      ∷ [];
  chunks = row_of 0 0 2 ∷ row_of 1 2 3 ∷ [];
}

cleanup_stale-create_example :
    create_download 99 wanted url 3 2 (cleanup_stale false 50 created).0 ≡ none
unfolding create_download num_chunks grid chunks_from chunk_at insert_chunks insert_chunk str_eq
cleanup_stale-create_example =
    cleanup_stale-create 7 wanted url 3 2 none_yet created (omega arith) refl 50 99

-- The first chunk is on the disk, and the second comes from a mirror.
abbrev begun : Tables
begun = record created {
  chunks = record (row_of 0 0 2) { status = completed; completed_at = some 8 } ∷ row_of 1 2 3 ∷ [];
}

abbrev letters : ℕ → ℕ
letters b = 65

abbrev half_file : File
half_file = record { size = 3; byte = λ b. if ltb b 2 then 65 else 0 }

abbrev setup : Setup
setup = record {
  chunk_size = 2;
  managed = true;
  dir_made = true;
  has_sources = true;
  opens = true;
  allocates = true;
  reads = true;
}

-- A stand-in for SHA-256, which names each content differently.
abbrev stand_in : List ℕ → GoString
stand_in bytes = if length bytes == 3 then wanted else bytes

download_chunked-Delivers_example : Delivers letters 3 wanted (
    download_chunked stand_in 9 wanted url 3 setup
      (some half_file)
      (map (honest letters 3 2) ((1, Kind.mirror) ∷ []))
      begun)
unfolding open_state get_download order_by_index insert_by_index str_eq completed_from_disk
    num_chunks truncate slice
download_chunked-Delivers_example =
    download_chunked-Delivers letters stand_in 9 3 wanted url setup (some half_file)
      ((1, Kind.mirror) ∷ []) begun refl (omega arith) (refl, refl, refl, refl) (omega arith, tt)
      (λ i h missing. ground (arith, h, missing)) (λ b h there. ground (arith, h, there))

abbrev right_bytes : List ℕ
right_bytes = 65 ∷ 65 ∷ 65 ∷ []

abbrev wrong_peer : RaceResult
wrong_peer = record { id = some (codes "q"); kind = Kind.peer; reply = some [] }

abbrev from_mirror : RaceResult
from_mirror = record { id = none; kind = Kind.mirror; reply = some right_bytes }

download_racing_lem_example :
    (download_racing stand_in wanted 2 (all_sent (wrong_peer ∷ from_mirror ∷ []))
      ≡ ended (won right_bytes Kind.mirror) (codes "q" ∷ []))
    × ((racers : ℕ) (taken : List RaceResult) (later : List RaceEvent)
        → length taken < racers
        → download_racing stand_in wanted racers (all_sent taken ++ context_done ∷ later)
          ≡ ended
              (reference stand_in wanted context_error taken).0
              (reference stand_in wanted context_error taken).1)
unfolding str_eq
download_racing_lem_example = download_racing_lem stand_in wanted wrong_peer (from_mirror ∷ [])

-- The first source sends too little, the second the two bytes of the chunk.
abbrev answers : ℕ → Reply
answers a =
    if a == 0
    then record { source = codes "q"; kind = Kind.peer; reply = some (65 ∷ []) }
    else record { source = codes "m"; kind = Kind.mirror; reply = some (65 ∷ 65 ∷ []) }

abbrev two_bytes : Chunk
two_bytes = record { index = 0; start = 0; end = 2 }

download_chunk_lem_example :
    ((k : ℕ)
      → k < 3
      → fits 2 (answers k) ≡ true
      → ((j : ℕ) → j < k → fits 2 (answers j) ≡ false)
      → (bytes : List ℕ) × ((answers k).reply ≡ some bytes)
        × (length bytes ≡ 2)
        × ((download_chunk answers two_bytes).outcome ≡ got (answers k).kind bytes)
        × ((download_chunk answers two_bytes).attempts ≡ suc k)
        × (length (download_chunk answers two_bytes).failures ≡ k))
    × (((k : ℕ) → k < 3 → fits 2 (answers k) ≡ false)
        → (msg : GoString) × ((download_chunk answers two_bytes).outcome ≡ broke msg)
          × ((download_chunk answers two_bytes).attempts ≡ 3)
          × (length (download_chunk answers two_bytes).failures ≡ 3))
download_chunk_lem_example = download_chunk_lem answers two_bytes
