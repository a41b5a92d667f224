-- ===== src/Downloader/Chunked.antt =====
-- internal/downloader/downloader.go: `downloadChunked`, from the plan of the chunks to the check of
-- the hash. The results of the workers are a list in the order they arrive in. Reads and updates of
-- the database do not fail here, and a new download fails where its rows clash.
pub mod Collects
pub mod Delivers
use debswarm.Prelude.{
  ℕ, zero, suc, ◌+◌, ◌-◌, ◌*◌, Option, none, some, Bool, true, false, not, ◌&&◌, ◌||◌, List, [],
  ◌∷◌, ◌==◌, ◌⊎◌, inl, inr, if◌then◌else◌, length, codes, GoString, str_eq,
}
use debswarm.Downloader.Grid.{Chunk, num_chunks, chunk_at}
use debswarm.Downloader.Assembly.{File, empty_file, truncate, write_at, read_all}
use debswarm.Downloader.State.{
  DownloadRow, ChunkRow, Tables, in_progress, completed, is_completed, any, get_download,
  create_download, update_download_status, update_chunk, fail_download, complete_download,
  delete_download,
}

pub data Kind : Type 0 where
  peer mirror mixed resumed : Kind

-- What a worker sends of a chunk: its error, or the bytes and the kind of their source.
pub data Outcome : Type 0 where
  broke : GoString → Outcome
  got : Kind → List ℕ → Outcome

-- A result, and the number of its bytes that `WriteAt` gets onto the disk when it fails.
pub record Arrival : Type 0 where
  pub chunk : Chunk
  pub outcome : Outcome
  pub written : Option ℕ

pub data DownloadError : Type 0 where
  no_sources hash_mismatch open_failed allocate_failed read_failed : DownloadError
  chunk_failed : ℕ → GoString → DownloadError
  write_failed chunk_missing : ℕ → DownloadError

pub record DownloadResult : Type 0 where
  pub file : File
  pub hash : GoString
  pub size : ℕ
  pub source : Kind
  pub peer_bytes : ℕ
  pub mirror_bytes : ℕ
  pub chunks_total : ℕ
  pub chunks_from_p2p : ℕ

-- The variables of the loop over the results. `tables` is none while resuming is disabled.
pub record Collected : Type 0 where
  pub file : File
  pub received : ℕ → Bool
  pub first_error : Option DownloadError
  pub peer_bytes : ℕ
  pub mirror_bytes : ℕ
  pub chunks_from_p2p : ℕ
  pub tables : Option Tables

abbrev pub with_tables : (Tables → Tables) → Option Tables → Option Tables
with_tables f none = none
with_tables f (some t) = some (f t)

abbrev note_error : DownloadError → Option DownloadError → Option DownloadError
note_error e none = some e
note_error e (some first) = some first

abbrev pub take : ℕ → List ℕ → List ℕ
take zero bs = []
take (suc n) [] = []
take (suc n) (b ∷ bs) = b ∷ take n bs

abbrev pub is_peer : Kind → Bool
is_peer peer = true
is_peer _ = false

-- A chunk whose bytes are on the disk.
unfoldable pub keep : ℕ → GoString → ℕ → Kind → ℕ → File → Collected → Collected
keep now hash index kind len file s = record {
  file = file;
  received = λ i. (i == index) || s.received i;
  first_error = s.first_error;
  peer_bytes = if is_peer kind then s.peer_bytes + len else s.peer_bytes;
  mirror_bytes = if is_peer kind then s.mirror_bytes else s.mirror_bytes + len;
  chunks_from_p2p = if is_peer kind then suc s.chunks_from_p2p else s.chunks_from_p2p;
  tables = with_tables (update_chunk now hash index completed) s.tables;
}

unfoldable pub collect_one : ℕ → GoString → Arrival → Collected → Collected
unfolding keep
collect_one now hash a s = elim a.outcome [
  | broke msg ↦ record s { first_error = note_error (chunk_failed a.chunk.index msg) s.first_error }
  | got kind bytes ↦ elim a.written [
    | some n ↦ record s {
      file = write_at (take n bytes) a.chunk.start s.file;
      first_error = note_error (write_failed a.chunk.index) s.first_error;
    }
    | none ↦ keep now hash a.chunk.index kind (length bytes) (write_at bytes a.chunk.start s.file) s
  ]
]

unfoldable pub collect : ℕ → GoString → List Arrival → Collected → Collected
unfolding collect_one
collect now hash [] s = s
collect now hash (a ∷ later) s = collect now hash later (collect_one now hash a s)

-- The chunks that the database calls completed, where the assembly file can be trusted.
abbrev is_done : ℕ → ChunkRow → Bool
is_done i r = is_completed r.status && (r.index == i)

unfoldable pub completed_from_disk :
    Bool → ℕ → ℕ → Option (DownloadRow × List ChunkRow) → Option File → ℕ → Bool
completed_from_disk true size chunk_size (some (d, rows)) (some f) i =
    (d.chunk_size == chunk_size) && (f.size == size) && any (is_done i) rows
completed_from_disk _ size chunk_size _ _ i = false

-- The chunks of the n indices from i that are still to be downloaded.
unfoldable pub chunks_left : (ℕ → Bool) → ℕ → ℕ → ℕ → ℕ → List Chunk
chunks_left done size chunk_size i zero = []
chunks_left done size chunk_size i (suc n) =
    let rest = chunks_left done size chunk_size (suc i) n in
    if done i then rest else chunk_at size chunk_size i ∷ rest

-- The first of the n indices from i of a chunk that is neither received nor on the disk.
unfoldable pub find_missing : (ℕ → Bool) → ℕ → ℕ → Option ℕ
find_missing here i zero = none
find_missing here i (suc n) =
    let rest = find_missing here (suc i) n in if here i then rest else some i

-- What a run is given: the state manager with the cache may be missing, the directory of the
-- partial download may fail to be made, as may each call on the file.
pub record Setup : Type 0 where
  pub chunk_size : ℕ
  pub managed : Bool
  pub dir_made : Bool
  pub has_sources : Bool
  pub opens : Bool
  pub allocates : Bool
  pub reads : Bool

-- What a run leaves: the tables, the assembly file in the partial directory, and its result.
pub record After : Type 0 where
  pub tables : Tables
  pub disk : Option File
  pub result : DownloadResult ⊎ DownloadError

-- The tables, whether the download can be resumed later, and what was there of it before.
unfoldable pub open_state :
    ℕ
    → GoString
    → GoString
    → ℕ
    → Setup
    → Tables
    → Tables × Bool × Option (DownloadRow × List ChunkRow)
open_state now hash url size p t =
    if p.managed
    then elim (get_download hash t) [
      | some d ↦ (t, p.dir_made, some d)
      | none ↦ elim (create_download now hash url size p.chunk_size t) [
        | none ↦ (t, false, none)
        | some t' ↦ (t', p.dir_made, none)
      ]
    ]
    else (t, false, none)

-- The tables of a run: those of its own session, or those it was given where it has none.
abbrev pub stored : Tables → Option Tables → Tables
stored t none = t
stored t (some t') = t'

-- With a directory of its own, the file goes with a failed run.
abbrev pub left : Setup → File → Option File
left p f = if p.managed then some f else none

abbrev kind_of : ℕ → ℕ → ℕ → ℕ → Kind
kind_of left peer_bytes mirror_bytes recovered =
    if left == 0
    then resumed
    else if (peer_bytes == 0) && (recovered == 0)
    then mirror
    else if mirror_bytes == 0
    then peer
    else mixed

-- The check of the hash, and what follows it.
unfoldable pub verify :
    (List ℕ → GoString) → ℕ → GoString → ℕ → Setup → ℕ → Tables → Collected → After
verify hash_bytes now hash size p left_count t s =
    let hashed = hash_bytes (read_all s.file) in
    let chunks = num_chunks size p.chunk_size in
    if not p.reads
    then record { tables = stored t s.tables; disk = left p s.file; result = inr read_failed }
    else if str_eq hashed hash
    then record {
      tables =
          stored t
            (with_tables (λ u. delete_download hash (complete_download now hash u)) s.tables);
      disk = some s.file;
      result = inl (record {
        file = s.file;
        hash = hashed;
        size = size;
        source = kind_of left_count s.peer_bytes s.mirror_bytes (chunks - left_count);
        peer_bytes = s.peer_bytes;
        mirror_bytes = s.mirror_bytes;
        chunks_total = chunks;
        chunks_from_p2p = s.chunks_from_p2p;
      });
    }
    else record {
      tables = stored t (with_tables (fail_download now hash (codes "hash mismatch")) s.tables);
      disk = none;
      result = inr hash_mismatch;
    }

-- Of the text of an error only that of a worker is kept.
abbrev error_text : DownloadError → GoString
error_text (chunk_failed i msg) = msg
error_text e = []

-- The loop over the results, and the checks behind it.
unfoldable pub fetch_chunks :
    (List ℕ → GoString)
    → ℕ
    → GoString
    → ℕ
    → Setup
    → (ℕ → Bool)
    → ℕ
    → List Arrival
    → Tables
    → Collected
    → After
unfolding verify
fetch_chunks hash_bytes now hash size p done left_count arrivals t s0 =
    let s = collect now hash arrivals s0 in
    elim s.first_error [
      | some e ↦ record {
        tables = stored t (with_tables (fail_download now hash (error_text e)) s.tables);
        disk = left p s.file;
        result = inr e;
      }
      | none ↦ elim (find_missing (λ i. s.received i || done i) 0 (num_chunks size p.chunk_size)) [
        | some i ↦ record {
          tables = stored t s.tables;
          disk = left p s.file;
          result = inr (chunk_missing i);
        }
        | none ↦ verify hash_bytes now hash size p left_count t s
      ]
    ]

-- The assembly file as it is opened: in the partial directory, or in a new one of its own.
abbrev pub opened : Setup → Option File → File
opened p none = empty_file
opened p (some f) = if p.managed then f else empty_file

unfoldable pub run_chunks :
    (List ℕ → GoString)
    → ℕ
    → GoString
    → ℕ
    → Setup
    → (ℕ → Bool)
    → Option File
    → List Arrival
    → Tables
    → Option Tables
    → After
unfolding fetch_chunks
run_chunks hash_bytes now hash size p done disk arrivals t session =
    let file = truncate size (opened p disk) in
    let chunks = chunks_left done size p.chunk_size 0 (num_chunks size p.chunk_size) in
    let s : Collected = record {
      file = file;
      received = λ i. false;
      first_error = none;
      peer_bytes = 0;
      mirror_bytes = 0;
      chunks_from_p2p = 0;
      tables = session;
    } in
    if not p.opens
    then record { tables = stored t session; disk = disk; result = inr open_failed }
    else if not p.allocates
    then record {
      tables = stored t session;
      disk = left p (opened p disk);
      result = inr allocate_failed;
    }
    else if length chunks == 0
    then verify hash_bytes now hash size p 0 t s
    else if p.has_sources
    then fetch_chunks hash_bytes now hash size p done (length chunks) arrivals t
        (record s { tables = with_tables (update_download_status now hash in_progress) session })
    else record { tables = stored t session; disk = left p file; result = inr no_sources }

unfoldable pub download_chunked :
    (List ℕ → GoString)
    → ℕ
    → GoString
    → GoString
    → ℕ
    → Setup
    → Option File
    → List Arrival
    → Tables
    → After
unfolding run_chunks open_state
download_chunked hash_bytes now hash url size p disk arrivals t =
    let (t', resumes, existing) = open_state now hash url size p t in
    run_chunks hash_bytes now hash size p
      (completed_from_disk resumes size p.chunk_size existing disk) disk arrivals t'
      (if resumes then some t' else none)
