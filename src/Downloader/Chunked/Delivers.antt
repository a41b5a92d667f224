-- ===== src/Downloader/Chunked/Delivers.antt =====
-- internal/downloader/downloader.go: a chunked download whose sources are honest succeeds, from
-- whatever is on the disk.
use debswarm.Prelude.{
  ℕ, zero, suc, ◌+◌, ◌/◌, ◌≤◌, ◌<◌, ◌≡◌, refl, ◌∙◌, ap, Option, none, some, Bool, true, false, ◌||◌,
  List, map, ◌==◌, inl, if◌then◌else◌, arith, length, All, GoString, str_eq_self,
}
use debswarm.Downloader.Grid.{Chunk, num_chunks, chunk_of-lt}
use debswarm.Downloader.Assembly.{File, truncate, slice, read_all, slice-agree}
use debswarm.Downloader.State.{Tables, any, update_download_status, in_progress}
use debswarm.Downloader.Chunked.{
  Kind, Collected, collect, chunks_left, find_missing, Setup, After, DownloadResult, opened, verify,
  fetch_chunks, run_chunks, open_state, completed_from_disk, download_chunked, with_tables,
}
use debswarm.Downloader.Chunked.Collects.{
  honest, IsRight, has_index, collect-IsRight, collect-received,
}

find_missing-none :
    (here : ℕ → Bool) (i n : ℕ)
    → ((j : ℕ) → i ≤ j → j < i + n → here j ≡ true)
    → find_missing here i n ≡ none
unfolding find_missing
find_missing-none here i zero h = refl
find_missing-none here i (suc n) h = ground (
  arith,
  h i (omega arith) (omega arith),
  find_missing-none here (suc i) n (λ j low high. h j (omega (arith, low)) (omega (arith, high))),
)

-- With no chunk left, all are on the disk.
chunks_left-none :
    (done : ℕ → Bool) (size chunk_size i n : ℕ)
    → length (chunks_left done size chunk_size i n) ≡ 0
    → (j : ℕ) → i ≤ j
    → j < i + n
    → done j ≡ true
unfolding chunks_left
chunks_left-none done size chunk_size i zero h j low high = absurd (omega (arith, low, high))
chunks_left-none done size chunk_size i (suc n) h j low high =
    let later : length (chunks_left done size chunk_size (suc i) n) ≡ 0
        → suc i ≤ j
        → j < suc i + n
        → done j ≡ true =
      λ e. chunks_left-none done size chunk_size (suc i) n e j in
    let here : done i ≡ true = ground arith in ground (arith, later, h, here)

not_empty : (n : ℕ) → (suc n == 0) ≡ false
not_empty n = ground arith

-- A run ends with a file of that content.
abbrev pub Delivers : (ℕ → ℕ) → ℕ → GoString → After → Type 0
Delivers content size hash a =
    (r : DownloadResult) × (a.result ≡ inl r)
    × (r.hash ≡ hash)
    × (r.file.size ≡ size)
    × ((b : ℕ) → b < size → r.file.byte b ≡ content b)

module _ (content : ℕ → ℕ) (hash_bytes : List ℕ → GoString) (now size : ℕ) (hash : GoString)
    (p : Setup) (done : ℕ → Bool) (hashed : hash_bytes (slice content 0 size) ≡ hash)
    (some_size : 0 < p.chunk_size) (reads : p.reads ≡ true) where
  verify-Delivers :
      (left_count : ℕ) (t : Tables) (s : Collected)
      → IsRight content size p.chunk_size done s
      → ((i : ℕ) → i < num_chunks size p.chunk_size → (s.received i || done i) ≡ true)
      → Delivers content size hash (verify hash_bytes now hash size p left_count t s)
  unfolding verify
  verify-Delivers left_count t s r all =
      let right : (b : ℕ) → b < size → s.file.byte b ≡ content b = λ b hb.
        r.right b hb (all (b / p.chunk_size) (chunk_of-lt size p.chunk_size b some_size hb)) in
      let bytes : read_all s.file ≡ slice content 0 size =
        rw r.sized (slice-agree s.file.byte content 0 size (λ b h. right b (omega (arith, h)))) in
      let same : hash_bytes (read_all s.file) ≡ hash = ap hash_bytes bytes ∙ hashed in
      rw reads (rw same (rw (str_eq_self hash) (_, refl, refl, r.sized, right)))

  fetch_chunks-Delivers :
      (left_count : ℕ) (ps : List (ℕ × Kind)) (t : Tables) (s : Collected)
      → All (λ q. q.0 < num_chunks size p.chunk_size) ps
      → IsRight content size p.chunk_size done s
      → ((i : ℕ) → i < num_chunks size p.chunk_size → done i ≡ false → any (has_index i) ps ≡ true)
      → Delivers content size hash (
          fetch_chunks hash_bytes now hash size p done left_count
            (map (honest content size p.chunk_size) ps)
            t
            s)
  unfolding fetch_chunks
  fetch_chunks-Delivers left_count ps t s fits r all =
      let s' = collect now hash (map (honest content size p.chunk_size) ps) s in
      let r' = collect-IsRight content size p.chunk_size some_size now hash done ps s fits r in
      let here : (i : ℕ) → i < num_chunks size p.chunk_size → (s'.received i || done i) ≡ true =
        λ i h.
          ground (
            arith,
            collect-received content size p.chunk_size some_size now hash ps s i,
            all i h,
          ) in
      rw (r'.clean, fetch_chunks)
        (rw
          (find_missing-none (λ i. s'.received i || done i) 0 (num_chunks size p.chunk_size)
            (λ j low high. here j (omega (arith, high))))
          (verify-Delivers left_count t s' r' here))

  run_chunks-Delivers :
      (disk : Option File) (ps : List (ℕ × Kind)) (t : Tables) (session : Option Tables)
      → (p.opens ≡ true) × (p.allocates ≡ true) × (p.has_sources ≡ true)
      → All (λ q. q.0 < num_chunks size p.chunk_size) ps
      → ((i : ℕ) → i < num_chunks size p.chunk_size → done i ≡ false → any (has_index i) ps ≡ true)
      → ((b : ℕ)
          → b < size
          → done (b / p.chunk_size) ≡ true
          → (truncate size (opened p disk)).byte b ≡ content b)
      → Delivers content size hash (
          run_chunks hash_bytes now hash size p done disk
            (map (honest content size p.chunk_size) ps)
            t
            session)
  unfolding run_chunks truncate
  run_chunks-Delivers disk ps t session (opens, allocates, sources) fits all trusted =
      rw opens (rw allocates (rw sources (go (length chunks) refl)))
    where
      chunks : List Chunk
      chunks = chunks_left done size p.chunk_size 0 (num_chunks size p.chunk_size)

      start : Option Tables → Collected
      start tables = record {
        file = truncate size (opened p disk);
        received = λ i. false;
        first_error = none;
        peer_bytes = 0;
        mirror_bytes = 0;
        chunks_from_p2p = 0;
        tables = tables;
      }

      start-IsRight :
          (tables : Option Tables) → IsRight content size p.chunk_size done (start tables)
      start-IsRight tables = record { sized = refl; clean = refl; right = λ b hb h. trusted b hb h }

      go :
          (n : ℕ)
          → length chunks ≡ n
          → Delivers content size hash (
              if length chunks == 0
              then verify hash_bytes now hash size p 0 t (start session)
              else fetch_chunks hash_bytes now hash size p done
                  (length chunks)
                  (map (honest content size p.chunk_size) ps)
                  t
                  (start (with_tables (update_download_status now hash in_progress) session)))
      go zero e = rw e (
          verify-Delivers 0 t (start session) (start-IsRight session) λ i h.
            chunks_left-none done size p.chunk_size 0 (num_chunks size p.chunk_size) e i
              (omega arith) (omega (arith, h)))
      go (suc n) e = rw e (
          rw (not_empty n) (
            fetch_chunks-Delivers (suc n) ps t
              (start (with_tables (update_download_status now hash in_progress) session)) fits
              (start-IsRight (with_tables (update_download_status now hash in_progress) session))
              all))

-- The chunks that a run does not download again.
abbrev pub on_disk : ℕ → GoString → GoString → ℕ → Setup → Option File → Tables → ℕ → Bool
on_disk now hash url size p disk t =
    let (t', resumes, existing) = open_state now hash url size p t in
    completed_from_disk resumes size p.chunk_size existing disk

-- A chunked download ends with a file of the right size and bytes, if the content has the hash
-- that is asked for, each chunk that is not on the disk arrives with its bytes, in any order and
-- any number of times, from any mix of sources, the chunks on the disk have their bytes, and the
-- calls on the file succeed.
pub download_chunked-Delivers :
    (content : ℕ → ℕ) (hash_bytes : List ℕ → GoString) (now size : ℕ) (hash url : GoString)
    (p : Setup) (disk : Option File) (ps : List (ℕ × Kind)) (t : Tables)
    → hash_bytes (slice content 0 size) ≡ hash
    → 0 < p.chunk_size
    → (p.opens ≡ true) × (p.allocates ≡ true) × (p.has_sources ≡ true) × (p.reads ≡ true)
    → All (λ q. q.0 < num_chunks size p.chunk_size) ps
    → ((i : ℕ)
        → i < num_chunks size p.chunk_size
        → on_disk now hash url size p disk t i ≡ false
        → any (has_index i) ps ≡ true)
    → ((b : ℕ)
        → b < size
        → on_disk now hash url size p disk t (b / p.chunk_size) ≡ true
        → (truncate size (opened p disk)).byte b ≡ content b)
    → Delivers content size hash (
        download_chunked hash_bytes now hash url size p disk
          (map (honest content size p.chunk_size) ps)
          t)
unfolding download_chunked
download_chunked-Delivers content hash_bytes now size hash url p disk ps t hashed some_size
      (opens, allocates, sources, reads) fits all trusted =
    let (t', resumes, existing) = open_state now hash url size p t in
    run_chunks-Delivers content hash_bytes now size hash p (on_disk now hash url size p disk t)
      hashed some_size reads disk ps t' (if resumes then some t' else none)
      (opens, allocates, sources) fits all trusted
