-- ===== src/Downloader/State.antt =====
-- internal/downloader/state.go: the two tables of downloads and of their chunks. An operation is one
-- transaction; `none` is an error, after which the tables are as before. Times are Unix seconds.
pub mod Cleanup
use debswarm.Prelude.{
  ℕ, ◌+◌, ◌-◌, Option, none, some, Bool, true, false, not, ◌&&◌, ◌||◌, List, [], ◌∷◌, ◌++◌, map,
  ltb, ◌==◌, if◌then◌else◌, length, sum_by, select, GoString, str_eq,
}
use debswarm.Downloader.Grid.{Chunk, num_chunks, grid}

-- The status of a download or of a chunk, a string in the source.
pub data Status : Type 0 where
  pending in_progress completed failed : Status

abbrev pub is_completed : Status → Bool
is_completed completed = true
is_completed _ = false

abbrev pub is_failed : Status → Bool
is_failed failed = true
is_failed _ = false

pub record DownloadRow : Type 0 where
  pub id : GoString
  pub url : GoString
  pub expected_size : ℕ
  pub completed_size : Option ℕ
  pub chunk_size : ℕ
  pub total_chunks : ℕ
  pub status : Status
  pub created_at : ℕ
  pub updated_at : ℕ
  pub error : Option GoString
  pub retry_count : ℕ

pub record ChunkRow : Type 0 where
  pub download_id : GoString
  pub index : ℕ
  pub start : ℕ
  pub end : ℕ
  pub status : Status
  pub completed_at : Option ℕ

pub record Tables : Type 0 where
  pub downloads : List DownloadRow
  pub chunks : List ChunkRow

-- The rows of one download, and its chunk of one index.
abbrev pub is_download : GoString → DownloadRow → Bool
is_download hash d = str_eq d.id hash

abbrev pub is_of : GoString → ChunkRow → Bool
is_of hash r = str_eq r.download_id hash

abbrev pub is_chunk : GoString → ℕ → ChunkRow → Bool
is_chunk hash index r = is_of hash r && (r.index == index)

-- `UPDATE ... WHERE`
abbrev pub update_where {ℓ} : {A : Type ℓ} → (A → Bool) → (A → A) → List A → List A
update_where p f = map (λ r. if p r then f r else r)

abbrev pub any {ℓ} : {A : Type ℓ} → (A → Bool) → List A → Bool
any p [] = false
any p (r ∷ rs) = p r || any p rs

-- The row of a chunk that is not there yet. The primary key is the download with the index.
unfoldable pub insert_chunk : GoString → Chunk → List ChunkRow → Option (List ChunkRow)
insert_chunk hash c rows =
    if any (is_chunk hash c.index) rows
    then none
    else some (
        rows
        ++ record {
          download_id = hash;
          index = c.index;
          start = c.start;
          end = c.end;
          status = pending;
          completed_at = none;
        }
          ∷ [])

unfoldable pub insert_chunks : GoString → List Chunk → List ChunkRow → Option (List ChunkRow)
insert_chunks hash [] rows = some rows
insert_chunks hash (c ∷ cs) rows = elim (insert_chunk hash c rows) [
  | none ↦ none
  | some rows' ↦ insert_chunks hash cs rows'
]

unfoldable pub create_download : ℕ → GoString → GoString → ℕ → ℕ → Tables → Option Tables
create_download now hash url size chunk_size t =
    if any (is_download hash) t.downloads
    then none
    else elim (insert_chunks hash (grid size chunk_size) t.chunks) [
      | none ↦ none
      | some rows ↦ some (record {
        downloads =
            t.downloads
            ++ record {
              id = hash;
              url = url;
              expected_size = size;
              completed_size = some 0;
              chunk_size = chunk_size;
              total_chunks = num_chunks size chunk_size;
              status = pending;
              created_at = now;
              updated_at = now;
              error = none;
              retry_count = 0;
            }
              ∷ [];
        chunks = rows;
      })
    ]

abbrev pub find {ℓ} : {A : Type ℓ} → (A → Bool) → List A → Option A
find p [] = none
find p (r ∷ rs) = if p r then some r else find p rs

-- `ORDER BY chunk_index`
unfoldable pub insert_by_index : ChunkRow → List ChunkRow → List ChunkRow
insert_by_index r [] = r ∷ []
insert_by_index r (s ∷ rs) =
    let rest = insert_by_index r rs in if ltb s.index r.index then s ∷ rest else r ∷ s ∷ rs

unfoldable pub order_by_index : List ChunkRow → List ChunkRow
unfolding insert_by_index
order_by_index [] = []
order_by_index (r ∷ rs) = insert_by_index r (order_by_index rs)

unfoldable pub get_download : GoString → Tables → Option (DownloadRow × List ChunkRow)
get_download hash t = elim (find (is_download hash) t.downloads) [
  | none ↦ none
  | some d ↦ some (d, order_by_index (select (is_of hash) t.chunks))
]

unfoldable pub update_download_status : ℕ → GoString → Status → Tables → Tables
update_download_status now hash status t = record t {
  downloads =
      update_where (is_download hash) (λ d. record d { status = status; updated_at = now })
        t.downloads;
}

-- `SELECT SUM(end_offset - start_offset)`, which is NULL of no rows.
unfoldable pub sum_completed : GoString → List ChunkRow → Option ℕ
sum_completed hash rows = elim (select (λ r. is_of hash r && is_completed r.status) rows) [
  | [] ↦ none
  | r ∷ rs ↦ some (sum_by (λ s. s.end - s.start) (r ∷ rs))
]

unfoldable pub update_chunk : ℕ → GoString → ℕ → Status → Tables → Tables
unfolding sum_completed
update_chunk now hash index status t =
    let rows =
      update_where (is_chunk hash index)
        (λ r. record r {
          status = status;
          completed_at = if is_completed status then some now else none;
        })
        t.chunks in
    record {
      downloads =
          if is_completed status
          then update_where (is_download hash)
              (λ d. record d { completed_size = sum_completed hash rows; updated_at = now })
              t.downloads
          else t.downloads;
      chunks = rows;
    }

unfoldable pub complete_download : ℕ → GoString → Tables → Tables
unfolding update_download_status
complete_download now hash t = update_download_status now hash completed t

unfoldable pub fail_download : ℕ → GoString → GoString → Tables → Tables
fail_download now hash msg t = record t {
  downloads =
      update_where (is_download hash)
        (λ d. record d { status = failed; error = some msg; updated_at = now }) t.downloads;
}

unfoldable pub delete_download : GoString → Tables → Tables
delete_download hash t = record {
  downloads = select (λ d. not (is_download hash d)) t.downloads;
  chunks = select (λ r. not (is_of hash r)) t.chunks;
}

-- With `cascade`, whether the database enforces foreign keys: SQLite does not unless a pragma turns
-- it on.
abbrev pub is_stale_row : ℕ → DownloadRow → Bool
is_stale_row cutoff d = not (is_completed d.status) && ltb d.updated_at cutoff

unfoldable pub cleanup_stale : Bool → ℕ → Tables → Tables × ℕ
cleanup_stale cascade cutoff t =
    let kept = select (λ d. not (is_stale_row cutoff d)) t.downloads in
    (
      record {
        downloads = kept;
        chunks =
            if cascade
            then select (λ r. any (λ d. str_eq d.id r.download_id) kept) t.chunks
            else t.chunks;
      },
      length t.downloads - length kept,
    )

unfoldable pub get_pending_chunks : GoString → Tables → List ChunkRow
get_pending_chunks hash t =
    order_by_index (select (λ r. is_of hash r && not (is_completed r.status)) t.chunks)

-- The tables after it, or none where there is no failed download of the hash.
unfoldable pub mark_for_retry : ℕ → GoString → Tables → Option Tables
mark_for_retry now hash t =
    if any (λ d. is_download hash d && is_failed d.status) t.downloads
    then some (record {
      downloads =
          update_where (λ d. is_download hash d && is_failed d.status)
            (λ d. record d {
              status = pending;
              retry_count = d.retry_count + 1;
              updated_at = now;
              error = none;
            })
            t.downloads;
      chunks =
          update_where (λ r. is_of hash r && not (is_completed r.status))
            (λ r. record r { status = pending; completed_at = none }) t.chunks;
    })
    else none

unfoldable pub increment_retry_count : ℕ → GoString → Tables → Tables
increment_retry_count now hash t = record t {
  downloads =
      update_where (is_download hash)
        (λ d. record d { retry_count = d.retry_count + 1; updated_at = now }) t.downloads;
}
