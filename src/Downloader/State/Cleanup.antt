-- ===== src/Downloader/State/Cleanup.antt =====
-- internal/downloader/state.go: what `CleanupStale` and `DeleteDownload` leave for the next
-- `CreateDownload` of the same hash.
use debswarm.Prelude.{
  ℕ, zero, suc, ◌<◌, ◌≡◌, refl, Option, none, some, Bool, true, false, ◌||◌, List, [], ◌∷◌, ◌++◌,
  arith, GoString, str_eq_self,
}
use debswarm.Downloader.Grid.{Chunk, num_chunks, grid, chunks_from, chunk_at}
use debswarm.Downloader.State.{
  ChunkRow, Tables, pending, any, is_chunk, insert_chunk, insert_chunks, create_download,
  cleanup_stale,
}

any-append : {A : Type 0} (p : A → Bool) (rs ss : List A) → any p (rs ++ ss) ≡ any p rs || any p ss
any-append p [] ss = refl
any-append p (r ∷ rs) ss = ground (arith, any-append p rs ss)

insert_chunk-clash :
    (hash : GoString) (c : Chunk) (rows : List ChunkRow)
    → any (is_chunk hash c.index) rows ≡ true
    → insert_chunk hash c rows ≡ none
unfolding insert_chunk
insert_chunk-clash hash c rows h = rw h

-- A row that is there stays there, and that of the chunk comes in.
insert_chunk-keeps :
    (p : ChunkRow → Bool) (hash : GoString) (c : Chunk) (rows rows' : List ChunkRow)
    → insert_chunk hash c rows ≡ some rows'
    → (any p rows ≡ true → any p rows' ≡ true) × (any (is_chunk hash c.index) rows' ≡ true)
unfolding insert_chunk
insert_chunk-keeps p hash c rows rows' e =
    let row : ChunkRow = record {
      download_id = hash;
      index = c.index;
      start = c.start;
      end = c.end;
      status = pending;
      completed_at = none;
    } in
    ground (
      arith,
      any-append p rows (row ∷ []),
      any-append (is_chunk hash c.index) rows (row ∷ []),
      str_eq_self hash,
    )

insert_chunks-keeps :
    (p : ChunkRow → Bool) (hash : GoString) (cs : List Chunk) (rows rows' : List ChunkRow)
    → any p rows ≡ true
    → insert_chunks hash cs rows ≡ some rows'
    → any p rows' ≡ true
unfolding insert_chunks
insert_chunks-keeps p hash [] rows rows' h e = cc
insert_chunks-keeps p hash (c ∷ cs) rows rows' h e =
    go (insert_chunk hash c rows) refl e (λ rs. insert_chunks-keeps p hash cs rs rows')
  where
    go :
        (o : Option (List ChunkRow))
        → insert_chunk hash c rows ≡ o
        → (elim o [ none ↦ none | some rs ↦ insert_chunks hash cs rs ]) ≡ some rows'
        → ((rs : List ChunkRow)
            → any p rs ≡ true
            → insert_chunks hash cs rs ≡ some rows'
            → any p rows' ≡ true)
        → any p rows' ≡ true
    go none f e ih = cc
    go (some rs) f e ih = ih rs ((insert_chunk-keeps p hash c rows rs f).0 h) e

first-keeps :
    (hash : GoString) (c : Chunk) (cs : List Chunk) (rows rows' : List ChunkRow)
    → insert_chunks hash (c ∷ cs) rows ≡ some rows'
    → any (is_chunk hash c.index) rows' ≡ true
unfolding insert_chunks
first-keeps hash c cs rows rows' e = go (insert_chunk hash c rows) refl e
  where
    go :
        (o : Option (List ChunkRow))
        → insert_chunk hash c rows ≡ o
        → (elim o [ none ↦ none | some rs ↦ insert_chunks hash cs rs ]) ≡ some rows'
        → any (is_chunk hash c.index) rows' ≡ true
    go none f e = cc
    go (some rs) f e =
        insert_chunks-keeps (is_chunk hash c.index) hash cs rs rows'
          (insert_chunk-keeps (is_chunk hash c.index) hash c rows rs f).1 e

-- A grid that is not empty begins with the chunk of index 0.
grid-first :
    (size chunk_size : ℕ)
    → 0 < num_chunks size chunk_size
    → (cs : List Chunk) × (grid size chunk_size ≡ chunk_at size chunk_size 0 ∷ cs)
unfolding grid chunks_from
grid-first size chunk_size h = go (num_chunks size chunk_size) h
  where
    go :
        (n : ℕ)
        → 0 < n
        → (cs : List Chunk) × (chunks_from size chunk_size 0 n ≡ chunk_at size chunk_size 0 ∷ cs)
    go zero h = absurd (omega (arith, h))
    go (suc n) h = (chunks_from size chunk_size 1 n, refl)

create_download-clash :
    (now : ℕ) (hash url : GoString) (size chunk_size : ℕ) (t : Tables)
    → 0 < num_chunks size chunk_size
    → any (is_chunk hash 0) t.chunks ≡ true
    → create_download now hash url size chunk_size t ≡ none
unfolding create_download insert_chunks chunk_at
create_download-clash now hash url size chunk_size t h there =
    let (cs, e) = grid-first size chunk_size h in
    let clash = insert_chunk-clash hash (chunk_at size chunk_size 0) t.chunks there in
    rw e (rw (clash, insert_chunks) (ground arith))

create_download-has :
    (now : ℕ) (hash url : GoString) (size chunk_size : ℕ) (t t' : Tables)
    → 0 < num_chunks size chunk_size
    → create_download now hash url size chunk_size t ≡ some t'
    → any (is_chunk hash 0) t'.chunks ≡ true
unfolding create_download chunk_at
create_download-has now hash url size chunk_size t t' h e =
    let (cs, f) = grid-first size chunk_size h in
    let stored : insert_chunks hash (grid size chunk_size) t.chunks ≡ some t'.chunks =
      ground arith in
    first-keeps hash (chunk_at size chunk_size 0) cs t.chunks t'.chunks (rw f at stored)

-- A download that was created once cannot be created again when `CleanupStale` has removed it: the
-- database does not enforce foreign keys, so its chunk rows are left, and the new ones clash.
pub cleanup_stale-create :
    (now : ℕ) (hash url : GoString) (size chunk_size : ℕ) (t t' : Tables)
    → 0 < num_chunks size chunk_size
    → create_download now hash url size chunk_size t ≡ some t'
    → (cutoff later : ℕ)
    → create_download later hash url size chunk_size (cleanup_stale false cutoff t').0 ≡ none
unfolding cleanup_stale
cleanup_stale-create now hash url size chunk_size t t' h e cutoff later =
    create_download-clash later hash url size chunk_size (cleanup_stale false cutoff t').0 h
      (create_download-has now hash url size chunk_size t t' h e)
