-- ===== src/Downloader/Chunked/Collects.antt =====
-- internal/downloader/downloader.go: what the loop over the results makes of the assembly file when
-- the sources send the right bytes.
use debswarm.Prelude.{
  ℕ, ◌-◌, ◌/◌, ◌<◌, ◌≡◌, refl, ◌∙◌, none, Bool, true, ◌||◌, List, [], ◌∷◌, map, ◌==◌, arith, All,
  GoString,
}
use debswarm.Downloader.Grid.{num_chunks, chunk_at, chunk_of-has, chunk_at-bounds}
use debswarm.Downloader.Assembly.{
  File, write_at, slice, length-slice, write_at-slice, write_at-size,
}
use debswarm.Downloader.State.{any}
use debswarm.Downloader.Chunked.{Kind, got, Arrival, Collected, keep, collect_one, collect}

-- The bytes of a chunk, from a source of that kind.
abbrev pub honest : (ℕ → ℕ) → ℕ → ℕ → ℕ × Kind → Arrival
honest content size chunk_size (i, kind) =
    let c = chunk_at size chunk_size i in
    record {
      chunk = c;
      outcome = got kind (slice content c.start (c.end - c.start));
      written = none;
    }

-- The file has the right bytes wherever a chunk has been received or was on the disk.
pub record IsRight (content : ℕ → ℕ) (size chunk_size : ℕ) (done : ℕ → Bool) (s : Collected)
    : Type 0 where
  pub sized : s.file.size ≡ size
  pub clean : s.first_error ≡ none
  pub right :
      (b : ℕ)
      → b < size
      → (s.received (b / chunk_size) || done (b / chunk_size)) ≡ true
      → s.file.byte b ≡ content b

abbrev pub has_index : ℕ → ℕ × Kind → Bool
has_index i p = i == p.0

or_rotate : (a b c : Bool) → (a || (b || c)) ≡ ((b || a) || c)
or_rotate a b c = ground arith

module _ (content : ℕ → ℕ) (size chunk_size : ℕ) (some_size : 0 < chunk_size) where
  collect_one-byte :
      (i : ℕ) (f : File) (b : ℕ)
      → i < num_chunks size chunk_size
      → b < size
      → (b / chunk_size ≡ i
          → (write_at
                (slice content
                  (chunk_at size chunk_size i).start
                  ((chunk_at size chunk_size i).end - (chunk_at size chunk_size i).start))
                (chunk_at size chunk_size i).start
                f).byte
              b
            ≡ content b)
        × (f.byte b ≡ content b
            → (write_at
                  (slice content
                    (chunk_at size chunk_size i).start
                    ((chunk_at size chunk_size i).end - (chunk_at size chunk_size i).start))
                  (chunk_at size chunk_size i).start
                  f).byte
                b
              ≡ content b)
  collect_one-byte i f b hi hb =
      let has = chunk_of-has size chunk_size b some_size hb in
      let bounds = chunk_at-bounds size chunk_size i some_size hi in
      let c = chunk_at size chunk_size i in
      let w = write_at-slice content c.start (c.end - c.start) f b in
      (λ e. w.0 (rw e at has.0) (omega (arith, (rw e at has.1))), λ e. ground (arith, w, e))

  collect_one-IsRight :
      (now : ℕ) (hash : GoString) (done : ℕ → Bool) (p : ℕ × Kind) (s : Collected)
      → p.0 < num_chunks size chunk_size
      → IsRight content size chunk_size done s
      → IsRight content size chunk_size done
          (collect_one now hash (honest content size chunk_size p) s)
  unfolding collect_one keep chunk_at
  collect_one-IsRight now hash done (i, kind) s hi r = record {
    sized =
        let c = chunk_at size chunk_size i in
        let bounds = chunk_at-bounds size chunk_size i some_size hi in
        let len = length-slice content c.start (c.end - c.start) in
        let kept =
          write_at-size (slice content c.start (c.end - c.start)) c.start s.file
            (omega (arith, bounds, len, r.sized)) in
        omega (arith, kept, r.sized);
    clean = r.clean;
    right = λ b hb h.
        let mine : ((b / chunk_size == i) || s.received (b / chunk_size) || done (b / chunk_size))
            ≡ true =
          h in
        ground (arith, collect_one-byte i s.file b hi hb, r.right b hb, mine);
  }

  pub collect-IsRight :
      (now : ℕ) (hash : GoString) (done : ℕ → Bool) (ps : List (ℕ × Kind)) (s : Collected)
      → All (λ p. p.0 < num_chunks size chunk_size) ps
      → IsRight content size chunk_size done s
      → IsRight content size chunk_size done
          (collect now hash (map (honest content size chunk_size) ps) s)
  unfolding collect
  collect-IsRight now hash done [] s h r = r
  collect-IsRight now hash done (p ∷ ps) s h r =
      collect-IsRight now hash done ps _ h.1 (collect_one-IsRight now hash done p s h.0 r)

  pub collect-received :
      (now : ℕ) (hash : GoString) (ps : List (ℕ × Kind)) (s : Collected) (j : ℕ)
      → (collect now hash (map (honest content size chunk_size) ps) s).received j
        ≡ any (has_index j) ps || s.received j
  unfolding collect collect_one keep chunk_at
  collect-received now hash [] s j = refl
  collect-received now hash (p ∷ ps) s j =
      let rest =
        collect-received now hash ps (collect_one now hash (honest content size chunk_size p) s)
          j in
      rest ∙ or_rotate (any (has_index j) ps) (j == p.0) (s.received j)
