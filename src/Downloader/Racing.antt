-- ===== src/Downloader/Racing.antt =====
-- internal/downloader/downloader.go: `downloadRacing`, all sources at once, and the retries of
-- `chunkWorker`. Which source `selectBest` takes for an attempt is a parameter.
use debswarm.Prelude.{
  ℕ, zero, suc, ◌+◌, ◌-◌, ◌≤◌, ◌<◌, ◌≡◌, refl, ◌∙◌, Option, none, some, Bool, true, false, List, [],
  ◌∷◌, ◌++◌, ◌==◌, leb, if◌then◌else◌, arith, length, codes, GoString, str_eq, Bool-cases, inl, inr,
  ◌⊎◌,
}
use debswarm.Downloader.Grid.{Chunk}
use debswarm.Downloader.Chunked.{Kind, is_peer, Outcome, broke, got}

-- What one racer sends: bytes or an error. `id` is the peer that can be blacklisted for it.
pub record RaceResult : Type 0 where
  pub id : Option GoString
  pub kind : Kind
  pub reply : Option (List ℕ)

-- What the loop takes next: a result, or the context that is done, by a cancellation or a deadline.
pub data RaceEvent : Type 0 where
  sends : RaceResult → RaceEvent
  context_done : RaceEvent

pub data RaceEnd : Type 0 where
  won : List ℕ → Kind → RaceEnd
  all_sources_failed context_error : RaceEnd

abbrev pub blamed : RaceResult → List GoString
blamed r = elim r.id [ none ↦ [] | some id ↦ if is_peer r.kind then id ∷ [] else [] ]

-- The loop over what it takes, `received` results of which have come. It gives the end of the race
-- and the peers to blacklist, and `none` while it waits for more.
unfoldable pub race :
    (List ℕ → GoString) → GoString → ℕ → ℕ → List RaceEvent → Option (RaceEnd × List GoString)
race hash_bytes expected racers received [] = none
race hash_bytes expected racers received (context_done ∷ events) = some (context_error, [])
race hash_bytes expected racers received (sends r ∷ events) =
    let rest = race hash_bytes expected racers (suc received) events in
    elim r.reply [
      | none ↦ if leb racers (suc received) then some (all_sources_failed, []) else rest
      | some bytes ↦
          if str_eq (hash_bytes bytes) expected
          then some (won bytes r.kind, [])
          else if leb racers (suc received)
          then some (all_sources_failed, blamed r)
          else elim rest [ none ↦ none | some (how, peers) ↦ some (how, blamed r ++ peers) ]
    ]

-- `downloadRacing`. No source at all is its own error.
pub data RaceOutcome : Type 0 where
  no_racers waiting : RaceOutcome
  ended : RaceEnd → List GoString → RaceOutcome

unfoldable pub download_racing : (List ℕ → GoString) → GoString → ℕ → List RaceEvent → RaceOutcome
unfolding race
download_racing hash_bytes expected zero events = no_racers
download_racing hash_bytes expected (suc n) events =
    elim (race hash_bytes expected (suc n) 0 events) [
      | none ↦ waiting
      | some (how, peers) ↦ ended how peers
    ]

-- The first result with the right bytes wins, each peer that sent wrong bytes before it is blamed,
-- and with no right bytes the race ends as `otherwise` says.
abbrev pub reference :
    (List ℕ → GoString) → GoString → RaceEnd → List RaceResult → RaceEnd × List GoString
reference hash_bytes expected otherwise [] = (otherwise, [])
reference hash_bytes expected otherwise (r ∷ rs) =
    let (how, peers) = reference hash_bytes expected otherwise rs in
    elim r.reply [
      | none ↦ (how, peers)
      | some bytes ↦
          if str_eq (hash_bytes bytes) expected
          then (won bytes r.kind, [])
          else (how, blamed r ++ peers)
    ]

append_nil : (s : List GoString) → s ++ [] ≡ s
append_nil [] = refl
append_nil (x ∷ s) = rw (append_nil s) refl

abbrev pub all_sent : List RaceResult → List RaceEvent
all_sent [] = []
all_sent (r ∷ rs) = sends r ∷ all_sent rs

race-reference :
    (hash_bytes : List ℕ → GoString) (expected : GoString) (racers received : ℕ) (r : RaceResult)
    (rs : List RaceResult)
    → racers ≡ received + length (r ∷ rs)
    → race hash_bytes expected racers received (all_sent (r ∷ rs))
      ≡ some (reference hash_bytes expected all_sources_failed (r ∷ rs))
unfolding race
race-reference hash_bytes expected racers received r [] h = ground (arith, append_nil (blamed r))
race-reference hash_bytes expected racers received r (q ∷ rs) h =
    let rest = race-reference hash_bytes expected racers (suc received) q rs (omega (arith, h)) in
    ground (arith, rest)

race-interrupted :
    (hash_bytes : List ℕ → GoString) (expected : GoString) (racers received : ℕ)
    (rs : List RaceResult) (later : List RaceEvent)
    → received + length rs < racers
    → race hash_bytes expected racers received (all_sent rs ++ context_done ∷ later)
      ≡ some (reference hash_bytes expected context_error rs)
unfolding race
race-interrupted hash_bytes expected racers received [] later h = refl
race-interrupted hash_bytes expected racers received (r ∷ rs) later h =
    let rest =
      race-interrupted hash_bytes expected racers (suc received) rs later (omega (arith, h)) in
    ground (arith, rest)

-- When the loop has taken the result of each of the racers, or, before that, that the context is
-- done, the race has ended: with the bytes of the first result taken whose hash is the one asked
-- for and the kind of its source; if there is none, with the failure of all sources or with the
-- error of the context; and the peers to blacklist are those that sent other bytes before.
pub download_racing_lem :
    (hash_bytes : List ℕ → GoString) (expected : GoString) (r : RaceResult) (rs : List RaceResult)
    → (download_racing hash_bytes expected (length (r ∷ rs)) (all_sent (r ∷ rs))
        ≡ ended
            (reference hash_bytes expected all_sources_failed (r ∷ rs)).0
            (reference hash_bytes expected all_sources_failed (r ∷ rs)).1)
      × ((racers : ℕ) (taken : List RaceResult) (later : List RaceEvent)
          → length taken < racers
          → download_racing hash_bytes expected racers (all_sent taken ++ context_done ∷ later)
            ≡ ended
                (reference hash_bytes expected context_error taken).0
                (reference hash_bytes expected context_error taken).1)
unfolding download_racing
download_racing_lem hash_bytes expected r rs = (
  rw (race-reference hash_bytes expected (length (r ∷ rs)) 0 r rs (omega arith), download_racing)
      refl,
  interrupted,
)
  where
    interrupted :
        (racers : ℕ) (taken : List RaceResult) (later : List RaceEvent)
        → length taken < racers
        → download_racing hash_bytes expected racers (all_sent taken ++ context_done ∷ later)
          ≡ ended
              (reference hash_bytes expected context_error taken).0
              (reference hash_bytes expected context_error taken).1
    interrupted zero taken later h = absurd (omega (arith, h))
    interrupted (suc n) taken later h =
        rw
          (
            race-interrupted hash_bytes expected (suc n) 0 taken later (omega (arith, h)),
            download_racing,
          )
          refl

-- The answer to one attempt, from the source that was chosen for it.
pub record Reply : Type 0 where
  pub source : GoString
  pub kind : Kind
  pub reply : Option (List ℕ)

abbrev pub max_chunk_retries : ℕ
max_chunk_retries = 3

pub record Attempts : Type 0 where
  pub outcome : Outcome
  pub attempts : ℕ
  pub failures : List GoString

abbrev pub fits : ℕ → Reply → Bool
fits len r = elim r.reply [ none ↦ false | some bytes ↦ length bytes == len ]

-- The error of a chunk after its last attempt.
abbrev failure : Reply → Outcome
failure r = elim r.reply [
  | none ↦ broke (codes "all retries failed")
  | some bytes ↦ broke (codes "incomplete chunk")
]

abbrev success : Reply → Outcome
success r = elim r.reply [ none ↦ broke [] | some bytes ↦ got r.kind bytes ]

-- The loop over n more attempts after the last one, which failed.
unfoldable pub retry : (ℕ → Reply) → ℕ → ℕ → ℕ → Reply → Attempts
retry replies len zero done last = record { outcome = failure last; attempts = done; failures = [] }
retry replies len (suc n) done last =
    let rest = retry replies len n (suc done) (replies done) in
    if fits len (replies done)
    then record { outcome = success (replies done); attempts = suc done; failures = [] }
    else record rest { failures = (replies done).source ∷ rest.failures }

-- One chunk of `chunkWorker`.
unfoldable pub download_chunk : (ℕ → Reply) → Chunk → Attempts
unfolding retry
download_chunk replies c =
    retry replies (c.end - c.start) max_chunk_retries 0
      (record { source = []; kind = Kind.mirror; reply = none })

-- The first reply that fits is taken.
retry-good :
    (replies : ℕ → Reply) (len n done : ℕ) (last : Reply) (k : ℕ)
    → done ≤ k
    → k < done + n
    → fits len (replies k) ≡ true
    → ((j : ℕ) → done ≤ j → j < k → fits len (replies j) ≡ false)
    → ((retry replies len n done last).outcome ≡ success (replies k))
      × ((retry replies len n done last).attempts ≡ suc k)
      × (length (retry replies len n done last).failures + done ≡ k)
unfolding retry
retry-good replies len zero done last k low high good early = absurd (omega (arith, low, high))
retry-good replies len (suc n) done last k low high good early =
    go (Bool-cases (done == k)) λ below.
      retry-good replies len n (suc done) (replies done) k below (omega (arith, high)) good
        λ j l h. early j (omega (arith, l)) h
  where
    go :
        ((done == k) ≡ true) ⊎ ((done == k) ≡ false)
        → (suc done ≤ k
            → ((retry replies len n (suc done) (replies done)).outcome ≡ success (replies k))
              × ((retry replies len n (suc done) (replies done)).attempts ≡ suc k)
              × (length (retry replies len n (suc done) (replies done)).failures + suc done ≡ k))
        → ((retry replies len (suc n) done last).outcome ≡ success (replies k))
          × ((retry replies len (suc n) done last).attempts ≡ suc k)
          × (length (retry replies len (suc n) done last).failures + done ≡ k)
    go (inl e) ih =
        let same : done ≡ k = ground arith in rw same (rw good (refl, refl, omega arith))
    go (inr e) ih =
        let below : suc done ≤ k = ground arith in
        let rest = ih below in
        rw (early done (omega arith) below) (rest.0, rest.1, omega (arith, rest.2))

retry-bad :
    (replies : ℕ → Reply) (len n done : ℕ) (last : Reply)
    → ((j : ℕ) → done ≤ j → j < done + n → fits len (replies j) ≡ false)
    → ((msg : GoString) × ((retry replies len n done last).outcome ≡ broke msg))
      × ((retry replies len n done last).attempts ≡ done + n)
      × (length (retry replies len n done last).failures ≡ n)
unfolding retry
retry-bad replies len zero done last bad = (last_broke last.reply refl, omega arith, omega arith)
  where
    last_broke :
        (o : Option (List ℕ)) → last.reply ≡ o → (msg : GoString) × (failure last ≡ broke msg)
    last_broke none e = (codes "all retries failed", rw e refl)
    last_broke (some bytes) e = (codes "incomplete chunk", rw e refl)
retry-bad replies len (suc n) done last bad =
    let rest =
      retry-bad replies len n (suc done) (replies done)
        (λ j low high. bad j (omega (arith, low)) (omega (arith, high))) in
    let here = bad done (omega arith) (omega arith) in
    (rw here rest.0, rw here (omega (arith, rest.1)), rw here (omega (arith, rest.2)))

success_got :
    (len : ℕ) (r : Reply)
    → fits len r ≡ true
    → (bytes : List ℕ) × (r.reply ≡ some bytes)
      × (length bytes ≡ len)
      × (success r ≡ got r.kind bytes)
success_got len r h = go r.reply refl h
  where
    go :
        (o : Option (List ℕ))
        → r.reply ≡ o
        → (elim o [ none ↦ false | some bytes ↦ length bytes == len ]) ≡ true
        → (bytes : List ℕ) × (r.reply ≡ some bytes)
          × (length bytes ≡ len)
          × (success r ≡ got r.kind bytes)
    go none e h = cc
    go (some bytes) e h = (bytes, e, ground arith, rw e refl)

-- The outcome of a chunk is decided by the first three replies: the first of the right length is
-- taken, and no more are asked for; with none, the chunk fails after three attempts, and as many
-- failures are recorded.
pub download_chunk_lem :
    (replies : ℕ → Reply) (c : Chunk)
    → ((k : ℕ)
        → k < 3
        → fits (c.end - c.start) (replies k) ≡ true
        → ((j : ℕ) → j < k → fits (c.end - c.start) (replies j) ≡ false)
        → (bytes : List ℕ) × ((replies k).reply ≡ some bytes)
          × (length bytes ≡ c.end - c.start)
          × ((download_chunk replies c).outcome ≡ got (replies k).kind bytes)
          × ((download_chunk replies c).attempts ≡ suc k)
          × (length (download_chunk replies c).failures ≡ k))
      × (((k : ℕ) → k < 3 → fits (c.end - c.start) (replies k) ≡ false)
          → (msg : GoString) × ((download_chunk replies c).outcome ≡ broke msg)
            × ((download_chunk replies c).attempts ≡ 3)
            × (length (download_chunk replies c).failures ≡ 3))
unfolding download_chunk
download_chunk_lem replies c = (
  λ k h good early.
      let none_yet : Reply = record { source = []; kind = Kind.mirror; reply = none } in
      let (o, a, f) =
        retry-good replies (c.end - c.start) 3 0 none_yet k (omega arith) (omega (arith, h)) good
          (λ j low high. early j high) in
      let (bytes, e, len, got_it) = success_got (c.end - c.start) (replies k) good in
      (bytes, e, len, o ∙ got_it, a, omega (arith, f)),
  λ bad.
      let none_yet : Reply = record { source = []; kind = Kind.mirror; reply = none } in
      let ((msg, o), a, f) =
        retry-bad replies (c.end - c.start) 3 0 none_yet
          (λ j low high. bad j (omega (arith, high))) in
      (msg, o, a, f),
)
