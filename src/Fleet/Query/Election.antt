-- ===== src/Fleet/Query/Election.antt =====
-- internal/fleet/coordinator.go: the election in `WantPackage`. Nodes that want the same package at
-- once hear each other's nonces, and the lowest one fetches.
use debswarm.Prelude.{
  ℕ, ◌≤◌, ◌<◌, ◌≡◌, refl, ◌⊎◌, none, some, true, List, [], ◌∷◌, arith, GoString, All,
}
use debswarm.Fleet.State.{FetchingResponse, Coordinator}
use debswarm.Fleet.Query.{
  Query, Progress, returns, waits, Event, have_from, competing, fetching_from, dont_have_from,
  claim_timeout, cancelled, wait_on, decide, fold_nonce, note_answer, go_on, on_event, run_query,
  fetch_wan, wait_peer,
}

-- A rival that does not beat w: another nonce is higher, and w's own message names w.
abbrev pub Yields : FetchingResponse → FetchingResponse → Type 0
Yields w r = (w.nonce < r.nonce) ⊎ (r ≡ w)

-- An answer of a fleet in which w has the lowest nonce: a rival's broadcast, or a reply that may
-- name its sender as a rival; or the claim window ends.
abbrev pub IsAnswer : FetchingResponse → Event → Type 0
IsAnswer w (competing r) = Yields w r
IsAnswer w (dont_have_from r) =
    r.also_wanting ≡ true → Yields w (record { peer = r.peer; nonce = r.nonce })
IsAnswer w claim_timeout = Unit
IsAnswer w _ = ⊥

wait_on-result :
    (now : ℕ) (q : Query) (r : FetchingResponse) (c : Coordinator)
    → (wait_on now q r c).1 ≡ wait_peer r.peer c.next_chan
unfolding wait_on
wait_on-result now q r c = ground arith

fold_nonce-loser :
    (nonce : ℕ) (w r : FetchingResponse) → Yields w r → fold_nonce nonce r (some w) ≡ some w
unfolding fold_nonce
fold_nonce-loser nonce w r y = ground arith

-- What has become of a query that has heard of w, the node with the lowest nonce.
abbrev pub IsLost : FetchingResponse → Progress → Type 0
IsLost w (returns c res) = (i : ℕ) × (res ≡ wait_peer w.peer i)
IsLost w (waits c q) = q.elected ≡ some w

decide-IsLost :
    (now : ℕ) (w : FetchingResponse) (q : Query) (c : Coordinator)
    → q.elected ≡ some w
    → (i : ℕ) × ((decide now q c).1 ≡ wait_peer w.peer i)
unfolding decide
decide-IsLost now w q c e = (c.next_chan, rw (e, decide) (wait_on-result now q w c))

on_event-IsLost :
    (now : ℕ) (w : FetchingResponse) (e : Event) (q : Query) (c : Coordinator)
    → IsAnswer w e
    → q.elected ≡ some w
    → IsLost w (on_event now e q c)
unfolding on_event go_on note_answer
on_event-IsLost now w (competing r) q c a h = rw h (fold_nonce-loser q.nonce w r a)
on_event-IsLost now w (dont_have_from r) q c a h = after (note_answer r q).awaiting refl
  where
    elects : (note_answer r q).elected ≡ some w
    elects = ground (arith, fold_nonce-loser q.nonce w (record { peer = r.peer; nonce = r.nonce }))

    after :
        (awaiting : List GoString)
        → (note_answer r q).awaiting ≡ awaiting
        → IsLost w (go_on now (note_answer r q) awaiting c)
    after [] e = decide-IsLost now w (note_answer r q) c elects
    after (p ∷ ps) e = elects
on_event-IsLost now w claim_timeout q c a h = decide-IsLost now w q c h
on_event-IsLost now w (have_from p) q c a h = absurd a
on_event-IsLost now w (fetching_from r) q c a h = absurd a
on_event-IsLost now w cancelled q c a h = absurd a

pub run_query-IsLost :
    (now : ℕ) (w : FetchingResponse) (es : List Event) (q : Query) (c : Coordinator)
    → All (IsAnswer w) es
    → q.elected ≡ some w
    → IsLost w (run_query now es q c)
unfolding run_query
run_query-IsLost now w [] q c a h = h
run_query-IsLost now w (e ∷ es) q c a h =
    go (on_event now e q c) (on_event-IsLost now w e q c a.0 h)
      (λ q' c'. run_query-IsLost now w es q' c' a.1)
  where
    go :
        (p : Progress)
        → IsLost w p
        → ((q' : Query) (c' : Coordinator)
            → q'.elected ≡ some w
            → IsLost w (run_query now es q' c'))
        → IsLost w (elim p [ returns c' r ↦ returns c' r | waits c' q' ↦ run_query now es q' c' ])
    go (returns c' r) l ih = l
    go (waits c' q') l ih = ih q' c' l

-- What has become of the query of the node with the lowest nonce, n.
abbrev pub IsWinning : ℕ → Progress → Type 0
IsWinning n (returns c res) = res ≡ fetch_wan
IsWinning n (waits c q) = (q.elected ≡ none) × (q.nonce ≡ n)

-- An answer of a fleet in which no rival has a nonce below n.
abbrev pub IsHarmless : ℕ → Event → Type 0
IsHarmless n (competing r) = n ≤ r.nonce
IsHarmless n (dont_have_from r) = r.also_wanting ≡ true → n ≤ r.nonce
IsHarmless n claim_timeout = Unit
IsHarmless n _ = ⊥

fold_nonce-winner :
    (nonce : ℕ) (r : FetchingResponse) → nonce ≤ r.nonce → fold_nonce nonce r none ≡ none
unfolding fold_nonce
fold_nonce-winner nonce r h = ground arith

decide-IsWinning :
    (now : ℕ) (q : Query) (c : Coordinator) → q.elected ≡ none → (decide now q c).1 ≡ fetch_wan
unfolding decide
decide-IsWinning now q c e = rw (e, decide)

on_event-IsWinning :
    (n now : ℕ) (e : Event) (q : Query) (c : Coordinator)
    → IsHarmless n e
    → (q.elected ≡ none) × (q.nonce ≡ n)
    → IsWinning n (on_event now e q c)
unfolding on_event go_on note_answer
on_event-IsWinning n now (competing r) q c a h = (ground (arith, fold_nonce-winner n r a), h.1)
on_event-IsWinning n now (dont_have_from r) q c a h = after (note_answer r q).awaiting
  where
    elects : (note_answer r q).elected ≡ none
    elects = ground (arith, fold_nonce-winner n (record { peer = r.peer; nonce = r.nonce }))

    after : (awaiting : List GoString) → IsWinning n (go_on now (note_answer r q) awaiting c)
    after [] = decide-IsWinning now (note_answer r q) c elects
    after (p ∷ ps) = (elects, h.1)
on_event-IsWinning n now claim_timeout q c a h = decide-IsWinning now q c h.0
on_event-IsWinning n now (have_from p) q c a h = absurd a
on_event-IsWinning n now (fetching_from r) q c a h = absurd a
on_event-IsWinning n now cancelled q c a h = absurd a

pub run_query-IsWinning :
    (n now : ℕ) (es : List Event) (q : Query) (c : Coordinator)
    → All (IsHarmless n) es
    → (q.elected ≡ none) × (q.nonce ≡ n)
    → IsWinning n (run_query now es q c)
unfolding run_query
run_query-IsWinning n now [] q c a h = h
run_query-IsWinning n now (e ∷ es) q c a h =
    go (on_event now e q c) (on_event-IsWinning n now e q c a.0 h)
      (λ q' c'. run_query-IsWinning n now es q' c' a.1)
  where
    go :
        (p : Progress)
        → IsWinning n p
        → ((q' : Query) (c' : Coordinator)
            → (q'.elected ≡ none) × (q'.nonce ≡ n)
            → IsWinning n (run_query now es q' c'))
        → IsWinning n
            (elim p [ returns c' r ↦ returns c' r | waits c' q' ↦ run_query now es q' c' ])
    go (returns c' r) l ih = l
    go (waits c' q') l ih = ih q' c' l
