-- ===== src/Fleet/Query/Fetcher.antt =====
-- internal/fleet/coordinator.go: the outcome of the election for a whole fleet, and the end of the
-- wait for answers.
use debswarm.Prelude.{
  ℕ, ◌<◌, ◌≡◌, ◌≢◌, refl, ap, Option, none, some, true, false, ◌||◌, List, [], ◌∷◌, ◌++◌, map,
  arith, GoString, str_eq, Bool, All, All-append,
}
use debswarm.Fleet.State.{FetchingResponse, DontHaveResponse, Coordinator}
use debswarm.Fleet.Query.{
  Query, Progress, returns, waits, Event, competing, dont_have_from, claim_timeout, fold_nonce,
  answered, note_answer, go_on, on_event, run_query, fetch_wan, wait_peer, WantResult,
}
use debswarm.Fleet.Query.Election.{
  Yields, IsAnswer, IsLost, run_query-IsLost, IsHarmless, IsWinning, run_query-IsWinning,
}

abbrev IsReturned : Progress → Type 0
IsReturned (returns c r) = Unit
IsReturned (waits c q) = ⊥

-- The claim window always ends the query.
run_query-IsReturned :
    (now : ℕ) (es : List Event) (q : Query) (c : Coordinator)
    → IsReturned (run_query now (es ++ claim_timeout ∷ []) q c)
unfolding run_query on_event
run_query-IsReturned now [] q c = tt
run_query-IsReturned now (e ∷ es) q c = go (on_event now e q c) (run_query-IsReturned now es)
  where
    go :
        (p : Progress)
        → ((q' : Query) (c' : Coordinator)
            → IsReturned (run_query now (es ++ claim_timeout ∷ []) q' c'))
        → IsReturned (elim p [
          | returns c' r ↦ returns c' r
          | waits c' q' ↦ run_query now (es ++ claim_timeout ∷ []) q' c'
        ])
    go (returns c' r) ih = tt
    go (waits c' q') ih = ih q' c'

-- The rival that a query has found so far, if any, does not beat w.
abbrev IsBehind : FetchingResponse → Option FetchingResponse → Type 0
IsBehind w none = Unit
IsBehind w (some b) = Yields w b

fold_nonce-IsBehind :
    (nonce : ℕ) (w r : FetchingResponse) (o : Option FetchingResponse)
    → Yields w r
    → IsBehind w o
    → IsBehind w (fold_nonce nonce r o)
unfolding fold_nonce
fold_nonce-IsBehind nonce w r none y b = ground arith
fold_nonce-IsBehind nonce w r (some x) y b = ground arith

fold_nonce-w :
    (nonce : ℕ) (w : FetchingResponse) (o : Option FetchingResponse)
    → w.nonce < nonce
    → IsBehind w o
    → fold_nonce nonce w o ≡ some w
unfolding fold_nonce
fold_nonce-w nonce w none h b = ground arith
fold_nonce-w nonce w (some x) h b = ground arith

-- A query that hears rivals, w among them, and then any answers, has lost to w.
hears_w :
    (now : ℕ) (w : FetchingResponse) (rs : List FetchingResponse) (es : List Event) (q : Query)
    (c : Coordinator)
    → All (Yields w) rs
    → All (IsAnswer w) es
    → w.nonce < q.nonce
    → IsBehind w q.elected
    → IsLost w (run_query now (map competing rs ++ (competing w ∷ es)) q c)
unfolding run_query on_event
hears_w now w [] es q c y a h b =
    run_query-IsLost now w es (record q { elected = fold_nonce q.nonce w q.elected }) c a
      (fold_nonce-w q.nonce w q.elected h b)
hears_w now w (r ∷ rs) es q c y a h b =
    hears_w now w rs es (record q { elected = fold_nonce q.nonce r q.elected }) c y.1 a h
      (fold_nonce-IsBehind q.nonce w r q.elected y.0 b)

rivals_end :
    (now : ℕ) (w : FetchingResponse) (rs : List FetchingResponse) (es : List Event) (q : Query)
    (c : Coordinator)
    → IsReturned
        (run_query now (map competing rs ++ (competing w ∷ (es ++ claim_timeout ∷ []))) q c)
unfolding run_query on_event
rivals_end now w [] es q c =
    run_query-IsReturned now es (record q { elected = fold_nonce q.nonce w q.elected }) c
rivals_end now w (r ∷ rs) es q c =
    rivals_end now w rs es (record q { elected = fold_nonce q.nonce r q.elected }) c

won :
    (n : ℕ) (p : Progress)
    → IsWinning n p
    → IsReturned p
    → (c' : Coordinator) × (p ≡ returns c' fetch_wan)
won n (returns c r) v d = (c, ap (returns c) v)
won n (waits c q) v d = absurd d

lost :
    (w : FetchingResponse) (p : Progress)
    → IsLost w p
    → IsReturned p
    → (c' : Coordinator) × (i : ℕ) × (p ≡ returns c' (wait_peer w.peer i))
lost w (returns c r) v d = (c, v.0, ap (returns c) v.1)
lost w (waits c q) v d = absurd d

-- In a fleet where every other wanter of the package has a higher nonce than w, no peer has the
-- package or is fetching it, no query is cancelled, and the claim window ends every query: w's
-- query fetches from the WAN, and every other query that hears w's broadcast before the replies,
-- among any rivals', waits for w itself.
pub one_fetcher :
    (now : ℕ) (w : FetchingResponse) (qw : Query) (cw : Coordinator) (answers : List Event)
    (ql : Query) (cl : Coordinator) (rivals : List FetchingResponse) (replies : List Event)
    → (qw.elected ≡ none) × (qw.nonce ≡ w.nonce)
    → All (IsHarmless w.nonce) answers
    → (ql.elected ≡ none) × (w.nonce < ql.nonce)
    → All (Yields w) rivals
    → All (IsAnswer w) replies
    → ((c' : Coordinator) × (run_query now (answers ++ claim_timeout ∷ []) qw cw
          ≡ returns c' fetch_wan))
      × ((c' : Coordinator) × (i : ℕ) × (run_query now
              (map competing rivals ++ (competing w ∷ (replies ++ claim_timeout ∷ [])))
              ql
              cl
            ≡ returns c' (wait_peer w.peer i)))
one_fetcher now w qw cw answers ql cl rivals replies own harmless late yields answer = (
  won w.nonce _
      (run_query-IsWinning w.nonce now (answers ++ claim_timeout ∷ []) qw cw
        (All-append (IsHarmless w.nonce) answers (claim_timeout ∷ []) harmless (tt, tt)) own)
      (run_query-IsReturned now answers qw cw),
  lost w _
      (hears_w now w rivals (replies ++ claim_timeout ∷ []) ql cl yields
        (All-append (IsAnswer w) replies (claim_timeout ∷ []) answer (tt, tt)) late.1
        (rw late.0 tt))
      (rivals_end now w rivals replies ql cl),
)

-- Whether a peer is among those that answered.
abbrev pub has_answered : GoString → List DontHaveResponse → Bool
has_answered p [] = false
has_answered p (r ∷ rs) = str_eq p r.peer || has_answered p rs

answered-All :
    (r : DontHaveResponse) (rs : List DontHaveResponse) (ps : List GoString)
    → All (λ p. has_answered p (r ∷ rs) ≡ true) ps
    → All (λ p. has_answered p rs ≡ true) (answered r.peer ps)
unfolding answered
answered-All r rs [] a = tt
answered-All r rs (p ∷ ps) a = ground (arith, answered-All r rs ps a.1)

-- Once each peer that the question reached has answered that it does not have the package, the
-- query returns; no timer is needed, whether or not the peers are rivals.
pub run_query_ends :
    (now : ℕ) (rs : List DontHaveResponse) (q : Query) (c : Coordinator)
    → q.awaiting ≢ []
    → All (λ p. has_answered p rs ≡ true) q.awaiting
    → (c' : Coordinator) × (r : WantResult) × (run_query now (map dont_have_from rs) q c
        ≡ returns c' r)
unfolding run_query on_event
run_query_ends now [] q c some_left a = absurd (some_left (none_left q.awaiting a))
  where
    none_left : (ps : List GoString) → All (λ p. has_answered p [] ≡ true) ps → ps ≡ []
    none_left [] a = refl
    none_left (p ∷ ps) a = cc (a.0)
run_query_ends now (r ∷ rs) q c some_left a = go (answered r.peer q.awaiting) refl (λ left.
    run_query_ends now rs (note_answer r q) c left
      (unfold note_answer in answered-All r rs q.awaiting a))
  where
    Outcome : Progress → Type 0
    Outcome p = (c' : Coordinator) × (res : WantResult) × (p ≡ returns c' res)

    go :
        (ps : List GoString)
        → answered r.peer q.awaiting ≡ ps
        → ((note_answer r q).awaiting ≢ []
            → Outcome (run_query now (map dont_have_from rs) (note_answer r q) c))
        → Outcome (elim (go_on now (note_answer r q) (note_answer r q).awaiting c) [
          | returns c' res ↦ returns c' res
          | waits c' q' ↦ run_query now (map dont_have_from rs) q' c'
        ])
    go [] e ih = rw e (_, _, refl)
    go (p ∷ ps) e ih = rw e (ih (λ z. cc))
