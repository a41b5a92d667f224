-- ===== src/Fleet/Query.antt =====
-- internal/fleet/coordinator.go: `WantPackage`, cut where it waits or takes a lock. Between two of
-- these steps other goroutines may take any step of `Coordinator`.
pub mod Accounts
pub mod Election
pub mod Fetcher
use debswarm.Prelude.{
  ℕ, suc, Option, none, some, Bool, true, false, not, ◌&&◌, List, [], ◌∷◌, ◌++◌, ltb, length,
  if◌then◌else◌, GoString, str_eq, select,
}
use debswarm.Prelude.Int.{ℤ, pos}
use debswarm.Prelude.Assoc.{lookup, insert, delete}
use debswarm.Fleet.State.{
  Chan, fresh_chan, FetchState, FetchingResponse, DontHaveResponse, PendingWant, Coordinator, self,
  update,
}

-- The action with its provider and its channel.
pub data WantResult : Type 0 where
  fetch_wan : WantResult
  wait_peer : GoString → ℕ → WantResult
  fetch_lan : GoString → WantResult

-- `make(chan error, 1)`
unfoldable pub new_chan : Chan → Coordinator → Coordinator
new_chan ch c = record c { chans = update c.chans c.next_chan ch; next_chan = suc c.next_chan }

abbrev pub add_waiter : FetchState → ℕ → FetchState
add_waiter state i = record state { waiters = state.waiters ++ i ∷ [] }

-- The first look at the cache, whose answer is `has`, and at the entries under the read lock.
pub data Begin : Type 0 where
  cached asks : Begin
  joins : FetchState → Begin

unfoldable pub begin : Bool → GoString → Coordinator → Begin
begin true hash c = cached
begin false hash c = elim (lookup hash c.in_flight) [ some state ↦ joins state | none ↦ asks ]

-- The entry was there under the read lock, as `seen`. Under the write lock it may be gone.
unfoldable pub join : GoString → FetchState → Coordinator → Coordinator × WantResult
unfolding new_chan
join hash seen c = elim (lookup hash c.in_flight) [
  | some state ↦ (
    record (new_chan fresh_chan c) {
      in_flight = insert hash (add_waiter state c.next_chan) c.in_flight;
    },
    wait_peer seen.fetcher c.next_chan,
  )
  | none ↦ (new_chan (record { buffer = none; closed = true }) c, fetch_wan)
]

-- The local variables of a query that waits for answers.
pub record Query : Type 0 where
  pub hash : GoString
  pub size : ℤ
  pub nonce : ℕ
  pub pending : ℕ
  pub awaiting : List GoString
  pub elected : Option FetchingResponse

-- How a query goes on: it returns, or it waits for the next response.
pub data Progress : Type 0 where
  returns : Coordinator → WantResult → Progress
  waits : Coordinator → Query → Progress

-- The deferred function: the query is done, and no longer registered.
unfoldable pub unregister : GoString → ℕ → Coordinator → Coordinator
unregister hash i c = record c {
  wants = update c.wants i (record (c.wants i) { done = true });
  pending_wants = delete hash c.pending_wants;
}

-- With no peer that received the question, no answer can come.
unfoldable pub await_answers : Query → List GoString → Coordinator → Progress
unfolding unregister
await_answers q [] c = returns (unregister q.hash q.pending c) fetch_wan
await_answers q (p ∷ ps) c = waits c q

-- `WantPackage` behind its first look at the entries, which found none. `peers` is the answer of
-- `GetMDNSPeers`, and `sent_to` that of `BroadcastMessageTo`.
unfoldable pub ask : GoString → ℤ → ℕ → List GoString → List GoString → Coordinator → Progress
unfolding await_answers
ask hash size nonce [] sent_to c = returns c fetch_wan
ask hash size nonce (peer ∷ peers) sent_to c =
    let registered = record c {
      wants = update c.wants c.next_want (record {
        capacity = suc (length peers);
        have_chan = [];
        fetching_chan = [];
        want_chan = [];
        dont_have_chan = [];
        nonce = nonce;
        done = false;
      });
      next_want = suc c.next_want;
      pending_wants = insert hash c.next_want c.pending_wants;
    } in
    await_answers
      (record {
        hash = hash;
        size = size;
        nonce = nonce;
        pending = c.next_want;
        awaiting = if c.has_sender then sent_to else [];
        elected = none;
      })
      (if c.has_sender then sent_to else []) registered

-- What `select` received.
pub data Event : Type 0 where
  have_from : GoString → Event
  competing : FetchingResponse → Event
  fetching_from : FetchingResponse → Event
  dont_have_from : DontHaveResponse → Event
  claim_timeout cancelled : Event

-- The lowest competitor that beats our nonce.
unfoldable pub fold_nonce : ℕ → FetchingResponse → Option FetchingResponse → Option FetchingResponse
fold_nonce nonce r none = if ltb r.nonce nonce then some r else none
fold_nonce nonce r (some best) =
    if ltb r.nonce nonce && ltb r.nonce best.nonce then some r else some best

-- `delete(awaiting, peer)`
unfoldable pub answered : GoString → List GoString → List GoString
answered peer = select (λ p. not (str_eq p peer))

-- Another node fetches: this one waits on the entry, or makes one for that node.
unfoldable pub wait_on : ℕ → Query → FetchingResponse → Coordinator → Coordinator × WantResult
unfolding new_chan
wait_on now q r c = elim (lookup q.hash c.in_flight) [
  | some state ↦ (
    record (new_chan fresh_chan c) {
      in_flight = insert q.hash (add_waiter state c.next_chan) c.in_flight;
    },
    wait_peer r.peer c.next_chan,
  )
  | none ↦ (
    record (new_chan fresh_chan c) {
      in_flight =
          insert q.hash
            (record {
              hash = q.hash;
              size = q.size;
              offset = pos 0;
              fetcher = r.peer;
              nonce = r.nonce;
              start_time = now;
              last_update = now;
              waiters = c.next_chan ∷ [];
            })
            c.in_flight;
    },
    wait_peer r.peer c.next_chan,
  )
]

-- The entry of a download of our own. It takes the place of whatever entry there is.
unfoldable pub claim : ℕ → Query → Coordinator → Coordinator
claim now q c = record c {
  in_flight =
      insert q.hash
        (record {
          hash = q.hash;
          size = q.size;
          offset = pos 0;
          fetcher = self;
          nonce = q.nonce;
          start_time = now;
          last_update = now;
          waiters = [];
        })
        c.in_flight;
}

-- The function value `decide`.
unfoldable pub decide : ℕ → Query → Coordinator → Coordinator × WantResult
unfolding wait_on claim
decide now q c = elim q.elected [ some r ↦ wait_on now q r c | none ↦ (claim now q c, fetch_wan) ]

-- A return runs the deferred function.
abbrev pub finally : Query → Coordinator × WantResult → Progress
finally q r = returns (unregister q.hash q.pending r.0) r.1

-- A peer that races for the package enters the election, and no peer is awaited twice.
unfoldable pub note_answer : DontHaveResponse → Query → Query
note_answer r q =
    let rival : FetchingResponse = record { peer = r.peer; nonce = r.nonce } in
    record q {
      elected = if r.also_wanting then fold_nonce q.nonce rival q.elected else q.elected;
      awaiting = answered r.peer q.awaiting;
    }

-- The query decides as soon as no peer is left to answer.
unfoldable pub go_on : ℕ → Query → List GoString → Coordinator → Progress
unfolding unregister
go_on now q [] c = finally q (decide now q c)
go_on now q (p ∷ ps) c = waits c q

-- The body of the loop, by the case that `select` took. A cancelled query returns the error of its
-- context besides.
unfoldable pub on_event : ℕ → Event → Query → Coordinator → Progress
unfolding go_on note_answer
on_event now (have_from peer) q c = finally q (c, fetch_lan peer)
on_event now (competing r) q c = waits c (record q { elected = fold_nonce q.nonce r q.elected })
on_event now (fetching_from r) q c =
    if ltb r.nonce q.nonce then finally q (wait_on now q r c) else waits c q
on_event now (dont_have_from r) q c = let q' = note_answer r q in go_on now q' q'.awaiting c
on_event now claim_timeout q c = finally q (decide now q c)
on_event now cancelled q c = finally q (c, fetch_wan)

-- The loop over the events of one query, with no other step of the node in between.
unfoldable pub run_query : ℕ → List Event → Query → Coordinator → Progress
unfolding on_event
run_query now [] q c = waits c q
run_query now (e ∷ es) q c = elim (on_event now e q c) [
  | returns c' r ↦ returns c' r
  | waits c' q' ↦ run_query now es q' c'
]

-- The cases of `select`, and what each takes from the query's channels.
pub data Branch : Type 0 where
  on_have on_want on_fetching on_dont_have on_timer on_cancel : Branch

unfoldable pub receive : Branch → PendingWant → Option (Event × PendingWant)
receive on_have w = elim w.have_chan [
  | [] ↦ none
  | p ∷ rest ↦ some (have_from p, record w { have_chan = rest })
]
receive on_want w = elim w.want_chan [
  | [] ↦ none
  | r ∷ rest ↦ some (competing r, record w { want_chan = rest })
]
receive on_fetching w = elim w.fetching_chan [
  | [] ↦ none
  | r ∷ rest ↦ some (fetching_from r, record w { fetching_chan = rest })
]
receive on_dont_have w = elim w.dont_have_chan [
  | [] ↦ none
  | r ∷ rest ↦ some (dont_have_from r, record w { dont_have_chan = rest })
]
receive on_timer w = some (claim_timeout, w)
receive on_cancel w = some (cancelled, w)

-- One round of the loop; `none` where the case taken is not ready.
unfoldable pub select_step : Branch → ℕ → Query → Coordinator → Option Progress
unfolding receive on_event
select_step b now q c = elim (receive b (c.wants q.pending)) [
  | none ↦ none
  | some (e, w) ↦ some (on_event now e q (record c { wants = update c.wants q.pending w }))
]
