-- ===== src/Fleet/Coordinator.antt =====
-- internal/fleet/coordinator.go: the operations behind `Coordinator.mu`, each one critical section,
-- and the handlers of the messages of other nodes. A step that panics, or blocks, has no result.
pub mod Release
pub mod Accounts
use debswarm.Prelude.{
  ℕ, Option, none, some, Bool, true, false, not, ◌&&◌, ◌||◌, List, [], ◌∷◌, ◌++◌, ◌==◌, ltb, length,
  if◌then◌else◌, GoString, str_eq, ◌>>=◌,
}
use debswarm.Prelude.Int.{ℤ, pos, negsuc}
use debswarm.Prelude.Assoc.{Map, lookup, insert, delete}
use debswarm.Fleet.Message.{
  Message, msg_want_package, msg_have_package, msg_fetching, msg_fetch_progress, msg_fetched,
  msg_fetch_failed, msg_dont_have,
}
use debswarm.Fleet.State.{
  Signal, FetchErr, peer_fetch_failed, Chan, fresh_chan, FetchState, FetchingResponse,
  DontHaveResponse, PendingWant, Coordinator, self, update, is_stale,
}

-- `select { case ch <- s: default: }`, then `close(ch)`.
unfoldable pub deliver : Signal → Chan → Chan
deliver s ch = record {
  buffer = elim ch.buffer [ none ↦ some s | some old ↦ some old ];
  closed = true;
}

-- The loop over `state.Waiters`. To send on a closed channel, or to close it again, panics.
unfoldable pub release : Signal → List ℕ → (ℕ → Chan) → Option (ℕ → Chan)
unfolding deliver
release s [] chans = some chans
release s (i ∷ is) chans =
    let rest = release s is (update chans i (deliver s (chans i))) in
    if (chans i).closed then none else rest

-- The entry of a hash is taken out and its waiters are told.
unfoldable pub finish : GoString → Signal → FetchState → Coordinator → Option Coordinator
unfolding release
finish hash s state c = do
  chans ← release s state.waiters c.chans
  some (record c { chans = chans; in_flight = delete hash c.in_flight })

pub data Outgoing : Type 0 where
  send : GoString → Message → Outgoing
  broadcast : Message → Outgoing

abbrev pub message : ℕ → GoString → Message
message type hash = record { type = type; nonce = 0; hash = hash; size = pos 0; offset = pos 0 }

-- Nothing leaves the node before `SetSender`.
abbrev pub via_sender : Coordinator → Outgoing → List Outgoing
via_sender c out = if c.has_sender then out ∷ [] else []

unfoldable pub notify_fetching : ℕ → ℕ → GoString → ℤ → Coordinator → Coordinator × List Outgoing
notify_fetching now nonce hash size c = (
  elim (lookup hash c.in_flight) [
    | some state ↦ record c {
      in_flight =
          insert hash
            (record state {
              size = size;
              fetcher = self;
              nonce = nonce;
              start_time = now;
              last_update = now;
            })
            c.in_flight;
    }
    | none ↦ record c {
      in_flight =
          insert hash
            (record {
              hash = hash;
              size = size;
              offset = pos 0;
              fetcher = self;
              nonce = nonce;
              start_time = now;
              last_update = now;
              waiters = [];
            })
            c.in_flight;
    }
  ],
  via_sender c (broadcast (record (message msg_fetching hash) { nonce = nonce; size = size })),
)

unfoldable pub notify_progress : ℕ → GoString → ℤ → Coordinator → Coordinator
notify_progress now hash offset c = elim (lookup hash c.in_flight) [
  | none ↦ c
  | some state ↦ record c {
    in_flight = insert hash (record state { offset = offset; last_update = now }) c.in_flight;
  }
]

-- The result `none` is a panic.
unfoldable pub notify_complete : GoString → Coordinator → Option (Coordinator × List Outgoing)
unfolding finish
notify_complete hash c = elim (lookup hash c.in_flight) [
  | none ↦ some (c, via_sender c (broadcast (message msg_fetched hash)))
  | some state ↦ do
    c' ← finish hash none state c
    some (c', via_sender c (broadcast (record (message msg_fetched hash) { size = state.size })))
]

unfoldable pub notify_failed :
    GoString → FetchErr → Coordinator → Option (Coordinator × List Outgoing)
unfolding finish
notify_failed hash err c = elim (lookup hash c.in_flight) [
  | none ↦ some (c, via_sender c (broadcast (message msg_fetch_failed hash)))
  | some state ↦ do
    c' ← finish hash (some err) state c
    some (c', via_sender c (broadcast (message msg_fetch_failed hash)))
]

-- Of our own downloads, or with progress of late.
unfoldable pub is_kept : ℕ → ℕ → FetchState → Bool
unfolding is_stale
is_kept now timeout state = str_eq state.fetcher self || not (is_stale now timeout state)

-- The loop of `reapStale` over the entries.
unfoldable pub reap : ℕ → ℕ → Map FetchState → (ℕ → Chan) → Option (Map FetchState × (ℕ → Chan))
unfolding is_kept release
reap now timeout [] chans = some ([], chans)
reap now timeout ((hash, state) ∷ entries) chans = elim (is_kept now timeout state) [
  | true ↦ do (rest, chans') ← reap now timeout entries chans; some ((hash, state) ∷ rest, chans')
  | false ↦ do
    chans' ← release (some peer_fetch_failed) state.waiters chans
    reap now timeout entries chans'
]

unfoldable pub reap_stale : ℕ → Coordinator → Option Coordinator
unfolding reap
reap_stale now c = do
  (entries, chans) ← reap now c.config.stale_timeout c.in_flight c.chans
  some (record c { in_flight = entries; chans = chans })

unfoldable pub get_in_flight_count : Coordinator → ℕ
get_in_flight_count c = length c.in_flight

-- `select { case ch <- a: case <-pw.done: }`: the send waits while the channel is full, until the
-- query is done. `none` is that wait.
unfoldable pub offer {ℓ} : {A : Type ℓ} → PendingWant → List A → A → Option (List A)
offer w ch a =
    if ltb (length ch) w.capacity then some (ch ++ a ∷ []) else if w.done then some ch else none

abbrev pub set_want : Coordinator → ℕ → PendingWant → Coordinator
set_want c i w = record c { wants = update c.wants i w }

abbrev pub self_fetch : Option FetchState → Option FetchState
self_fetch none = none
self_fetch (some state) = if str_eq state.fetcher self then some state else none

-- The handlers below give `none` while the message handler is blocked on such a send, or where it
-- panics. `has` is the answer of `cache.Has(msg.Hash)`.
unfoldable pub handle_want_package :
    Bool → GoString → Message → Coordinator → Option (Coordinator × List Outgoing)
unfolding offer
handle_want_package true from msg c =
    some (c, via_sender c (send from (message msg_have_package msg.hash)))
handle_want_package false from msg c = elim (self_fetch (lookup msg.hash c.in_flight)) [
  | some state ↦ some (
    c,
    via_sender c (
        send from
          (record (message msg_fetching msg.hash) { nonce = state.nonce; size = state.size })),
  )
  | none ↦ elim (lookup msg.hash c.pending_wants) [
    | none ↦ some (c, via_sender c (send from (message msg_dont_have msg.hash)))
    | some i ↦ do
      ch ← offer (c.wants i) (c.wants i).want_chan (record { peer = from; nonce = msg.nonce })
      some (
        set_want c i (record (c.wants i) { want_chan = ch }),
        via_sender c (
            send from (record (message msg_dont_have msg.hash) {
              nonce = (c.wants i).nonce;
              offset = pos 1;
            })),
      )
  ]
]

-- `msg.Offset == 1`
abbrev pub is_one : ℤ → Bool
is_one (pos n) = n == 1
is_one (negsuc n) = false

unfoldable pub handle_dont_have : GoString → Message → Coordinator → Option Coordinator
unfolding offer
handle_dont_have from msg c = elim (lookup msg.hash c.pending_wants) [
  | none ↦ some c
  | some i ↦ do
    ch ←
        offer (c.wants i) (c.wants i).dont_have_chan
          (record { peer = from; nonce = msg.nonce; also_wanting = is_one msg.offset })
    some (set_want c i (record (c.wants i) { dont_have_chan = ch }))
]

unfoldable pub handle_have_package : GoString → Message → Coordinator → Option Coordinator
unfolding offer
handle_have_package from msg c = elim (lookup msg.hash c.pending_wants) [
  | none ↦ some c
  | some i ↦ do
    ch ← offer (c.wants i) (c.wants i).have_chan from
    some (set_want c i (record (c.wants i) { have_chan = ch }))
]

-- The part of `handleFetching` under the lock.
unfoldable pub record_fetching : ℕ → GoString → Message → Coordinator → Coordinator
record_fetching now from msg c = elim (lookup msg.hash c.in_flight) [
  | some state ↦ c
  | none ↦ record c {
    in_flight =
        insert msg.hash
          (record {
            hash = msg.hash;
            size = msg.size;
            offset = pos 0;
            fetcher = from;
            nonce = msg.nonce;
            start_time = now;
            last_update = now;
            waiters = [];
          })
          c.in_flight;
  }
]

-- Its part behind the lock.
unfoldable pub route_fetching : GoString → Message → Coordinator → Option Coordinator
unfolding offer
route_fetching from msg c = elim (lookup msg.hash c.pending_wants) [
  | none ↦ some c
  | some i ↦ do
    ch ← offer (c.wants i) (c.wants i).fetching_chan (record { peer = from; nonce = msg.nonce })
    some (set_want c i (record (c.wants i) { fetching_chan = ch }))
]

unfoldable pub handle_fetching : ℕ → GoString → Message → Coordinator → Option Coordinator
unfolding record_fetching route_fetching
handle_fetching now from msg c = route_fetching from msg (record_fetching now from msg c)

-- The entry of a hash, if it is that peer's.
abbrev pub fetch_of : GoString → Option FetchState → Option FetchState
fetch_of from none = none
fetch_of from (some state) = if str_eq state.fetcher from then some state else none

unfoldable pub handle_fetch_progress : ℕ → GoString → Message → Coordinator → Coordinator
handle_fetch_progress now from msg c = elim (fetch_of from (lookup msg.hash c.in_flight)) [
  | none ↦ c
  | some state ↦ record c {
    in_flight =
        insert msg.hash (record state { offset = msg.offset; last_update = now }) c.in_flight;
  }
]

unfoldable pub handle_fetched : GoString → Message → Coordinator → Option Coordinator
unfolding finish
handle_fetched from msg c = elim (fetch_of from (lookup msg.hash c.in_flight)) [
  | none ↦ some c
  | some state ↦ finish msg.hash none state c
]

unfoldable pub handle_fetch_failed : GoString → Message → Coordinator → Option Coordinator
unfolding finish
handle_fetch_failed from msg c = elim (fetch_of from (lookup msg.hash c.in_flight)) [
  | none ↦ some c
  | some state ↦ finish msg.hash (some peer_fetch_failed) state c
]

abbrev pub quiet : Option Coordinator → Option (Coordinator × List Outgoing)
quiet none = none
quiet (some c) = some (c, [])

-- The `switch` of `handleMessage`. An unknown type is skipped.
unfoldable pub handle_message :
    Bool → ℕ → GoString → Message → Coordinator → Option (Coordinator × List Outgoing)
handle_message has now from msg c =
    if msg.type == msg_want_package
    then handle_want_package has from msg c
    else if msg.type == msg_have_package
    then quiet (handle_have_package from msg c)
    else if msg.type == msg_fetching
    then quiet (handle_fetching now from msg c)
    else if msg.type == msg_fetch_progress
    then some (handle_fetch_progress now from msg c, [])
    else if msg.type == msg_fetched
    then quiet (handle_fetched from msg c)
    else if msg.type == msg_fetch_failed
    then quiet (handle_fetch_failed from msg c)
    else if msg.type == msg_dont_have
    then quiet (handle_dont_have from msg c)
    else some (c, [])
