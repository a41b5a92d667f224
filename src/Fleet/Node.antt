-- ===== src/Fleet/Node.antt =====
-- internal/fleet: a node as a whole. The goroutines of a node (requests, the message handler, the
-- reaper) take the steps of `Coordinator` and `Query` in any order, each step on its own.
pub mod Waiters
use debswarm.Prelude.{ℕ, ◌+◌, ◌≡◌, Option, some, List, GoString, Bool}
use debswarm.Prelude.Int.{ℤ}
use debswarm.Fleet.Message.{Message}
use debswarm.Fleet.State.{FetchErr, Config, FetchState, Coordinator, new, set_sender}
use debswarm.Fleet.Coordinator.{
  Outgoing, notify_fetching, notify_progress, notify_complete, notify_failed, reap_stale,
  handle_message,
}
use debswarm.Fleet.Query.{Query, Event, join, ask, on_event}
use debswarm.Fleet.Query.Accounts.{coordinator_of, strands_on}

-- One step, from a state to the next.
pub data Step (c c' : Coordinator) : Type 0 where
  connects : c' ≡ set_sender c → Step c c'
  fetching :
      (now nonce : ℕ) (hash : GoString) (size : ℤ)
      → c' ≡ (notify_fetching now nonce hash size c).0
      → Step c c'
  progress :
      (now : ℕ) (hash : GoString) (offset : ℤ) → c' ≡ notify_progress now hash offset c → Step c c'
  complete :
      (hash : GoString) (out : List Outgoing) → notify_complete hash c ≡ some (c', out) → Step c c'
  failed :
      (hash : GoString) (err : FetchErr) (out : List Outgoing)
      → notify_failed hash err c ≡ some (c', out)
      → Step c c'
  reaps : (now : ℕ) → reap_stale now c ≡ some c' → Step c c'
  handles :
      (has : Bool) (now : ℕ) (from : GoString) (msg : Message) (out : List Outgoing)
      → handle_message has now from msg c ≡ some (c', out)
      → Step c c'
  joins : (hash : GoString) (seen : FetchState) → c' ≡ (join hash seen c).0 → Step c c'
  asks :
      (hash : GoString) (size : ℤ) (nonce : ℕ) (peers sent_to : List GoString)
      → c' ≡ coordinator_of (ask hash size nonce peers sent_to c)
      → Step c c'
  hears : (now : ℕ) (e : Event) (q : Query) → c' ≡ coordinator_of (on_event now e q c) → Step c c'

-- How often the step leaves a channel in no entry, unclosed.
abbrev pub loses : {c c' : Coordinator} → Step c c' → ℕ → ℕ
loses {c} (hears now e q eq) i = strands_on e q c i
loses (connects eq) i = 0
loses _ i = 0

-- The states that a node comes to.
pub data Reach (cfg : Option Config) : Coordinator → Type 0 where
  here : Reach cfg (new cfg)
  next : {c c' : Coordinator} → Reach cfg c → Step c c' → Reach cfg c'

-- What the steps so far have lost.
abbrev pub lost_by : {cfg : Option Config} {c : Coordinator} → Reach cfg c → ℕ → ℕ
lost_by here i = 0
lost_by (next r st) i = lost_by r i + loses st i

-- Any number of steps.
pub data Steps (c : Coordinator) : Coordinator → Type 0 where
  stay : Steps c c
  after : {c' c'' : Coordinator} → Steps c c' → Step c' c'' → Steps c c''
