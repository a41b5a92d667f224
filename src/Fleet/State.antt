-- ===== src/Fleet/State.antt =====
-- internal/fleet/coordinator.go and messages.go: the state of the coordinator. Channels and pending
-- queries are pointers in the source: here they are numbers into a store. Times and durations are
-- nanoseconds.
use debswarm.Prelude.{
  ℕ, ◌+◌, Option, none, some, Bool, true, false, List, [], ◌==◌, if◌then◌else◌, ltb, GoString,
}
use debswarm.Prelude.Int.{ℤ}
use debswarm.Prelude.Assoc.{Map}

-- The values of a `chan error`: `nil`, or an error.
pub data FetchErr : Type 0 where
  peer_fetch_failed : FetchErr
  fetch_err : GoString → FetchErr

abbrev pub Signal : Type 0
Signal = Option FetchErr

-- `make(chan error, 1)`
pub record Chan : Type 0 where
  pub buffer : Option Signal
  pub closed : Bool

abbrev pub fresh_chan : Chan
fresh_chan = record { buffer = none; closed = false }

pub record FetchState : Type 0 where
  pub hash : GoString
  pub size : ℤ
  pub offset : ℤ
  pub fetcher : GoString  -- "" is this node
  pub nonce : ℕ
  pub start_time : ℕ
  pub last_update : ℕ
  pub waiters : List ℕ

-- A peer with its election nonce.
pub record FetchingResponse : Type 0 where
  pub peer : GoString
  pub nonce : ℕ

pub record DontHaveResponse : Type 0 where
  pub peer : GoString
  pub nonce : ℕ
  pub also_wanting : Bool

-- The four channels hold at most `capacity` responses each.
pub record PendingWant : Type 0 where
  pub capacity : ℕ
  pub have_chan : List GoString
  pub fetching_chan : List FetchingResponse
  pub want_chan : List FetchingResponse
  pub dont_have_chan : List DontHaveResponse
  pub nonce : ℕ
  pub done : Bool

pub record Config : Type 0 where
  pub claim_timeout : ℕ
  pub max_wait_time : ℕ
  pub allow_concurrent : ℕ
  pub refresh_interval : ℕ
  pub stale_timeout : ℕ

pub record Coordinator : Type 0 where
  pub config : Config
  pub has_sender : Bool
  pub in_flight : Map FetchState
  pub pending_wants : Map ℕ
  pub chans : ℕ → Chan
  pub next_chan : ℕ
  pub wants : ℕ → PendingWant
  pub next_want : ℕ

abbrev pub self : GoString
self = []

abbrev pub second : ℕ
second = 1_000_000_000

abbrev pub default_stale_timeout : ℕ
default_stale_timeout = 60_000_000_000

unfoldable pub default_config : Config
default_config = record {
  claim_timeout = 5_000_000_000;
  max_wait_time = 300_000_000_000;
  allow_concurrent = 1;
  refresh_interval = second;
  stale_timeout = default_stale_timeout;
}

-- What a pointer that nothing has been stored at reads as.
abbrev no_want : PendingWant
no_want = record {
  capacity = 0;
  have_chan = [];
  fetching_chan = [];
  want_chan = [];
  dont_have_chan = [];
  nonce = 0;
  done = false;
}

-- `New` without the two goroutines that it starts: `messageHandler` runs `handle_message`, and
-- `reaper` runs `reap_stale`.
unfoldable pub new : Option Config → Coordinator
unfolding default_config
new cfg =
    let given : Config = elim cfg [ none ↦ default_config | some c ↦ c ] in
    record {
      config = record given {
        stale_timeout =
            if given.stale_timeout == 0 then default_stale_timeout else given.stale_timeout;
      };
      has_sender = false;
      in_flight = [];
      pending_wants = [];
      chans = λ i. fresh_chan;
      next_chan = 0;
      wants = λ i. no_want;
      next_want = 0;
    }

unfoldable pub set_sender : Coordinator → Coordinator
set_sender c = record c { has_sender = true }

abbrev pub update {ℓ} : {A : Type ℓ} → (ℕ → A) → ℕ → A → ℕ → A
update f i v j = if j == i then v else f j

-- `time.Since(s.LastUpdate) > timeout`
unfoldable pub is_stale : ℕ → ℕ → FetchState → Bool
is_stale now timeout s = ltb (s.last_update + timeout) now
