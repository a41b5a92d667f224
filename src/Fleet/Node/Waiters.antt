-- ===== src/Fleet/Node/Waiters.antt =====
-- internal/fleet: the promise to those who wait.
use debswarm.Prelude.{
  ℕ, ◌+◌, ◌≤◌, ◌<◌, ◌≡◌, ◌≢◌, refl, Option, none, some, true, false, List, GoString, arith, count,
  str_eq_self,
}
use debswarm.Prelude.Assoc.{lookup, weigh, lookup-delete}
use debswarm.Fleet.Message.{Message, msg_fetched}
use debswarm.Fleet.State.{FetchErr, Config, FetchState, Coordinator, set_sender, fresh_chan}
use debswarm.Fleet.Coordinator.{
  Outgoing, notify_complete, notify_failed, reap_stale, handle_fetched, handle_fetch_failed,
  via_sender, broadcast, message,
}
use debswarm.Fleet.Coordinator.Accounts.{
  Accounts, new-Accounts, reap_stale-Accounts, finish-Accounts, waits_at, waits_in, waiter_open,
  chan_path,
}
use debswarm.Fleet.Coordinator.Accounts.Steps.{
  notify_fetching-Accounts, notify_progress-Accounts, notify_complete-Accounts,
  notify_failed-Accounts, handle_message-Accounts, handle_fetched-Accounts,
  handle_fetch_failed-Accounts,
}
use debswarm.Fleet.Query.Accounts.{
  join-Accounts, ask-Accounts, on_event-Accounts, coordinator_of, strands_on,
}
use debswarm.Fleet.Query.{Query, on_event, claim_timeout}
use debswarm.Fleet.Node.{
  Step, connects, fetching, progress, complete, failed, reaps, handles, joins, asks, hears, loses,
  Reach, here, next, lost_by, Steps, stay, after,
}

same_lost :
    (lost : ℕ → ℕ) (c c' : Coordinator) → c' ≡ c → Accounts lost c → Accounts (λ i. lost i + 0) c'
same_lost lost c c' e acc = rw e (record {
  distinct = acc.distinct;
  balance = λ i. omega (arith, acc.balance i);
  unsent = acc.unsent;
})

result-Accounts :
    (lost : ℕ → ℕ) (o : Option Coordinator) (c' d : Coordinator)
    → o ≡ some d
    → Accounts lost d
    → o ≡ some c'
    → Accounts (λ i. lost i + 0) c'
result-Accounts lost o c' d e acc f = same_lost lost d c' (cc) acc

Step-Accounts :
    (lost : ℕ → ℕ) (c c' : Coordinator) (st : Step c c')
    → Accounts lost c
    → Accounts (λ i. lost i + loses st i) c'
Step-Accounts lost c c' (connects e) acc = same_lost lost (set_sender c) c' e (
    unfold set_sender in
    record { distinct = acc.distinct; balance = acc.balance; unsent = acc.unsent })
Step-Accounts lost c c' (fetching now nonce hash size e) acc =
    same_lost lost _ c' e (notify_fetching-Accounts lost c acc now nonce hash size)
Step-Accounts lost c c' (progress now hash offset e) acc =
    same_lost lost _ c' e (notify_progress-Accounts lost c acc now hash offset)
Step-Accounts lost c c' (complete hash out e) acc =
    let (d, o, done, acc') = notify_complete-Accounts lost c acc hash in
    same_lost lost d c' (cc) acc'
Step-Accounts lost c c' (failed hash err out e) acc =
    let (d, o, done, acc') = notify_failed-Accounts lost c acc hash err in
    same_lost lost d c' (cc) acc'
Step-Accounts lost c c' (reaps now e) acc =
    let (d, done, acc') = reap_stale-Accounts lost now c acc in same_lost lost d c' (cc) acc'
Step-Accounts lost c c' (handles has now from msg out e) acc =
    same_lost lost c' c' refl (rw e at (handle_message-Accounts lost c acc has now from msg))
Step-Accounts lost c c' (joins hash seen e) acc =
    same_lost lost _ c' e (join-Accounts lost c acc hash seen)
Step-Accounts lost c c' (asks hash size nonce peers sent_to e) acc =
    same_lost lost _ c' e (ask-Accounts lost c hash size nonce peers sent_to acc)
Step-Accounts lost c c' (hears now ev q e) acc = rw e (on_event-Accounts lost c now ev q acc)

-- Whatever order the steps of a node come in: each waiter's channel that was made stands in one
-- entry, once, or has been closed, or a claim of this node has overwritten its entry; and nothing
-- is sent on a channel before it is closed.
pub Reach-Accounts :
    {cfg : Option Config} {c : Coordinator} (r : Reach cfg c) → Accounts (lost_by r) c
Reach-Accounts {cfg} here = new-Accounts cfg
Reach-Accounts (next {c = c} {c' = c'} r st) = Step-Accounts (lost_by r) c c' st (Reach-Accounts r)

-- In every state that a node comes to, the loops that tell waiters the outcome of a download end
-- with no panic: those of `NotifyComplete`, `NotifyFailed` and the reaper, and those behind a
-- `Fetched` or `FetchFailed` message.
pub Reach-no_panic :
    {cfg : Option Config} {c : Coordinator} (r : Reach cfg c) (now : ℕ) (hash from : GoString)
    (err : FetchErr) (msg : Message)
    → (notify_complete hash c ≢ none)
      × (notify_failed hash err c ≢ none)
      × (reap_stale now c ≢ none)
      × (handle_fetched from msg c ≢ none)
      × (handle_fetch_failed from msg c ≢ none)
Reach-no_panic {c = c} r now hash from err msg =
    let acc = Reach-Accounts r in
    let (c1, o1, e1, a1) = notify_complete-Accounts (lost_by r) c acc hash in
    let (c2, o2, e2, a2) = notify_failed-Accounts (lost_by r) c acc hash err in
    let (c3, e3, a3) = reap_stale-Accounts (lost_by r) now c acc in
    let (c4, e4, a4) = handle_fetched-Accounts (lost_by r) c acc from msg in
    let (c5, e5, a5) = handle_fetch_failed-Accounts (lost_by r) c acc from msg in
    (λ e. cc, λ e. cc, λ e. cc, λ e. cc, λ e. cc)

-- `NotifyComplete` of a hash with an entry closes the channel of each of its waiters with `nil` in
-- it, leaves all other channels alone and takes the entry out.
pub notify_complete_tells :
    {cfg : Option Config} {c : Coordinator} (r : Reach cfg c) (hash : GoString) (st : FetchState)
    → lookup hash c.in_flight ≡ some st
    → (c' : Coordinator) × (out : List Outgoing) × (notify_complete hash c ≡ some (c', out))
      × ((i : ℕ)
          → 0 < count i st.waiters
          → c'.chans i ≡ record { buffer = some none; closed = true })
      × ((i : ℕ) → count i st.waiters ≡ 0 → c'.chans i ≡ c.chans i)
      × (lookup hash c'.in_flight ≡ none)
unfolding notify_complete
notify_complete_tells {c = c} r hash st found =
    let acc = Reach-Accounts r in
    let (c', done, acc', rel, gone) = finish-Accounts (lost_by r) hash none st c acc found in
    (
      c',
      via_sender c (broadcast (record (message msg_fetched hash) { size = st.size })),
      rw (found, notify_complete) (rw done),
      λ i h.
          let was_open = waiter_open (lost_by r) hash st c i acc found h in
          chan_path (c'.chans i) (some none) true (rel.tells i h (acc.unsent i was_open))
            (ground (arith, rel.closes i)),
      λ i h. rel.keeps i h,
      rw gone (ground (arith, lookup-delete hash hash c.in_flight, str_eq_self hash)),
    )

later-Accounts :
    {c c' : Coordinator} (lost : ℕ → ℕ)
    → Accounts lost c
    → Steps c c'
    → (lost' : ℕ → ℕ) × Accounts lost' c' × ((i : ℕ) → lost i ≤ lost' i)
later-Accounts lost acc stay = (lost, acc, λ i. omega arith)
later-Accounts lost acc (after {c' = d} {c'' = d'} s st) =
    let (lost', acc', more) = later-Accounts lost acc s in
    ((λ i. lost' i + loses st i), Step-Accounts lost' d d' st acc', λ i. omega (arith, more i))

-- A query that decides to claim a package by itself (no rival has a lower nonce) while another
-- local request already waits on the entry of the same package strands that request: in every
-- later state its channel is open and empty, and no entry has it.
pub claim_strands :
    {cfg : Option Config} {c c' : Coordinator} (r : Reach cfg c) (now : ℕ) (q : Query) (i : ℕ)
    → q.elected ≡ none
    → 0 < waits_at q.hash c i
    → Steps (coordinator_of (on_event now claim_timeout q c)) c'
    → (c'.chans i ≡ fresh_chan) × (weigh (waits_in i) c'.in_flight ≡ 0)
claim_strands {c = c} {c' = c'} r now q i alone waiting later =
    let acc = on_event-Accounts (lost_by r) c now claim_timeout q (Reach-Accounts r) in
    let (lost', acc', more) = later-Accounts _ acc later in
    let is_open : (c'.chans i).closed ≡ false = ground (arith, acc'.balance i, more i, stranded) in
    (
      chan_path (c'.chans i) none false (acc'.unsent i is_open) is_open,
      ground (arith, acc'.balance i, more i, stranded),
    )
  where
    stranded : strands_on claim_timeout q c i ≡ waits_at q.hash c i
    stranded = unfold strands_on in rw alone
