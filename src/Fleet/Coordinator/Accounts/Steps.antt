-- ===== src/Fleet/Coordinator/Accounts/Steps.antt =====
-- internal/fleet/coordinator.go: every step of a node, and what it does to the waiters' channels.
use debswarm.Prelude.{
  ◌>>=◌, ℕ, ◌≡◌, inl, inr, Option, none, some, true, false, List, arith, Option-cases, GoString,
  Bool,
}
use debswarm.Prelude.Int.{ℤ}
use debswarm.Prelude.Assoc.{lookup}
use debswarm.Fleet.Message.{Message, msg_fetched, msg_fetch_failed}
use debswarm.Fleet.State.{FetchErr, FetchState, PendingWant, Coordinator, peer_fetch_failed}
use debswarm.Fleet.Coordinator.{
  Outgoing, notify_fetching, notify_progress, notify_complete, notify_failed, handle_message,
  handle_want_package, handle_dont_have, handle_have_package, handle_fetching, record_fetching,
  route_fetching, handle_fetch_progress, handle_fetched, handle_fetch_failed, offer, fetch_of,
  self_fetch, via_sender, broadcast, set_want, quiet, message,
}
use debswarm.Fleet.Coordinator.Accounts.{Accounts, insert-Accounts, finish-Accounts}

-- What holds of the result of a step, if it is not blocked.
abbrev pub Ensures {ℓ κ} : {A : Type ℓ} → (A → Type κ) → Option A → Type κ
Ensures P none = Unit
Ensures P (some a) = P a

Ensures-bind {ℓ κ μ} :
    {A : Type ℓ} {B : Type κ} (P : B → Type μ) (o : Option A) (f : A → Option B)
    → ((a : A) → Ensures P (f a))
    → Ensures P (o >>= f)
Ensures-bind P none f h = tt
Ensures-bind P (some a) f h = h a

Ensures-quiet :
    (P : Coordinator → Type 0) (o : Option Coordinator)
    → Ensures P o
    → Ensures (λ r. P r.0) (quiet o)
Ensures-quiet P none h = tt
Ensures-quiet P (some c) h = h

-- The steps that only route a response to a query.
module _ (lost : ℕ → ℕ) (c : Coordinator) (acc : Accounts lost c) where
  set_want-Accounts : (i : ℕ) (w : PendingWant) → Accounts lost (set_want c i w)
  set_want-Accounts i w = record {
    distinct = acc.distinct;
    balance = acc.balance;
    unsent = acc.unsent;
  }

  route_fetching-Accounts :
      (from : GoString) (msg : Message) → Ensures (Accounts lost) (route_fetching from msg c)
  unfolding route_fetching
  route_fetching-Accounts from msg = elim (Option-cases (lookup msg.hash c.pending_wants)) [
    | inl e ↦ rw (e, route_fetching) acc
    | inr (i, e) ↦
        rw (e, route_fetching)
          (Ensures-bind (Accounts lost) (offer (c.wants i) (c.wants i).fetching_chan _) _
            (λ ch. set_want-Accounts i _))
  ]

  handle_have_package-Accounts :
      (from : GoString) (msg : Message) → Ensures (Accounts lost) (handle_have_package from msg c)
  unfolding handle_have_package
  handle_have_package-Accounts from msg = elim (Option-cases (lookup msg.hash c.pending_wants)) [
    | inl e ↦ rw (e, handle_have_package) acc
    | inr (i, e) ↦
        rw (e, handle_have_package)
          (Ensures-bind (Accounts lost) (offer (c.wants i) (c.wants i).have_chan from) _
            (λ ch. set_want-Accounts i _))
  ]

  handle_dont_have-Accounts :
      (from : GoString) (msg : Message) → Ensures (Accounts lost) (handle_dont_have from msg c)
  unfolding handle_dont_have
  handle_dont_have-Accounts from msg = elim (Option-cases (lookup msg.hash c.pending_wants)) [
    | inl e ↦ rw (e, handle_dont_have) acc
    | inr (i, e) ↦
        rw (e, handle_dont_have)
          (Ensures-bind (Accounts lost) (offer (c.wants i) (c.wants i).dont_have_chan _) _
            (λ ch. set_want-Accounts i _))
  ]

  handle_want_package-Accounts :
      (has : Bool) (from : GoString) (msg : Message)
      → Ensures (λ r. Accounts lost r.0) (handle_want_package has from msg c)
  unfolding handle_want_package
  handle_want_package-Accounts true from msg = acc
  handle_want_package-Accounts false from msg =
      elim (Option-cases (self_fetch (lookup msg.hash c.in_flight))) [
        | inr (st, e) ↦ rw (e, handle_want_package) acc
        | inl e ↦ elim (Option-cases (lookup msg.hash c.pending_wants)) [
          | inl f ↦ rw (e, handle_want_package) (rw f acc)
          | inr (i, f) ↦
              rw (e, handle_want_package)
                (rw f (
                  Ensures-bind (λ r. Accounts lost r.0) (offer (c.wants i) (c.wants i).want_chan _)
                    _ (λ ch. set_want-Accounts i _)))
        ]
      ]

module _ (lost : ℕ → ℕ) (c : Coordinator) (acc : Accounts lost c) where
  pub notify_fetching-Accounts :
      (now nonce : ℕ) (hash : GoString) (size : ℤ)
      → Accounts lost (notify_fetching now nonce hash size c).0
  unfolding notify_fetching
  notify_fetching-Accounts now nonce hash size = elim (Option-cases (lookup hash c.in_flight)) [
    | inl e ↦
        rw (e, notify_fetching)
          (insert-Accounts lost lost hash _ c.chans c.next_chan c acc acc.unsent
            (λ i. ground arith))
    | inr (st, e) ↦
        rw (e, notify_fetching)
          (insert-Accounts lost lost hash _ c.chans c.next_chan c acc acc.unsent
            (λ i. ground arith))
  ]

  pub notify_progress-Accounts :
      (now : ℕ) (hash : GoString) (offset : ℤ) → Accounts lost (notify_progress now hash offset c)
  unfolding notify_progress
  notify_progress-Accounts now hash offset = elim (Option-cases (lookup hash c.in_flight)) [
    | inl e ↦ rw (e, notify_progress) acc
    | inr (st, e) ↦
        rw (e, notify_progress)
          (insert-Accounts lost lost hash _ c.chans c.next_chan c acc acc.unsent
            (λ i. ground arith))
  ]

  pub notify_complete-Accounts :
      (hash : GoString)
      → (c' : Coordinator) × (out : List Outgoing) × (notify_complete hash c ≡ some (c', out))
        × Accounts lost c'
  unfolding notify_complete
  notify_complete-Accounts hash = elim (Option-cases (lookup hash c.in_flight)) [
    | inl e ↦ (c, via_sender c (broadcast (message msg_fetched hash)), rw (e, notify_complete), acc)
    | inr (st, e) ↦
        let (c', done, acc', r, same) = finish-Accounts lost hash none st c acc e in
        (
          c',
          via_sender c (broadcast (record (message msg_fetched hash) { size = st.size })),
          rw (e, notify_complete) (rw done),
          acc',
        )
  ]

  pub notify_failed-Accounts :
      (hash : GoString) (err : FetchErr)
      → (c' : Coordinator) × (out : List Outgoing) × (notify_failed hash err c ≡ some (c', out))
        × Accounts lost c'
  unfolding notify_failed
  notify_failed-Accounts hash err = elim (Option-cases (lookup hash c.in_flight)) [
    | inl e ↦
        (c, via_sender c (broadcast (message msg_fetch_failed hash)), rw (e, notify_failed), acc)
    | inr (st, e) ↦
        let (c', done, acc', r, same) = finish-Accounts lost hash (some err) st c acc e in
        (
          c',
          via_sender c (broadcast (message msg_fetch_failed hash)),
          rw (e, notify_failed) (rw done),
          acc',
        )
  ]

  fetch_of_found :
      (from : GoString) (o : Option FetchState) {st : FetchState}
      → fetch_of from o ≡ some st
      → o ≡ some st
  fetch_of_found from none h = h
  fetch_of_found from (some x) h = ground arith

  pub handle_fetched-Accounts :
      (from : GoString) (msg : Message)
      → (c' : Coordinator) × (handle_fetched from msg c ≡ some c') × Accounts lost c'
  unfolding handle_fetched
  handle_fetched-Accounts from msg =
      elim (Option-cases (fetch_of from (lookup msg.hash c.in_flight))) [
        | inl e ↦ (c, rw (e, handle_fetched), acc)
        | inr (st, e) ↦
            let (c', done, acc', r, same) =
              finish-Accounts lost msg.hash none st c acc (fetch_of_found from _ e) in
            (c', rw (e, handle_fetched) done, acc')
      ]

  pub handle_fetch_failed-Accounts :
      (from : GoString) (msg : Message)
      → (c' : Coordinator) × (handle_fetch_failed from msg c ≡ some c') × Accounts lost c'
  unfolding handle_fetch_failed
  handle_fetch_failed-Accounts from msg =
      elim (Option-cases (fetch_of from (lookup msg.hash c.in_flight))) [
        | inl e ↦ (c, rw (e, handle_fetch_failed), acc)
        | inr (st, e) ↦
            let (c', done, acc', r, same) =
              finish-Accounts lost msg.hash (some peer_fetch_failed) st c acc
                (fetch_of_found from _ e) in
            (c', rw (e, handle_fetch_failed) done, acc')
      ]

  handle_fetch_progress-Accounts :
      (now : ℕ) (from : GoString) (msg : Message)
      → Accounts lost (handle_fetch_progress now from msg c)
  unfolding handle_fetch_progress
  handle_fetch_progress-Accounts now from msg =
      elim (Option-cases (fetch_of from (lookup msg.hash c.in_flight))) [
        | inl e ↦ rw (e, handle_fetch_progress) acc
        | inr (st, e) ↦
            let found = fetch_of_found from (lookup msg.hash c.in_flight) e in
            rw (e, handle_fetch_progress)
              (insert-Accounts lost lost msg.hash _ c.chans c.next_chan c acc acc.unsent
                (λ i. ground arith))
      ]

  record_fetching-Accounts :
      (now : ℕ) (from : GoString) (msg : Message) → Accounts lost (record_fetching now from msg c)
  unfolding record_fetching
  record_fetching-Accounts now from msg = elim (Option-cases (lookup msg.hash c.in_flight)) [
    | inl e ↦
        rw (e, record_fetching)
          (insert-Accounts lost lost msg.hash _ c.chans c.next_chan c acc acc.unsent
            (λ i. ground arith))
    | inr (st, e) ↦ rw (e, record_fetching) acc
  ]

  -- Each message that is handled keeps the accounts.
  pub handle_message-Accounts :
      (has : Bool) (now : ℕ) (from : GoString) (msg : Message)
      → Ensures (λ r. Accounts lost r.0) (handle_message has now from msg c)
  unfolding handle_message handle_fetching
  handle_message-Accounts has now from msg = ground (
    arith,
    handle_want_package-Accounts lost c acc has from msg,
    Ensures-quiet Q _ (handle_have_package-Accounts lost c acc from msg),
    Ensures-quiet Q _ (
        route_fetching-Accounts lost (record_fetching now from msg c)
          (record_fetching-Accounts now from msg) from msg),
    handle_fetch_progress-Accounts now from msg,
    Ensures-quiet Q _ fetched,
    Ensures-quiet Q _ failed,
    Ensures-quiet Q _ (handle_dont_have-Accounts lost c acc from msg),
  )
    where
      Q : Coordinator → Type 0
      Q c' = Accounts lost c'

      fetched : Ensures Q (handle_fetched from msg c)
      fetched = let (c', e, acc') = handle_fetched-Accounts from msg in rw e acc'

      failed : Ensures Q (handle_fetch_failed from msg c)
      failed = let (c', e, acc') = handle_fetch_failed-Accounts from msg in rw e acc'
