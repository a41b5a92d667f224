-- ===== src/Fleet/Query/Accounts.antt =====
-- internal/fleet/coordinator.go: what `WantPackage` does to the waiters' channels.
use debswarm.Prelude.{
  ℕ, suc, ◌+◌, ◌≡◌, inl, inr, none, some, List, [], ◌∷◌, ltb, if◌then◌else◌, arith, count-append,
  Option-cases, GoString, Bool-cases,
}
use debswarm.Prelude.Int.{ℤ}
use debswarm.Prelude.Assoc.{lookup}
use debswarm.Fleet.State.{FetchState, FetchingResponse, Coordinator}
use debswarm.Fleet.Coordinator.Accounts.{Accounts, waits_at, insert-Accounts}
use debswarm.Fleet.Query.{
  Query, Progress, returns, waits, Event, have_from, competing, fetching_from, dont_have_from,
  claim_timeout, cancelled, join, ask, unregister, wait_on, claim, decide, note_answer, on_event,
  go_on, await_answers,
}

abbrev pub coordinator_of : Progress → Coordinator
coordinator_of (returns c r) = c
coordinator_of (waits c q) = c

-- How often a query that decides leaves a channel in no entry: it claims the package for this
-- node, and the entry that it overwrites had waiters.
abbrev pub strands : Query → Coordinator → ℕ → ℕ
strands q c i = elim q.elected [ none ↦ waits_at q.hash c i | some r ↦ 0 ]

abbrev strands_last : Query → List GoString → Coordinator → ℕ → ℕ
strands_last q [] c i = strands q c i
strands_last q (p ∷ ps) c i = 0

-- The same of one round of the loop.
unfoldable pub strands_on : Event → Query → Coordinator → ℕ → ℕ
strands_on claim_timeout q c i = strands q c i
strands_on (dont_have_from r) q c i = let q' = note_answer r q in strands_last q' q'.awaiting c i
strands_on _ q c i = 0

module _ (lost : ℕ → ℕ) (c : Coordinator) (acc : Accounts lost c) where
  pub join-Accounts : (hash : GoString) (seen : FetchState) → Accounts lost (join hash seen c).0
  unfolding join
  join-Accounts hash seen = elim (Option-cases (lookup hash c.in_flight)) [
    | inl e ↦
        rw (e, join)
          (record {
            distinct = acc.distinct;
            balance = λ i. ground (arith, acc.balance i);
            unsent = λ i h. ground (arith, acc.unsent i);
          })
    | inr (st, e) ↦
        rw (e, join)
          (insert-Accounts lost lost hash _ _ (suc c.next_chan) c acc
            (λ i h. ground (arith, acc.unsent i))
            (λ i. ground (arith, count-append i st.waiters (c.next_chan ∷ []), acc.balance i)))
  ]

  pub wait_on-Accounts :
      (now : ℕ) (q : Query) (r : FetchingResponse) → Accounts lost (wait_on now q r c).0
  unfolding wait_on
  wait_on-Accounts now q r = elim (Option-cases (lookup q.hash c.in_flight)) [
    | inl e ↦
        rw (e, wait_on)
          (insert-Accounts lost lost q.hash _ _ (suc c.next_chan) c acc
            (λ i h. ground (arith, acc.unsent i)) (λ i. ground (arith, acc.balance i)))
    | inr (st, e) ↦
        rw (e, wait_on)
          (insert-Accounts lost lost q.hash _ _ (suc c.next_chan) c acc
            (λ i h. ground (arith, acc.unsent i))
            (λ i. ground (arith, count-append i st.waiters (c.next_chan ∷ []), acc.balance i)))
  ]

  claim-Accounts :
      (now : ℕ) (q : Query) → Accounts (λ i. lost i + waits_at q.hash c i) (claim now q c)
  unfolding claim
  claim-Accounts now q =
      insert-Accounts lost (λ i. lost i + waits_at q.hash c i) q.hash _ c.chans c.next_chan c acc
        acc.unsent (λ i. omega arith)

relabel :
    (lost lost' : ℕ → ℕ) (c : Coordinator)
    → Accounts lost c
    → ((i : ℕ) → lost' i ≡ lost i)
    → Accounts lost' c
relabel lost lost' c acc h = record {
  distinct = acc.distinct;
  balance = λ i. omega (arith, h i, acc.balance i);
  unsent = acc.unsent;
}

unregister-Accounts :
    (lost : ℕ → ℕ) (c : Coordinator) (hash : GoString) (j : ℕ)
    → Accounts lost c
    → Accounts lost (unregister hash j c)
unfolding unregister
unregister-Accounts lost c hash j acc = record {
  distinct = acc.distinct;
  balance = acc.balance;
  unsent = acc.unsent;
}

decide-Accounts :
    (lost : ℕ → ℕ) (c : Coordinator) (now : ℕ) (q : Query)
    → Accounts lost c
    → Accounts (λ i. lost i + strands q c i) (decide now q c).0
unfolding decide
decide-Accounts lost c now q acc = elim (Option-cases q.elected) [
  | inl e ↦
      rw (e, decide)
        (relabel (λ i. lost i + waits_at q.hash c i) _ _ (claim-Accounts lost c acc now q)
          (λ i. ground arith))
  | inr (r, e) ↦
      rw (e, decide) (relabel lost _ _ (wait_on-Accounts lost c acc now q r) (λ i. ground arith))
]

go_on-Accounts :
    (lost : ℕ → ℕ) (c : Coordinator) (now : ℕ) (q : Query) (awaiting : List GoString)
    → Accounts lost c
    → Accounts (λ i. lost i + strands_last q awaiting c i) (coordinator_of (go_on now q awaiting c))
unfolding go_on
go_on-Accounts lost c now q [] acc =
    unregister-Accounts _ _ q.hash q.pending (decide-Accounts lost c now q acc)
go_on-Accounts lost c now q (p ∷ ps) acc = relabel lost _ c acc (λ i. omega arith)

await_answers-Accounts :
    (lost : ℕ → ℕ) (c : Coordinator) (q : Query) (awaiting : List GoString)
    → Accounts lost c
    → Accounts lost (coordinator_of (await_answers q awaiting c))
unfolding await_answers
await_answers-Accounts lost c q [] acc = unregister-Accounts lost c q.hash q.pending acc
await_answers-Accounts lost c q (p ∷ ps) acc = acc

-- A round of the loop loses just the waiters of an entry that a claim overwrites.
pub on_event-Accounts :
    (lost : ℕ → ℕ) (c : Coordinator) (now : ℕ) (e : Event) (q : Query)
    → Accounts lost c
    → Accounts (λ i. lost i + strands_on e q c i) (coordinator_of (on_event now e q c))
unfolding on_event strands_on
on_event-Accounts lost c now (have_from p) q acc =
    relabel lost _ _ (unregister-Accounts lost c q.hash q.pending acc) (λ i. omega arith)
on_event-Accounts lost c now (competing r) q acc = relabel lost _ _ acc (λ i. omega arith)
on_event-Accounts lost c now (fetching_from r) q acc = elim (Bool-cases (ltb r.nonce q.nonce)) [
  | inl e ↦
      rw (e, on_event)
        (relabel lost _ _
          (unregister-Accounts lost _ q.hash q.pending (wait_on-Accounts lost c acc now q r))
          (λ i. omega arith))
  | inr e ↦ rw (e, on_event) (relabel lost _ _ acc (λ i. omega arith))
]
on_event-Accounts lost c now (dont_have_from r) q acc =
    go_on-Accounts lost c now (note_answer r q) (note_answer r q).awaiting acc
on_event-Accounts lost c now claim_timeout q acc =
    unregister-Accounts _ _ q.hash q.pending (decide-Accounts lost c now q acc)
on_event-Accounts lost c now cancelled q acc =
    relabel lost _ _ (unregister-Accounts lost c q.hash q.pending acc) (λ i. omega arith)

pub ask-Accounts :
    (lost : ℕ → ℕ) (c : Coordinator) (hash : GoString) (size : ℤ) (nonce : ℕ)
    (peers sent_to : List GoString)
    → Accounts lost c
    → Accounts lost (coordinator_of (ask hash size nonce peers sent_to c))
unfolding ask
ask-Accounts lost c hash size nonce [] sent_to acc = acc
ask-Accounts lost c hash size nonce (p ∷ peers) sent_to acc =
    await_answers-Accounts lost _ _ (if c.has_sender then sent_to else [])
      (record { distinct = acc.distinct; balance = acc.balance; unsent = acc.unsent })
