-- ===== src/Fleet/Coordinator/Accounts.antt =====
-- internal/fleet/coordinator.go: where the waiters' channels are. A channel of a waiter stands in one
-- entry, once, until it is closed, once.
pub mod Steps
use debswarm.Prelude.{
  ℕ, suc, ◌+◌, ◌≤◌, ◌<◌, ◌≡◌, refl, inl, inr, Option, none, some, true, false, List, [], ◌∷◌, ◌++◌,
  ◌==◌, ltb, if◌then◌else◌, arith, count, count-append, Option-cases, GoString, Bool-cases, Bool,
}
use debswarm.Prelude.Assoc.{
  Map, lookup, insert, delete, Distinct, weigh, weigh?, delete-Distinct, insert-Distinct,
  weigh-delete, weigh-insert,
}
use debswarm.Fleet.State.{
  Config, Signal, Chan, FetchState, Coordinator, update, new, peer_fetch_failed,
}
use debswarm.Fleet.Coordinator.{release, finish, reap, reap_stale, is_kept}
use debswarm.Fleet.Coordinator.Release.{closed_at, IsReleased, release_lem}

abbrev pub waits_in : ℕ → FetchState → ℕ
waits_in i state = count i state.waiters

abbrev pub made : ℕ → ℕ → ℕ
made next i = if ltb i next then 1 else 0

-- Nothing is sent on a channel but just before it is closed.
abbrev pub IsUnsent : (ℕ → Chan) → Type 0
IsUnsent chans = (i : ℕ) → (chans i).closed ≡ false → (chans i).buffer ≡ none

release-IsUnsent :
    {s : Signal} {w : List ℕ} {chans chans' : ℕ → Chan}
    → IsUnsent chans
    → IsReleased s w chans chans'
    → IsUnsent chans'
release-IsUnsent {s} {w} u r i h = ground (arith, u i, r.keeps i, r.closes i)

-- Each channel that was made stands in one entry, once, or is closed, or is lost: no entry has it
-- and nobody has closed it. The others do none of these.
pub record Accounts (lost : ℕ → ℕ) (c : Coordinator) : Type 0 where
  pub distinct : Distinct c.in_flight
  pub balance :
      (i : ℕ) → weigh (waits_in i) c.in_flight + closed_at c.chans i + lost i ≡ made c.next_chan i
  pub unsent : IsUnsent c.chans

abbrev pub nothing : ℕ → ℕ
nothing i = 0

-- How often the entry of a hash has a waiter.
abbrev pub waits_at : GoString → Coordinator → ℕ → ℕ
waits_at hash c i = weigh? (waits_in i) (lookup hash c.in_flight)

pub new-Accounts : (cfg : Option Config) → Accounts nothing (new cfg)
unfolding new
new-Accounts cfg = record { distinct = tt; balance = λ i. ground arith; unsent = λ i h. refl }

-- An entry that is written, with what happens to the channels beside it.
pub insert-Accounts :
    (lost lost' : ℕ → ℕ) (hash : GoString) (state : FetchState) (chans' : ℕ → Chan) (next' : ℕ)
    (c : Coordinator)
    → Accounts lost c
    → IsUnsent chans'
    → ((i : ℕ)
        → waits_in i state + closed_at chans' i + lost' i + made c.next_chan i
          ≡ waits_at hash c i + closed_at c.chans i + lost i + made next' i)
    → Accounts lost'
        (record c { in_flight = insert hash state c.in_flight; chans = chans'; next_chan = next' })
insert-Accounts lost lost' hash state chans' next' c acc unsent moved = record {
  unsent = unsent;
  distinct = insert-Distinct hash state c.in_flight acc.distinct;
  balance = λ i. omega (
    arith,
    moved i,
    acc.balance i,
    weigh-insert (waits_in i) hash state c.in_flight acc.distinct,
  );
}

-- An entry that is taken out is closed for its waiters, and does not panic.
pub finish-Accounts :
    (lost : ℕ → ℕ) (hash : GoString) (s : Signal) (state : FetchState) (c : Coordinator)
    → Accounts lost c
    → lookup hash c.in_flight ≡ some state
    → (c' : Coordinator) × (finish hash s state c ≡ some c')
      × Accounts lost c'
      × IsReleased s state.waiters c.chans c'.chans
      × (c'.in_flight ≡ delete hash c.in_flight)
unfolding finish
finish-Accounts lost hash s state c acc found =
    let taken = λ (i : ℕ). weigh-delete (waits_in i) hash c.in_flight acc.distinct in
    let (chans', done, r) =
      release_lem s state.waiters c.chans (λ i. ground (arith, taken i, acc.balance i)) in
    (
      record c { chans = chans'; in_flight = delete hash c.in_flight },
      rw (done, finish),
      record {
        distinct = delete-Distinct hash c.in_flight acc.distinct;
        balance = λ i. ground (arith, taken i, acc.balance i, r.closes i);
        unsent = release-IsUnsent acc.unsent r;
      },
      r,
      refl,
    )

-- The channel of a waiter is open.
pub waiter_open :
    (lost : ℕ → ℕ) (hash : GoString) (state : FetchState) (c : Coordinator) (i : ℕ)
    → Accounts lost c
    → lookup hash c.in_flight ≡ some state
    → 0 < count i state.waiters
    → (c.chans i).closed ≡ false
waiter_open lost hash state c i acc found h =
    ground (arith, weigh-delete (waits_in i) hash c.in_flight acc.distinct, acc.balance i)

pub chan_path :
    (ch : Chan) (b : Option Signal) (x : Bool)
    → ch.buffer ≡ b
    → ch.closed ≡ x
    → ch ≡ record { buffer = b; closed = x }
chan_path ch b x p q = λ i. record { buffer = p i; closed = q i }

-- What the loop of the reaper keeps of the accounts.
pub reap_lem :
    (now timeout : ℕ) (m : Map FetchState) (chans : ℕ → Chan)
    → Distinct m
    → ((i : ℕ) → weigh (waits_in i) m + closed_at chans i ≤ 1)
    → (m' : Map FetchState) × (chans' : ℕ → Chan) × (reap now timeout m chans ≡ some (m', chans'))
      × Distinct m'
      × ((i : ℕ)
          → weigh (waits_in i) m' + closed_at chans' i ≡ weigh (waits_in i) m + closed_at chans i)
      × ((k : GoString) → lookup k m ≡ none → lookup k m' ≡ none)
      × (IsUnsent chans → IsUnsent chans')
unfolding reap lookup
reap_lem now timeout [] chans d h = ([], chans, refl, tt, λ i. refl, λ k e. e, λ u. u)
reap_lem now timeout ((j, st) ∷ m) chans d h = elim (Bool-cases (is_kept now timeout st)) [
  | inl kept ↦
      let (m', chans', done, d', same, gone, unsent) =
        reap_lem now timeout m chans d.1 (λ i. omega (arith, h i)) in
      (
        (j, st) ∷ m',
        chans',
        rw (kept, reap) (rw (done)),
        (gone j d.0, d'),
        λ i. omega (arith, same i),
        λ k e. ground (arith, gone k),
        unsent,
      )
  | inr stale ↦
      let (mid, told, r) =
        release_lem (some peer_fetch_failed) st.waiters chans (λ i. omega (arith, h i)) in
      let (m', chans', done, d', same, gone, unsent) =
        reap_lem now timeout m mid d.1 (λ i. omega (arith, h i, r.closes i)) in
      (
        m',
        chans',
        rw (stale, reap) (rw told done),
        d',
        λ i. omega (arith, same i, r.closes i),
        λ k e. ground (arith, gone k),
        λ u. unsent (release-IsUnsent u r),
      )
]

pub reap_stale-Accounts :
    (lost : ℕ → ℕ) (now : ℕ) (c : Coordinator)
    → Accounts lost c
    → (c' : Coordinator) × (reap_stale now c ≡ some c') × Accounts lost c'
unfolding reap_stale
reap_stale-Accounts lost now c acc =
    let (m', chans', done, d', same, gone, unsent) =
      reap_lem now c.config.stale_timeout c.in_flight c.chans acc.distinct
        (λ i. ground (arith, acc.balance i)) in
    (
      record c { in_flight = m'; chans = chans' },
      rw (done, reap_stale),
      record {
        distinct = d';
        balance = λ i. omega (arith, same i, acc.balance i);
        unsent = unsent acc.unsent;
      },
    )
