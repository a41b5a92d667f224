-- ===== src/Fleet/Coordinator/Release.antt =====
-- internal/fleet/coordinator.go: the loops that tell waiters the outcome. Each channel is closed
-- once, so no loop panics.
use debswarm.Prelude.{
  ℕ, ◌+◌, ◌≤◌, ◌<◌, ◌≡◌, refl, none, some, List, [], ◌∷◌, if◌then◌else◌, arith, count,
}
use debswarm.Fleet.State.{Signal, Chan, update}
use debswarm.Fleet.Coordinator.{deliver, release}

-- How often a channel is closed: no channel is closed twice.
abbrev pub closed_at : (ℕ → Chan) → ℕ → ℕ
closed_at chans i = if (chans i).closed then 1 else 0

-- What the loop has done to the channels: those of the list are closed and hold the signal, and
-- the others are as they were.
pub record IsReleased (s : Signal) (w : List ℕ) (chans chans' : ℕ → Chan) : Type 0 where
  pub closes : (i : ℕ) → closed_at chans' i ≡ closed_at chans i + count i w
  pub keeps : (i : ℕ) → count i w ≡ 0 → chans' i ≡ chans i
  pub tells : (i : ℕ) → 0 < count i w → (chans i).buffer ≡ none → (chans' i).buffer ≡ some s

pub release_lem :
    (s : Signal) (w : List ℕ) (chans : ℕ → Chan)
    → ((i : ℕ) → count i w + closed_at chans i ≤ 1)
    → (chans' : ℕ → Chan) × (release s w chans ≡ some chans') × IsReleased s w chans chans'
unfolding release
release_lem s [] chans open_once = (
  chans,
  refl,
  record { closes = λ i. omega arith; keeps = λ i h. refl; tells = λ i h. absurd (omega arith) },
)
release_lem s (x ∷ w) chans open_once =
    let next = update chans x (deliver s (chans x)) in
    let (chans', done, ih) = release_lem s w next (λ i. ground (arith, open_once i)) in
    (
      chans',
      ground (arith, open_once x),
      record {
        closes = λ i. ground (arith, ih.closes i, open_once x);
        keeps = λ i h. ground (arith, ih.keeps i);
        tells = λ i h e. ground (arith, ih.tells i, ih.keeps i, open_once i);
      },
    )
