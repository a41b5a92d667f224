-- ===== src/Scheduler/Openings.antt =====
-- internal/scheduler/window.go: a window as the times between its openings and its closings.
use debswarm.Prelude.{
  ℕ, zero, suc, ◌+◌, ◌-◌, ◌*◌, ◌%◌, ◌≤◌, ◌<◌, ◌≡◌, ◌≢◌, ◌↔◌, refl, some, true, ◌&&◌, List, [], ◌∷◌,
  ltb, leb, ◌==◌, if◌then◌else◌, arith, inl, inr, Bool-cases,
}
use debswarm.Scheduler.{
  Time, ParsedWindow, weekday, minutes, is_configured, window_contains, parsed_window, instant,
  opening, next_start, next_start_from,
}

-- The closing of a window that opens on the day d, by the minutes of the day at which it starts and
-- ends: on this day if the end is after the start, else on the next; from 00:00 to 00:00 it closes
-- as it opens.
abbrev pub closing : ℕ → ℕ → ℕ → ℕ
closing start end d =
    if ltb start end
    then d * 1440 + end
    else if start == 0 && end == 0
    then d * 1440
    else (d + 1) * 1440 + end

abbrev pub IsTime : ℕ → ℕ → Type 0
IsTime hour min = (hour < 24) × (min < 60)

week_day : (d k : ℕ) → k < 7 → (e : ℕ) × (d + 1 ≤ e) × (e ≤ d + 7) × (e % 7 ≡ k)
week_day d k h = (d + 1 + (k + 6 - d % 7) % 7, omega arith, omega arith, omega arith)

module _ (days : List ℕ) (start_hour start_min end_hour end_min : ℕ) where
  pub window_contains_iff :
      (t : Time)
      → IsTime start_hour start_min
      → IsTime end_hour end_min
      → IsTime t.hour t.minute
      → 1 ≤ t.day
      → (window_contains (parsed_window days (start_hour, start_min) (end_hour, end_min)) t ≡ true)
        ↔ ((d : ℕ) × (is_configured (weekday d) days ≡ true)
            × (d * 1440 + minutes start_hour start_min ≤ instant t)
            × (instant t < closing (minutes start_hour start_min) (minutes end_hour end_min) d))
  unfolding window_contains parsed_window
  window_contains_iff t s e v later =
      let start = minutes start_hour start_min in
      let end = minutes end_hour end_min in
      elim (Bool-cases
        (is_configured (weekday t.day) days && leb start (minutes t.hour t.minute))) [
          | inl today ↦
              (λ c. (t.day, ground arith, ground arith, ground arith), λ (d, f, g, h). ground arith)
          | inr other ↦ (
            λ c. (t.day - 1, ground arith, ground arith, ground arith),
            λ (d, f, g, h). ground arith,
          )
        ]

module _ (pw : ParsedWindow) (from : Time) where
  abbrev IsNext : ℕ → ℕ → Type 0
  IsNext day d =
      (day ≤ d)
      × (is_configured (weekday d) pw.days ≡ true)
      × (instant from < instant (opening pw d))
      × ((d' : ℕ)
          → day ≤ d'
          → is_configured (weekday d') pw.days ≡ true
          → instant from < instant (opening pw d')
          → d ≤ d')

  first_opening :
      (n day e : ℕ)
      → day ≤ e
      → e < day + n
      → is_configured (weekday e) pw.days ≡ true
      → instant from < instant (opening pw e)
      → (d : ℕ) × (next_start_from n pw from day ≡ some (opening pw d)) × IsNext day d
  unfolding next_start_from
  first_opening zero day e a b c f = absurd (omega arith)
  first_opening (suc n) day e a b c f =
      elim (Bool-cases
        (is_configured (weekday day) pw.days && ltb (instant from) (instant (opening pw day)))) [
          | inl opens ↦
              (day, ground arith, (omega arith, ground arith, ground arith, λ d' g h i. g))
          | inr later ↦
              let here : day ≢ e = λ same. ground arith in
              let (d, found, (g, h, i, least)) =
                first_opening n (day + 1) e (ground arith) (omega arith) c f in
              (d, ground arith, (omega arith, h, i, λ d' j k l. ground (arith, least d')))
        ]

  -- If a day of the week is configured, `NextStart` gives the first opening of the window that is
  -- later than the time it is asked at.
  pub next_start_lem :
      (k : ℕ)
      → k < 7
      → is_configured k pw.days ≡ true
      → IsTime from.hour from.minute
      → IsTime pw.start_hour pw.start_min
      → (d : ℕ) × (next_start pw from ≡ some (opening pw d))
        × (is_configured (weekday d) pw.days ≡ true)
        × (instant from < instant (opening pw d))
        × ((d' : ℕ)
            → is_configured (weekday d') pw.days ≡ true
            → instant from < instant (opening pw d')
            → d ≤ d')
  unfolding next_start is_configured
  next_start_lem k small on v s =
      let (e, after, near, same) = week_day from.day k small in
      let (d, found, (g, h, i, least)) =
        first_opening 8 from.day e (omega arith) (omega arith) (rw same on) (omega arith) in
      (d, go pw.days refl found, h, i, λ d' j l. least d' (omega arith) j l)
    where
      go :
          (days : List ℕ)
          → pw.days ≡ days
          → {d : ℕ} → next_start_from 8 pw from from.day ≡ some (opening pw d)
          → next_start pw from ≡ some (opening pw d)
      go [] e f = absurd (ground arith)
      go (a ∷ days) e f = ground arith
