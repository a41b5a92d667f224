-- ===== src/Scheduler/Parsing.antt =====
-- internal/scheduler/window.go: what `ParseWindow` accepts.
use debswarm.Prelude.{
  ℕ, ◌+◌, ◌*◌, ◌<◌, ◌≤◌, ◌↔◌, ◌≡◌, ◌==◌, refl, sym, Option, none, some, true, List, [], ◌∷◌, arith,
  if◌then◌else◌, GoString, Option-cases, inl, inr, ◌⊎◌, ◌>>=◌,
}
use mathlib.Core.Path.{subst}
use mathlib.Core.Option.{some-injective}
use debswarm.Prelude.Strings.{split, trim_space}
use debswarm.Release.{number_of}
use debswarm.Scheduler.{
  Window, ParsedWindow, Time, weekday, minutes, is_configured, window_contains, instant, atoi_below,
  parse_time, parse_days, parse_window, parsed_window,
}
use debswarm.Scheduler.Openings.{IsTime, closing, window_contains_iff}

atoi_below-lt : (bound n : ℕ) (s : GoString) → 0 < bound → atoi_below bound s ≡ some n → n < bound
unfolding atoi_below
atoi_below-lt bound n [] h e = absurd (ground arith)
atoi_below-lt bound n (a ∷ s) h e =
    go (Option-cases (number_of s)) (Option-cases (number_of (if a == b'+' then s else a ∷ s)))
  where
    go :
        ((number_of s ≡ none) ⊎ ((m : ℕ) × (number_of s ≡ some m)))
        → ((number_of (if a == b'+' then s else a ∷ s) ≡ none)
            ⊎ ((m : ℕ) × (number_of (if a == b'+' then s else a ∷ s) ≡ some m)))
        → n < bound
    go (inl f) (inl g) = ground arith
    go (inl f) (inr (m, g)) = ground arith
    go (inr (m, f)) (inl g) = ground arith
    go (inr (m, f)) (inr (k, g)) = ground arith

bind-cases :
    {A B : Type 0} (o : Option A) (f : A → Option B) (b : B)
    → (o >>= f) ≡ some b
    → (a : A) × (o ≡ some a) × (f a ≡ some b)
bind-cases none f b e = absurd (ground arith)
bind-cases (some a) f b e = (a, refl, e)

parse_time-IsTime : (s : GoString) (t : ℕ × ℕ) → parse_time s ≡ some t → IsTime t.0 t.1
unfolding parse_time
parse_time-IsTime s t e = go (split 58 (trim_space s)) refl
  where
    go : (parts : List GoString) → split 58 (trim_space s) ≡ parts → IsTime t.0 t.1
    go [] f = absurd (ground arith)
    go (h ∷ []) f = absurd (ground arith)
    go (h ∷ m ∷ k ∷ rest) f = absurd (ground arith)
    go (h ∷ m ∷ []) f =
        let both : (atoi_below 24 h >>= (λ a. atoi_below 60 m >>= (λ b. some (a, b)))) ≡ some t =
          rw (parse_time, f) at e in
        let (hour, i, next) = bind-cases (atoi_below 24 h) _ t both in
        let (min, j, same) = bind-cases (atoi_below 60 m) _ t next in
        let eq : (hour, min) ≡ t = some-injective (hour, min) t same in
        rw (sym eq)
          (atoi_below-lt 24 hour h (omega arith) i, atoi_below-lt 60 min m (omega arith) j)

-- A window that is accepted has the days that were named, and starts and ends at times of a day,
-- those of its configuration; it spans midnight as these times say.
parse_window-parsed :
    (w : Window) (pw : ParsedWindow)
    → parse_window w ≡ some pw
    → (days : List ℕ) × (start : ℕ × ℕ) × (end : ℕ × ℕ) × (parse_days w.days ≡ some days)
      × (parse_time w.start_time ≡ some start)
      × (parse_time w.end_time ≡ some end)
      × IsTime start.0 start.1
      × IsTime end.0 end.1
      × (pw ≡ parsed_window days start end)
unfolding parse_window
parse_window-parsed w pw e =
    let (days, i, e') = bind-cases (parse_days w.days) _ pw e in
    let (start, j, e'') = bind-cases (parse_time w.start_time) _ pw e' in
    let (end, k, same) = bind-cases (parse_time w.end_time) _ pw e'' in
    (
      days,
      start,
      end,
      i,
      j,
      k,
      parse_time-IsTime w.start_time start j,
      parse_time-IsTime w.end_time end k,
      sym (some-injective (parsed_window days start end) pw same),
    )

-- A window that is accepted names days, a start and an end, and a time from the second day on is in
-- it exactly if it has opened on one of these days, at that time or before, and closes later. A
-- window whose end is after its start closes on the same day, any other on the next day, but one
-- from 00:00 to 00:00 closes as it opens.
pub parse_window-contains :
    (w : Window) (pw : ParsedWindow) (t : Time)
    → parse_window w ≡ some pw
    → IsTime t.hour t.minute
    → 1 ≤ t.day
    → (days : List ℕ) × (start : ℕ × ℕ) × (end : ℕ × ℕ) × (parse_days w.days ≡ some days)
      × (parse_time w.start_time ≡ some start)
      × (parse_time w.end_time ≡ some end)
      × ((window_contains pw t ≡ true) ↔ (
          (d : ℕ) × (is_configured (weekday d) days ≡ true)
          × (d * 1440 + minutes start.0 start.1 ≤ instant t)
          × (instant t < closing (minutes start.0 start.1) (minutes end.0 end.1) d)))
parse_window-contains w pw t e v later =
    let (days, start, end, i, j, k, s, f, same) = parse_window-parsed w pw e in
    (
      days,
      start,
      end,
      i,
      j,
      k,
      subst
          (λ (p : ParsedWindow). (window_contains p t ≡ true) ↔ (
            (d : ℕ) × (is_configured (weekday d) days ≡ true)
            × (d * 1440 + minutes start.0 start.1 ≤ instant t)
            × (instant t < closing (minutes start.0 start.1) (minutes end.0 end.1) d)))
          (sym same) (window_contains_iff days start.0 start.1 end.0 end.1 t s f v later),
    )
