-- ===== src/Scheduler/Examples.antt =====
-- The theorems of internal/scheduler at concrete inputs: windows from 22:00 to 06:00.
use debswarm.Prelude.{
  List, ◌+◌, ◌*◌, ℕ, ◌≤◌, ◌<◌, ◌≡◌, ◌↔◌, refl, some, true, [], ◌∷◌, arith, codes, str_eq,
}
use debswarm.Prelude.Strings.{to_lower, split, trim_space}
use debswarm.Scheduler.{
  parse_days, parse_time, minutes, Time, Window, ParsedWindow, weekday, is_configured,
  window_contains, parse_window, instant, opening, next_start,
}
use debswarm.Scheduler.Openings.{closing, next_start_lem}
use debswarm.Scheduler.Parsing.{parse_window-contains}

abbrev nights : ParsedWindow
nights = record {
  days = 1 ∷ 5 ∷ [];
  start_hour = 22;
  start_min = 0;
  end_hour = 6;
  end_min = 0;
  spans_day = true;
}

abbrev configured : Window
configured = record {
  days = codes "Mon" ∷ codes "friday" ∷ [];
  start_time = codes " 22:00";
  end_time = codes "06:00";
}

parse_window-nights : parse_window configured ≡ some nights
unfolding parse_window str_eq to_lower split trim_space
parse_window-nights = refl

-- Saturday at 05:30.
abbrev morning : Time
morning = record { day = 6; hour = 5; minute = 30 }

parse_window-contains_example :
    (days : List ℕ) × (start : ℕ × ℕ) × (end : ℕ × ℕ) × (parse_days configured.days ≡ some days)
    × (parse_time configured.start_time ≡ some start)
    × (parse_time configured.end_time ≡ some end)
    × ((window_contains nights morning ≡ true) ↔ (
        (d : ℕ) × (is_configured (weekday d) days ≡ true)
        × (d * 1440 + minutes start.0 start.1 ≤ instant morning)
        × (instant morning < closing (minutes start.0 start.1) (minutes end.0 end.1) d)))
parse_window-contains_example =
    parse_window-contains configured nights morning parse_window-nights (omega arith, omega arith)
      (omega arith)

next_start_lem_example :
    (d : ℕ) × (next_start nights morning ≡ some (opening nights d))
    × (is_configured (weekday d) nights.days ≡ true)
    × (instant morning < instant (opening nights d))
    × ((d' : ℕ)
        → is_configured (weekday d') nights.days ≡ true
        → instant morning < instant (opening nights d')
        → d ≤ d')
unfolding is_configured
next_start_lem_example =
    next_start_lem nights morning 5 (omega arith) refl (omega arith, omega arith)
      (omega arith, omega arith)
