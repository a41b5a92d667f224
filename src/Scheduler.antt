-- ===== src/Scheduler.antt =====
-- internal/scheduler/window.go: the windows of time in which the scheduler syncs. Days are counted
-- from a Sunday, in a zone whose days all have 24 hours; a time is its day, hour and minute, and
-- what is below the minute changes no test. An error is none, without its text.
pub mod Openings
pub mod Parsing
mod Examples
use debswarm.Prelude.{
  ℕ, zero, suc, ◌+◌, ◌-◌, ◌*◌, ◌%◌, ◌==◌, Option, none, some, Bool, true, false, not, ◌&&◌, ◌||◌,
  List, [], ◌∷◌, ◌++◌, ltb, leb, if◌then◌else◌, GoString, codes, str_eq, ◌>>=◌,
}
use debswarm.Prelude.Strings.{to_lower, split, trim_space}
use debswarm.Release.{number_of}

pub record Time : Type 0 where
  pub day : ℕ
  pub hour : ℕ
  pub minute : ℕ

-- `Weekday`: Sunday is 0.
abbrev pub weekday : ℕ → ℕ
weekday d = d % 7

pub record Window : Type 0 where
  pub days : List GoString
  pub start_time : GoString
  pub end_time : GoString

pub record ParsedWindow : Type 0 where
  pub days : List ℕ
  pub start_hour : ℕ
  pub start_min : ℕ
  pub end_hour : ℕ
  pub end_min : ℕ
  pub spans_day : Bool

abbrev pub one_of : GoString → List GoString → Bool
one_of day [] = false
one_of day (name ∷ names) = str_eq name day || one_of day names

-- The days that a name stands for.
unfoldable pub days_named : GoString → Option (List ℕ)
days_named day =
    if one_of day (codes "monday" ∷ codes "mon" ∷ [])
    then some (1 ∷ [])
    else if one_of day (codes "tuesday" ∷ codes "tue" ∷ [])
    then some (2 ∷ [])
    else if one_of day (codes "wednesday" ∷ codes "wed" ∷ [])
    then some (3 ∷ [])
    else if one_of day (codes "thursday" ∷ codes "thu" ∷ [])
    then some (4 ∷ [])
    else if one_of day (codes "friday" ∷ codes "fri" ∷ [])
    then some (5 ∷ [])
    else if one_of day (codes "saturday" ∷ codes "sat" ∷ [])
    then some (6 ∷ [])
    else if one_of day (codes "sunday" ∷ codes "sun" ∷ [])
    then some (0 ∷ [])
    else if one_of day (codes "weekday" ∷ codes "weekdays" ∷ [])
    then some (1 ∷ 2 ∷ 3 ∷ 4 ∷ 5 ∷ [])
    else if one_of day (codes "weekend" ∷ codes "weekends" ∷ [])
    then some (6 ∷ 0 ∷ [])
    else if one_of day (codes "all" ∷ codes "everyday" ∷ codes "daily" ∷ [])
    then some (0 ∷ 1 ∷ 2 ∷ 3 ∷ 4 ∷ 5 ∷ 6 ∷ [])
    else none

-- The loop over the days of the configuration. A day that is named twice is twice in the list.
unfoldable pub parse_days : List GoString → Option (List ℕ)
unfolding days_named
parse_days [] = some []
parse_days (day ∷ rest) = do ds ← days_named (to_lower day); es ← parse_days rest; some (ds ++ es)

-- `strconv.Atoi` of a number from 0 to the bound: what has a minus is 0 or below.
unfoldable pub atoi_below : ℕ → GoString → Option ℕ
atoi_below bound [] = none
atoi_below bound (a ∷ s) =
    if a == b'-'
    then elim (number_of s) [ none ↦ none | some n ↦ if n == 0 then some 0 else none ]
    else elim (number_of (if a == b'+' then s else a ∷ s)) [
      | none ↦ none
      | some n ↦ if ltb n bound then some n else none
    ]

unfoldable pub parse_time : GoString → Option (ℕ × ℕ)
unfolding atoi_below
parse_time s = elim (split 58 (trim_space s)) [
  | h ∷ m ∷ [] ↦ do hour ← atoi_below 24 h; min ← atoi_below 60 m; some (hour, min)
  | _ ↦ none
]

abbrev pub minutes : ℕ → ℕ → ℕ
minutes hour min = hour * 60 + min

unfoldable pub parsed_window : List ℕ → ℕ × ℕ → ℕ × ℕ → ParsedWindow
parsed_window days (start_hour, start_min) (end_hour, end_min) =
    let start = minutes start_hour start_min in
    let end = minutes end_hour end_min in
    record {
      days = days;
      start_hour = start_hour;
      start_min = start_min;
      end_hour = end_hour;
      end_min = end_min;
      spans_day = leb end start && (not (start == 0) || not (end == 0));
    }

unfoldable pub parse_window : Window → Option ParsedWindow
unfolding parse_days parse_time parsed_window
parse_window w = do
  days ← parse_days w.days
  start ← parse_time w.start_time
  end ← parse_time w.end_time
  some (parsed_window days start end)

unfoldable pub is_configured : ℕ → List ℕ → Bool
is_configured k [] = false
is_configured k (d ∷ days) = d == k || is_configured k days

-- `Contains`. The day of the time 24 hours earlier is the day before.
unfoldable pub window_contains : ParsedWindow → Time → Bool
window_contains pw t =
    let current = minutes t.hour t.minute in
    let start = minutes pw.start_hour pw.start_min in
    let end = minutes pw.end_hour pw.end_min in
    let today = is_configured (weekday t.day) pw.days in
    let yesterday = is_configured (weekday (t.day - 1)) pw.days in
    if not pw.spans_day
    then today && (leb start current && ltb current end)
    else (today && leb start current) || (yesterday && ltb current end)

-- Minutes since the first day.
abbrev pub instant : Time → ℕ
instant t = t.day * 1440 + minutes t.hour t.minute

abbrev pub opening : ParsedWindow → ℕ → Time
opening pw day = record { day = day; hour = pw.start_hour; minute = pw.start_min }

-- The loop over the days from `day` on.
unfoldable pub next_start_from : ℕ → ParsedWindow → Time → ℕ → Option Time
next_start_from zero pw from day = none
next_start_from (suc n) pw from day =
    let rest = next_start_from n pw from (day + 1) in
    if is_configured (weekday day) pw.days && ltb (instant from) (instant (opening pw day))
    then some (opening pw day)
    else rest

-- `NextStart`, whose zero time is none.
unfoldable pub next_start : ParsedWindow → Time → Option Time
unfolding next_start_from
next_start pw from = elim pw.days [ [] ↦ none | d ∷ days ↦ next_start_from 8 pw from from.day ]
