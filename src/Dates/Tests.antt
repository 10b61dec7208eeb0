-- ===== src/Dates/Tests.antt =====
-- Runs of the picker of src/dom at a concrete day.
use tedi_sql_explorer.Base.{◌≡◌, refl, arith, true, false, none, some, List, [], ◌∷◌, codes}
use tedi_sql_explorer.Dates.{pos, date, time, datetime, Parts, blank, parse_state, format_state}
use tedi_sql_explorer.Dates.RoundTrip.{IsMoment, parse-format}
use tedi_sql_explorer.Dates.Picker.{
  Popup, Picker, hours, Event, typed, opened, prev_month, picked_day, set_field, with_field, step,
  run,
}
use tedi_sql_explorer.Dates.Choices.{PopupInRange, InRange, IsShown, run-InRange}
use tedi_sql_explorer.Dates.Chosen.{chosen-parse_state}

abbrev today : Parts
today = record {
  y = pos 2024;
  mo = 0;
  d = 31;
  hh = 9;
  mi = 5;
  ss = 0;
  has_date = true;
  has_time = true;
}

today-IsMoment : IsMoment today
today-IsMoment = record {
  year = 2024;
  is_year = refl;
  year_from = omega arith;
  year_to = omega arith;
  month = omega arith;
  day_from = omega arith;
  day_to = omega arith;
  hour = omega arith;
  minute = omega arith;
  second = omega arith;
}

today-IsShown : IsShown today
today-IsShown = record {
  month = omega arith;
  day_from = omega arith;
  day_to = omega arith;
  hour = omega arith;
  minute = omega arith;
  second = omega arith;
}

format_run : format_state datetime today ≡ codes "2024-01-31T09:05:00"
unfolding format_state
format_run = refl

-- A year of three digits is written as such, and not read back.
short_year_run : (parse_state today date (codes "0999-05-06")).y ≡ pos 999
unfolding parse_state
short_year_run = refl

lost_year_run :
    (parse_state today date (format_state date (record today { y = pos 999 }))).has_date ≡ false
unfolding parse_state format_state
lost_year_run = refl

parse-format_example :
    (parse_state today datetime (format_state datetime today)
      ≡ record today { has_date = true; has_time = true })
    × (parse_state today date (format_state date today)
        ≡ record (blank today) { y = pos 2024; mo = 0; d = 31; has_date = true })
    × (parse_state today time (format_state time today)
        ≡ record (blank today) { hh = 9; mi = 5; ss = 0; has_time = true })
parse-format_example = parse-format today today today-IsMoment

abbrev picker : Picker
picker = record { value = codes "2020-01-02T03:04:05"; popup = none }

abbrev events : List Event
events = opened today ∷ prev_month ∷ picked_day 4 ∷ set_field hours 99 ∷ []

picked_run : (run datetime events picker).0.value ≡ codes "2019-12-04T23:04:05"
unfolding run
picked_run = refl

run-InRange_example : PopupInRange (run datetime events picker).0.popup
run-InRange_example =
    run-InRange datetime events picker (today-IsShown, (tt, ((omega arith, omega arith), (tt, tt))))
      tt

abbrev popup : Popup
popup = record { sel = today; view_y = pos 2024; view_mo = 1 }

popup-InRange : InRange popup
popup-InRange = record { sel = today-IsShown; view = omega arith }

abbrev shown : Picker
shown = record { value = codes "2024-01-31T09:05:00"; popup = some popup }

-- The day that was typed is lost when the hours are set.
retyped_run :
    (run datetime (typed (codes "2030-06-07T00:00:00") ∷ set_field hours 8 ∷ []) shown).0.value
    ≡ codes "2024-01-31T08:05:00"
unfolding run
retyped_run = refl

chosen-parse_state_example :
    (pos 2024 ≡ pos 2024
      → parse_state today datetime (step datetime (picked_day 3) shown).0.value
        ≡ record today { y = pos 2024; mo = 1; d = 3; has_date = true; has_time = true })
    × (pos 2024 ≡ pos 2024
        → parse_state today datetime
            (run datetime (typed (codes "2030-06-07") ∷ set_field hours 8 ∷ []) shown).0.value
          ≡ record (with_field hours 8 today) { has_date = true; has_time = true })
chosen-parse_state_example =
    chosen-parse_state today shown popup 2024 3 8 hours (codes "2030-06-07") refl popup-InRange
      (omega arith) (omega arith) (omega arith) (omega arith)
