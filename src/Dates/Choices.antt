-- ===== src/Dates/Choices.antt =====
-- What the picker shows, after any series of events (src/dom/datePicker.js).
use tedi_sql_explorer.Base.{
  ℕ, ◌==◌, ◌+◌, ◌≤◌, ◌<◌, ltb, ◌≡◌, refl, inl, inr, Bool, true, Bool-cases, Option, none, some,
  List, [], ◌∷◌, Text, All, arith, or_else,
}
use tedi_sql_explorer.Dates.{
  Kind, date, time, datetime, Parts, parse_state, with_date, with_time, find_date, find_time, blank,
}
use tedi_sql_explorer.Dates.Picker.{
  Popup, Picker, Field, hours, minutes, seconds, Event, typed, opened, clicked_away, prev_month,
  next_month, cleared, applied, entered, escaped, picked_day, set_field, picked_now, get_value,
  fresh, open_popup, with_field, sync, select_day, pick_day, set_time_part, back, forth, pick_now,
  in_popup, in_field, dispatch, step, run, commit, close_popup,
}

-- Parts that a calendar and a clock can show.
pub record IsShown (st : Parts) : Type 0 where
  pub month : st.mo < 12
  pub day_from : 1 ≤ st.d
  pub day_to : st.d < 32
  pub hour : st.hh < 24
  pub minute : st.mi < 60
  pub second : st.ss < 60

with_date-IsShown : (o : Option (ℕ × ℕ × ℕ)) (st : Parts) → IsShown st → IsShown (with_date o st)
with_date-IsShown none st h = h
with_date-IsShown (some (y, mo, d)) st h = record {
  month = omega arith;
  day_from = omega arith;
  day_to = omega arith;
  hour = h.hour;
  minute = h.minute;
  second = h.second;
}

with_time-IsShown : (o : Option (ℕ × ℕ × ℕ)) (st : Parts) → IsShown st → IsShown (with_time o st)
with_time-IsShown none st h = h
with_time-IsShown (some (hh, mi, ss)) st h = record {
  month = h.month;
  day_from = h.day_from;
  day_to = h.day_to;
  hour = omega arith;
  minute = omega arith;
  second = omega arith;
}

blank-IsShown : (now : Parts) → IsShown now → IsShown (blank now)
unfolding blank
blank-IsShown now h = record {
  month = h.month;
  day_from = h.day_from;
  day_to = h.day_to;
  hour = omega arith;
  minute = omega arith;
  second = omega arith;
}

parse_state-IsShown :
    (now : Parts) (kind : Kind) (s : Text) → IsShown now → IsShown (parse_state now kind s)
unfolding parse_state
parse_state-IsShown now date s h = with_date-IsShown (find_date s) (blank now) (blank-IsShown now h)
parse_state-IsShown now time s h = with_time-IsShown (find_time s) (blank now) (blank-IsShown now h)
parse_state-IsShown now datetime s h =
    with_time-IsShown (find_time s) (with_date (find_date s) (blank now))
      (with_date-IsShown (find_date s) (blank now) (blank-IsShown now h))

-- The popup has a month to show and a selection in range.
pub record InRange (q : Popup) : Type 0 where
  pub sel : IsShown q.sel
  pub view : q.view_mo < 12

abbrev pub PopupInRange : Option Popup → Type 0
PopupInRange none = Unit
PopupInRange (some q) = InRange q

-- A clock in range, and a day that a calendar has.
abbrev pub IsReal : Event → Type 0
IsReal (opened now) = IsShown now
IsReal (picked_now now) = IsShown now
IsReal (picked_day d) = (1 ≤ d) × (d < 32)
IsReal _ = Unit

back-InRange : (q : Popup) → InRange q → InRange (back q)
unfolding back
back-InRange q h = elim (Bool-cases (q.view_mo == 0)) [
  | inl e ↦ rw e (record { sel = h.sel; view = omega arith })
  | inr e ↦ rw e (record { sel = h.sel; view = omega (arith, h.view) })
]

forth-InRange : (q : Popup) → InRange q → InRange (forth q)
unfolding forth
forth-InRange q h = elim (Bool-cases (ltb 11 (q.view_mo + 1))) [
  | inl e ↦ rw e (record { sel = h.sel; view = omega arith })
  | inr e ↦
      let small : q.view_mo + 1 < 12 = ground arith in rw e (record { sel = h.sel; view = small })
]

pub with_field-IsShown : (f : Field) (n : ℕ) (st : Parts) → IsShown st → IsShown (with_field f n st)
with_field-IsShown hours n st h = record {
  month = h.month;
  day_from = h.day_from;
  day_to = h.day_to;
  hour = omega arith;
  minute = h.minute;
  second = h.second;
}
with_field-IsShown minutes n st h = record {
  month = h.month;
  day_from = h.day_from;
  day_to = h.day_to;
  hour = h.hour;
  minute = omega arith;
  second = h.second;
}
with_field-IsShown seconds n st h = record {
  month = h.month;
  day_from = h.day_from;
  day_to = h.day_to;
  hour = h.hour;
  minute = h.minute;
  second = omega arith;
}

pub flags-IsShown :
    (st : Parts) (a b : Bool) → IsShown st → IsShown (record st { has_date = a; has_time = b })
flags-IsShown st a b h = record {
  month = h.month;
  day_from = h.day_from;
  day_to = h.day_to;
  hour = h.hour;
  minute = h.minute;
  second = h.second;
}

pub select_day-InRange : (d : ℕ) (q : Popup) → 1 ≤ d → d < 32 → InRange q → InRange (select_day d q)
unfolding select_day
select_day-InRange d q l u h = record {
  sel = record {
    month = h.view;
    day_from = l;
    day_to = u;
    hour = h.sel.hour;
    minute = h.sel.minute;
    second = h.sel.second;
  };
  view = h.view;
}

fresh-InRange : (sel : Parts) → IsShown sel → InRange (fresh sel)
unfolding fresh
fresh-InRange sel h = record { sel = h; view = h.month }

kept_open : (o : Option Popup) (q : Popup) → PopupInRange o → InRange q → InRange (or_else o q)
kept_open none q ho hq = hq
kept_open (some r) q ho hq = ho

sync-InRange :
    (kind : Kind) (q : Popup) (p : Picker) → InRange q → PopupInRange (sync kind q p).popup
unfolding sync
sync-InRange kind q p h = h

pick_day-InRange :
    (kind : Kind) (d : ℕ) (q : Popup) (p : Picker)
    → InRange (select_day d q)
    → PopupInRange (pick_day kind d q p).0.popup
unfolding pick_day commit close_popup sync
pick_day-InRange date d q p h = tt
pick_day-InRange time d q p h = h
pick_day-InRange datetime d q p h = h

in_popup-InRange :
    (kind : Kind) (ev : Event) (q : Popup) (p : Picker)
    → IsReal ev
    → InRange q
    → p.popup ≡ some q
    → PopupInRange (in_popup kind ev q p).0.popup
unfolding in_popup commit close_popup pick_now set_time_part sync
in_popup-InRange kind prev_month q p r h e = back-InRange q h
in_popup-InRange kind next_month q p r h e = forth-InRange q h
in_popup-InRange kind cleared q p r h e = tt
in_popup-InRange kind applied q p r h e = tt
in_popup-InRange kind (picked_day d) q p r h e =
    pick_day-InRange kind d q p (select_day-InRange d q r.0 r.1 h)
in_popup-InRange kind (set_field f n) q p r h e = record {
  sel = flags-IsShown (with_field f n q.sel) _ true (with_field-IsShown f n q.sel h.sel);
  view = h.view;
}
in_popup-InRange kind (picked_now now) q p r h e = tt
in_popup-InRange kind clicked_away q p r h e = tt
in_popup-InRange kind entered q p r h e = tt
in_popup-InRange kind escaped q p r h e = tt
in_popup-InRange kind (typed t) q p r h e = rw e h
in_popup-InRange kind (opened now) q p r h e = rw e h

in_field-InRange :
    (kind : Kind) (ev : Event) (p : Picker)
    → IsReal ev
    → p.popup ≡ none
    → PopupInRange (in_field kind ev p).0.popup
unfolding in_field commit close_popup open_popup
in_field-InRange kind (opened now) p r e = rw e (
    fresh-InRange (parse_state now kind (get_value p))
      (parse_state-IsShown now kind (get_value p) r))
in_field-InRange kind (typed t) p r e = rw e tt
in_field-InRange kind entered p r e = tt
in_field-InRange kind escaped p r e = rw e tt
in_field-InRange kind clicked_away p r e = rw e tt
in_field-InRange kind prev_month p r e = rw e tt
in_field-InRange kind next_month p r e = rw e tt
in_field-InRange kind cleared p r e = rw e tt
in_field-InRange kind applied p r e = rw e tt
in_field-InRange kind (picked_day d) p r e = rw e tt
in_field-InRange kind (set_field f n) p r e = rw e tt
in_field-InRange kind (picked_now now) p r e = rw e tt

dispatch-InRange :
    (kind : Kind) (ev : Event) (o : Option Popup) (p : Picker)
    → IsReal ev
    → PopupInRange o
    → p.popup ≡ o
    → PopupInRange (dispatch kind ev o p).0.popup
unfolding dispatch
dispatch-InRange kind ev none p r h e = in_field-InRange kind ev p r e
dispatch-InRange kind ev (some q) p r h e = in_popup-InRange kind ev q p r h e

-- Whatever the text of the field was, and whatever is typed, clicked, turned and entered, the popup
-- shows a month of the year and a selection whose parts a calendar and a clock have, when the clock
-- that is read does and the days that are clicked do.
pub run-InRange :
    (kind : Kind) (events : List Event) (p : Picker)
    → All IsReal events
    → PopupInRange p.popup
    → PopupInRange (run kind events p).0.popup
unfolding run step
run-InRange kind [] p r h = h
run-InRange kind (ev ∷ events) p r h =
    run-InRange kind events (step kind ev p).0 r.1 (dispatch-InRange kind ev p.popup p r.0 h refl)
