-- ===== src/Dates/Chosen.antt =====
-- The text that a choice in the picker leaves in its field (src/dom/datePicker.js).
use tedi_sql_explorer.Base.{ℕ, ◌≤◌, ◌<◌, ◌≡◌, refl, ap, ◌∙◌, true, some, [], ◌∷◌, Text}
use tedi_sql_explorer.Dates.{pos, Kind, datetime, Parts, parse_state}
use tedi_sql_explorer.Dates.RoundTrip.{IsMoment, parse-format}
use tedi_sql_explorer.Dates.Picker.{
  Popup, Picker, Field, hours, minutes, seconds, Event, typed, picked_day, set_field, with_field,
  sync, select_day, pick_day, set_time_part, in_popup, dispatch, step, run,
}
use tedi_sql_explorer.Dates.Choices.{
  IsShown, InRange, select_day-InRange, flags-IsShown, with_field-IsShown,
}

moment : (st : Parts) (y : ℕ) → st.y ≡ pos y → 1000 ≤ y → y < 10000 → IsShown st → IsMoment st
moment st y e l u h = record {
  year = y;
  is_year = e;
  year_from = l;
  year_to = u;
  month = h.month;
  day_from = h.day_from;
  day_to = h.day_to;
  hour = h.hour;
  minute = h.minute;
  second = h.second;
}

sync-parse_state :
    (now : Parts) (q : Popup) (p : Picker) (y : ℕ)
    → InRange q
    → q.sel.y ≡ pos y
    → 1000 ≤ y
    → y < 10000
    → q.sel.has_date ≡ true
    → parse_state now datetime (sync datetime q p).value
      ≡ record q.sel { has_date = true; has_time = true }
unfolding sync
sync-parse_state now q p y h e l u d =
    rw d ((parse-format now q.sel (moment q.sel y e l u h.sel)).0)

step_open :
    (kind : Kind) (ev : Event) (p : Picker) (q : Popup)
    → p.popup ≡ some q
    → step kind ev p ≡ in_popup kind ev q p
unfolding step dispatch
step_open kind ev p q e = rw e refl

picked_value :
    (d : ℕ) (p : Picker) (q : Popup)
    → p.popup ≡ some q
    → (step datetime (picked_day d) p).0.value ≡ (sync datetime (select_day d q) p).value
unfolding in_popup pick_day
picked_value d p q e = rw (step_open datetime (picked_day d) p q e) refl

-- The popup after a number was entered in a time field.
abbrev with_number : Field → ℕ → Popup → Popup
with_number f n q = record q {
  sel = record (with_field f n q.sel) { has_time = true; has_date = true };
}

field_value :
    (f : Field) (n : ℕ) (t : Text) (p : Picker) (q : Popup)
    → p.popup ≡ some q
    → (run datetime (typed t ∷ set_field f n ∷ []) p).0.value
      ≡ (sync datetime (with_number f n q) (record p { value = t })).value
unfolding run in_popup set_time_part
field_value f n t p q e =
    rw
      (
        step_open datetime (typed t) p q e,
        step_open datetime (set_field f n) (record p { value = t }) q e,
      )
      refl

with_field-y : (f : Field) (n : ℕ) (st : Parts) → (with_field f n st).y ≡ st.y
with_field-y hours n st = refl
with_field-y minutes n st = refl
with_field-y seconds n st = refl

-- In a picker of dates and times whose popup is open, a click on a day leaves a text in the field that
-- is read back as that day of the month shown, with the time of the popup; a number entered in a time
-- field leaves one that is read back as the popup's selection with that number, capped, whatever was
-- typed in the field in between. The parts are in range and the year has four digits.
pub chosen-parse_state :
    (now : Parts) (p : Picker) (q : Popup) (y d n : ℕ) (f : Field) (t : Text)
    → p.popup ≡ some q
    → InRange q
    → 1000 ≤ y
    → y < 10000
    → 1 ≤ d
    → d < 32
    → (q.view_y ≡ pos y
        → parse_state now datetime (step datetime (picked_day d) p).0.value
          ≡ record q.sel { y = pos y; mo = q.view_mo; d = d; has_date = true; has_time = true })
      × (q.sel.y ≡ pos y
          → parse_state now datetime (run datetime (typed t ∷ set_field f n ∷ []) p).0.value
            ≡ record (with_field f n q.sel) { has_date = true; has_time = true })
unfolding select_day
chosen-parse_state now p q y d n f t e h l u dl du = (
  λ v.
      ap (parse_state now datetime) (picked_value d p q e)
      ∙ sync-parse_state now (select_day d q) p y (select_day-InRange d q dl du h) v l u refl
      ∙ ap (λ z. record q.sel { y = z; mo = q.view_mo; d = d; has_date = true; has_time = true }) v,
  λ v.
      ap (parse_state now datetime) (field_value f n t p q e)
      ∙ sync-parse_state now (with_number f n q) (record p { value = t }) y
          (record {
            sel =
                flags-IsShown (with_field f n q.sel) true true (with_field-IsShown f n q.sel h.sel);
            view = h.view;
          })
          (with_field-y f n q.sel ∙ v) l u refl,
)
