-- ===== src/Dates/Picker.antt =====
-- The date and time picker of src/dom/datePicker.js as a state machine: the text of its field, and its
-- popup with the selection and the month that is shown. The clock is a parameter of what reads it.
use Prim.Native.Nat.{min}
use tedi_sql_explorer.Base.{
  ℕ, ◌==◌, ◌-◌, ◌+◌, ltb, Bool, true, false, ◌||◌, Option, none, some, List, [], ◌∷◌, ◌++◌, Text,
  trim, or_else, if◌then◌else◌,
}
use tedi_sql_explorer.Dates.{
  ℤ, suc_ℤ, pred_ℤ, Kind, date, time, datetime, Parts, parse_state, format_state,
}

-- `sel` and `view`, while the popup is open.
pub record Popup : Type 0 where
  pub sel : Parts
  pub view_y : ℤ
  pub view_mo : ℕ

-- `input.value` (with which `currentValue` goes) and the popup.
pub record Picker : Type 0 where
  pub value : Text
  pub popup : Option Popup

pub data Field : Type 0 where
  hours minutes seconds : Field

-- What the user does. `picked_day` carries the day of the month that is shown, `set_field` the number
-- that stands in a time field, and what reads the clock carries its parts.
pub data Event : Type 0 where
  typed : Text → Event
  opened : Parts → Event
  clicked_away prev_month next_month cleared applied entered escaped : Event
  picked_day : ℕ → Event
  set_field : Field → ℕ → Event
  picked_now : Parts → Event

-- What the picker tells its owner.
pub data Told : Type 0 where
  committed : Text → Told
  cancelled : Told

-- `getValue()`.
unfoldable pub get_value : Picker → Text
unfolding trim
get_value p = trim p.value

unfoldable pub close_popup : Picker → Picker
close_popup p = record p { popup = none }

-- `commit(v)`, with the value of the picker.
unfoldable pub commit : Picker → Picker × List Told
unfolding get_value close_popup
commit p = (close_popup p, committed (get_value p) ∷ [])

-- `openPopup()`: a popup that is open stays as it is.
unfoldable pub fresh : Parts → Popup
fresh sel = record { sel = sel; view_y = sel.y; view_mo = sel.mo }

unfoldable pub open_popup : Kind → Parts → Picker → Picker
unfolding parse_state get_value fresh
open_popup kind now p = record p {
  popup = some (or_else p.popup (fresh (parse_state now kind (get_value p))));
}

abbrev pub is_time : Kind → Bool
is_time date = false
is_time time = true
is_time datetime = false

abbrev pub is_datetime : Kind → Bool
is_datetime date = false
is_datetime time = false
is_datetime datetime = true

-- `syncInputFromSel()`, after the selection has become that of the popup.
unfoldable pub sync : Kind → Popup → Picker → Picker
unfolding format_state
sync kind q p = record {
  value = if is_time kind || q.sel.has_date then format_state kind q.sel else p.value;
  popup = some q;
}

unfoldable pub select_day : ℕ → Popup → Popup
select_day d q = record q {
  sel = record q.sel { y = q.view_y; mo = q.view_mo; d = d; has_date = true };
}

-- `pickDay(view.y, view.mo, d)`.
unfoldable pub pick_day : Kind → ℕ → Popup → Picker → Picker × List Told
unfolding select_day sync commit
pick_day date d q p = commit (sync date (select_day d q) p)
pick_day time d q p = (sync time (select_day d q) p, [])
pick_day datetime d q p = (sync datetime (select_day d q) p, [])

abbrev pub with_field : Field → ℕ → Parts → Parts
with_field hours n sel = record sel { hh = min 23 n }
with_field minutes n sel = record sel { mi = min 59 n }
with_field seconds n sel = record sel { ss = min 59 n }

-- The `change` of a time field, and `setTimePart`.
unfoldable pub set_time_part : Kind → Field → ℕ → Popup → Picker → Picker
unfolding sync
set_time_part kind f n q p =
    let sel = with_field f n q.sel in
    sync kind
      (record q {
        sel = record sel { has_time = true; has_date = is_datetime kind || sel.has_date };
      })
      p

unfoldable pub back : Popup → Popup
unfolding pred_ℤ
back q =
    if q.view_mo == 0
    then record q { view_mo = 11; view_y = pred_ℤ q.view_y }
    else record q { view_mo = q.view_mo - 1 }

unfoldable pub forth : Popup → Popup
unfolding suc_ℤ
forth q =
    if ltb 11 (q.view_mo + 1)
    then record q { view_mo = 0; view_y = suc_ℤ q.view_y }
    else record q { view_mo = q.view_mo + 1 }

-- "Now" and "Today".
unfoldable pub pick_now : Kind → Parts → Popup → Picker → Picker × List Told
unfolding format_state commit fresh
pick_now kind now q p =
    let sel = record now { has_date = true; has_time = true } in
    commit (record { value = format_state kind sel; popup = some (fresh sel) })

-- What the popup's controls do.
unfoldable pub in_popup : Kind → Event → Popup → Picker → Picker × List Told
unfolding back forth pick_day set_time_part pick_now commit close_popup
in_popup kind prev_month q p = (record p { popup = some (back q) }, [])
in_popup kind next_month q p = (record p { popup = some (forth q) }, [])
in_popup kind cleared q p = (record { value = []; popup = none }, committed [] ∷ [])
in_popup kind applied q p = commit p
in_popup kind (picked_day d) q p = pick_day kind d q p
in_popup kind (set_field f n) q p = (set_time_part kind f n q p, [])
in_popup kind (picked_now now) q p = pick_now kind now q p
in_popup kind clicked_away q p = (close_popup p, [])
in_popup kind entered q p = commit p
in_popup kind escaped q p = (close_popup p, cancelled ∷ [])
in_popup kind (typed t) q p = (record p { value = t }, [])
in_popup kind (opened now) q p = (p, [])

-- What the field does while the popup is closed; the popup's controls are not there.
unfoldable pub in_field : Kind → Event → Picker → Picker × List Told
unfolding open_popup commit
in_field kind (typed t) p = (record p { value = t }, [])
in_field kind (opened now) p = (open_popup kind now p, [])
in_field kind entered p = commit p
in_field kind escaped p = (p, cancelled ∷ [])
in_field kind clicked_away p = (p, [])
in_field kind prev_month p = (p, [])
in_field kind next_month p = (p, [])
in_field kind cleared p = (p, [])
in_field kind applied p = (p, [])
in_field kind (picked_day d) p = (p, [])
in_field kind (set_field f n) p = (p, [])
in_field kind (picked_now now) p = (p, [])

-- One event, for a picker whose owner listens to both of its calls.
unfoldable pub dispatch : Kind → Event → Option Popup → Picker → Picker × List Told
unfolding in_popup in_field
dispatch kind ev none p = in_field kind ev p
dispatch kind ev (some q) p = in_popup kind ev q p

unfoldable pub step : Kind → Event → Picker → Picker × List Told
unfolding dispatch
step kind ev p = dispatch kind ev p.popup p

-- A series of events: the picker at the end, and everything that it told.
unfoldable pub run : Kind → List Event → Picker → Picker × List Told
unfolding step
run kind [] p = (p, [])
run kind (ev ∷ evs) p =
    let (p', told) = step kind ev p in let (p'', more) = run kind evs p' in (p'', told ++ more)
