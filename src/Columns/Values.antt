-- ===== src/Columns/Values.antt =====
-- The values of date widgets (src/columns.js).
use tedi_sql_explorer.Base.{
  Bool, false, ◌&&◌, ◌||◌, Option, none, some, [], ◌∷◌, Text, codes, is_empty, includes, take,
  if◌then◌else◌, is_digit, ◌==◌,
}
use tedi_sql_explorer.Cell.{Cell, null, str}

-- `/(\d{2}:\d{2}:\d{2})/`.
unfoldable pub clock_at : Text → Option Text
unfolding is_digit
clock_at (a ∷ b ∷ c ∷ d ∷ e ∷ f ∷ g ∷ h ∷ s) =
    if is_digit a
      && is_digit b
      && c == b':'
      && is_digit d
      && is_digit e
      && f == b':'
      && is_digit g
      && is_digit h
    then some (a ∷ b ∷ c ∷ d ∷ e ∷ f ∷ g ∷ h ∷ [])
    else none
clock_at _ = none

unfoldable pub find_clock : Text → Option Text
unfolding clock_at
find_clock [] = none
find_clock (c ∷ s) = elim (clock_at (c ∷ s)) [ none ↦ find_clock s | some t ↦ some t ]

-- `s.replace(/[zZ]$/, "")`.
unfoldable pub drop_z : Text → Text
drop_z [] = []
drop_z (c ∷ s) =
    let rest = drop_z s in if is_empty s && (c == b'z' || c == b'Z') then [] else c ∷ rest

-- `[+-]\d{2}:?\d{2}$`, with nothing behind it.
unfoldable pub is_zone : Text → Bool
unfolding is_digit
is_zone (s ∷ a ∷ b ∷ c ∷ d ∷ []) =
    (s == b'+' || s == b'-') && is_digit a && is_digit b && is_digit c && is_digit d
is_zone (s ∷ a ∷ b ∷ m ∷ c ∷ d ∷ []) =
    (s == b'+' || s == b'-') && is_digit a && is_digit b && m == b':' && is_digit c && is_digit d
is_zone _ = false

unfoldable pub drop_zone : Text → Text
unfolding is_zone
drop_zone [] = []
drop_zone (c ∷ s) = let rest = drop_zone s in if is_zone (c ∷ s) then [] else c ∷ rest

-- `t.replace(" ", "T")`: the first space.
unfoldable pub space_to_t : Text → Text
space_to_t [] = []
space_to_t (c ∷ s) = let rest = space_to_t s in if c == b' ' then b'T' ∷ s else c ∷ rest

-- `isoToInputValue(kind, value)`, for a text; `null` gives the empty text.
unfoldable pub iso_date : Text → Text
iso_date s = take 10 s

unfoldable pub iso_time : Text → Text
unfolding find_clock
iso_time s = elim (find_clock s) [ none ↦ s | some t ↦ t ]

unfoldable pub iso_datetime : Text → Text
unfolding drop_z drop_zone space_to_t includes
iso_datetime s = let t = drop_zone (drop_z s) in if includes t (codes "T") then t else space_to_t t

-- `inputValueToIso(value)`.
unfoldable pub input_value_to_iso : Text → Cell
input_value_to_iso s = if is_empty s then null else str s
