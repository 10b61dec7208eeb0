-- ===== src/Dates.antt =====
-- src/dom/dateParts.js: the conversions between a date or time and its text. The clock is a parameter.
pub mod RoundTrip
pub mod Picker
pub mod Choices
pub mod Chosen
mod Tests
use Prim.Native.Nat.{min, max}
use tedi_sql_explorer.Base.{
  ℕ, zero, suc, ◌+◌, ◌-◌, ◌*◌, ltb, ◌==◌, Bool, true, false, ◌||◌, Option, none, some, [], ◌∷◌,
  ◌++◌, Text, length, if◌then◌else◌, is_digit, show_ℕ, first_some,
}

-- A year; the picker's calendar can be turned back past the year 0.
pub data ℤ : Type 0 where
  pos negsuc : ℕ → ℤ

unfoldable pub suc_ℤ : ℤ → ℤ
suc_ℤ (pos n) = pos (suc n)
suc_ℤ (negsuc zero) = pos 0
suc_ℤ (negsuc (suc n)) = negsuc n

unfoldable pub pred_ℤ : ℤ → ℤ
pred_ℤ (pos zero) = negsuc 0
pred_ℤ (pos (suc n)) = pos n
pred_ℤ (negsuc n) = negsuc (suc n)

unfoldable pub show_ℤ : ℤ → Text
unfolding show_ℕ
show_ℤ (pos n) = show_ℕ n
show_ℤ (negsuc n) = b'-' ∷ show_ℕ (suc n)

pub data Kind : Type 0 where
  date time datetime : Kind

-- The working state; `mo` counts from 0.
pub record Parts : Type 0 where
  pub y : ℤ
  pub mo : ℕ
  pub d : ℕ
  pub hh : ℕ
  pub mi : ℕ
  pub ss : ℕ
  pub has_date : Bool
  pub has_time : Bool

-- `pad2(n)`.
unfoldable pub pad2 : ℕ → Text
unfolding show_ℕ
pad2 n = if ltb (length (show_ℕ n)) 2 then b'0' ∷ show_ℕ n else show_ℕ n

infixl 5 ◌>>=◌
abbrev pub ◌>>=◌ : {A B : Type 0} → Option A → (A → Option B) → Option B
none >>= f = none
some a >>= f = f a

abbrev pub second_digit : ℕ → Text → ℕ × Text
second_digit n [] = (n, [])
second_digit n (c ∷ s) = if is_digit c then (n * 10 + (c - 48), s) else (n, c ∷ s)

-- `\d{1,2}`, with what is behind it. What follows in the patterns is no digit, so no shorter match
-- is ever needed.
unfoldable pub read_two : Text → Option (ℕ × Text)
unfolding is_digit
read_two [] = none
read_two (c ∷ s) = if is_digit c then some (second_digit (c - 48) s) else none

abbrev pub digit_of : Text → Option (ℕ × Text)
digit_of [] = none
digit_of (c ∷ s) = if is_digit c then some (c - 48, s) else none

-- `\d{2}` and `\d{4}`.
unfoldable pub read_pair : Text → Option (ℕ × Text)
unfolding is_digit
read_pair s = do (a, r) ← digit_of s; (b, r') ← digit_of r; some (a * 10 + b, r')

unfoldable pub read_year : Text → Option (ℕ × Text)
unfolding read_pair
read_year s = do (a, r) ← read_pair s; (b, r') ← read_pair r; some (a * 100 + b, r')

unfoldable pub expect : ℕ → Text → Option Text
expect c [] = none
expect c (d ∷ s) = if c == d then some s else none

-- `/(\d{4})-(\d{1,2})-(\d{1,2})/`, at one position and at the first one that matches.
unfoldable pub date_at : Text → Option (ℕ × ℕ × ℕ)
unfolding read_year read_two expect
date_at s = do
  (y, r) ← read_year s
  r1 ← expect b'-' r
  (mo, r2) ← read_two r1
  r3 ← expect b'-' r2
  (d, r4) ← read_two r3
  some (y, mo, d)

unfoldable pub find_date : Text → Option (ℕ × ℕ × ℕ)
unfolding date_at
find_date [] = none
find_date (c ∷ s) = first_some (date_at (c ∷ s)) (find_date s)

abbrev pub seconds : Option (ℕ × Text) → ℕ
seconds none = 0
seconds (some (n, s)) = n

-- `(\d{1,2}):(\d{2})(?::(\d{2}))?`.
unfoldable pub time_at : Text → Option (ℕ × ℕ × ℕ)
unfolding read_two read_pair expect
time_at s = do
  (h, r) ← read_two s
  r1 ← expect b':' r
  (m, r2) ← read_pair r1
  some (h, m, seconds (expect b':' r2 >>= read_pair))

-- `(?:^|[T ])` in front of it.
unfoldable pub find_time_behind : Text → Option (ℕ × ℕ × ℕ)
unfolding time_at
find_time_behind [] = none
find_time_behind (c ∷ s) =
    let rest = find_time_behind s in
    if c == b'T' || c == b' ' then first_some (time_at s) rest else rest

unfoldable pub find_time : Text → Option (ℕ × ℕ × ℕ)
unfolding find_time_behind
find_time s = first_some (time_at s) (find_time_behind s)

abbrev pub reads_date : Kind → Bool
reads_date date = true
reads_date time = false
reads_date datetime = true

abbrev pub reads_time : Kind → Bool
reads_time date = false
reads_time time = true
reads_time datetime = true

abbrev pub with_date : Option (ℕ × ℕ × ℕ) → Parts → Parts
with_date none st = st
with_date (some (y, mo, d)) st = record st {
  y = pos y;
  mo = min 11 (mo - 1);
  d = min 31 (max 1 d);
  has_date = true;
}

abbrev pub with_time : Option (ℕ × ℕ × ℕ) → Parts → Parts
with_time none st = st
with_time (some (h, m, s)) st = record st {
  hh = min 23 h;
  mi = min 59 m;
  ss = min 59 s;
  has_time = true;
}

-- The state before the text is read: the day of today, and no time.
unfoldable pub blank : Parts → Parts
blank now = record now { hh = 0; mi = 0; ss = 0; has_date = false; has_time = false }

-- `parseState(type, value)`; `now` is `new Date()`.
unfoldable pub parse_state : Parts → Kind → Text → Parts
unfolding blank find_date find_time
parse_state now kind s =
    let st = if reads_date kind then with_date (find_date s) (blank now) else blank now in
    if reads_time kind then with_time (find_time s) st else st

unfoldable pub date_text : Parts → Text
unfolding show_ℤ pad2
date_text st = show_ℤ st.y ++ (b'-' ∷ (pad2 (st.mo + 1) ++ (b'-' ∷ pad2 st.d)))

unfoldable pub time_text : Parts → Text
unfolding pad2
time_text st = pad2 st.hh ++ (b':' ∷ (pad2 st.mi ++ (b':' ∷ pad2 st.ss)))

-- `formatState(type, st)`.
unfoldable pub format_state : Kind → Parts → Text
unfolding date_text time_text
format_state time st = time_text st
format_state date st = date_text st
format_state datetime st = date_text st ++ (b'T' ∷ time_text st)
