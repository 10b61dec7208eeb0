-- ===== src/Dates/RoundTrip.antt =====
-- A date or time is read back from its text (src/dom/dateParts.js).
use Prim.Native.Nat.{min, max}
use mathlib.Core.Option.{none-ne-some}
use tedi_sql_explorer.Base.{
  append-nil, ℕ, ◌+◌, ◌-◌, ◌*◌, ◌/◌, ◌%◌, ◌≤◌, ◌<◌, ◌==◌, ltb, ◌≡◌, refl, sym, ap, ◌∙◌, inl, inr,
  true, false, ◌||◌, none, some, [], ◌∷◌, ◌++◌, append_assoc, Text, arith, All, Bool-cases, show_ℕ,
  show-one, show-two, show-four, digit_value,
}
use tedi_sql_explorer.Dates.{
  pos, show_ℤ, date, time, datetime, Parts, pad2, read_two, read_pair, read_year, expect, date_at,
  find_date, time_at, find_time_behind, find_time, parse_state, format_state, date_text, time_text,
  blank,
}

-- The two digits of a number below 100.
pad2_lem : (n : ℕ) → n < 100 → pad2 n ≡ (48 + n / 10) ∷ (48 + n % 10) ∷ []
unfolding pad2
pad2_lem n h = elim (Bool-cases (ltb n 10)) [
  | inl e ↦
      let small : n < 10 = ground arith in
      let a : n / 10 ≡ 0 = omega arith in
      let b : n % 10 ≡ n = omega arith in rw (show-one n small, a, b)
  | inr e ↦ let large : 10 ≤ n = ground arith in rw (show-two n large h)
]

read_two-pad2 : (n : ℕ) (r : Text) → n < 100 → read_two (pad2 n ++ r) ≡ some (n, r)
unfolding read_two
read_two-pad2 n r h =
    let (a, av) = digit_value (n / 10) (omega arith) in
    let (b, bv) = digit_value (n % 10) (omega arith) in
    let whole : n / 10 * 10 + n % 10 ≡ n = omega arith in rw (pad2_lem n h, a, b, av, bv, whole)

read_pair-pad2 : (n : ℕ) (r : Text) → n < 100 → read_pair (pad2 n ++ r) ≡ some (n, r)
unfolding read_pair
read_pair-pad2 n r h =
    let (a, av) = digit_value (n / 10) (omega arith) in
    let (b, bv) = digit_value (n % 10) (omega arith) in
    let whole : n / 10 * 10 + n % 10 ≡ n = omega arith in rw (pad2_lem n h, a, b, av, bv, whole)

read_year-show : (n : ℕ) (r : Text) → 1000 ≤ n → n < 10000 → read_year (show_ℕ n ++ r) ≡ some (n, r)
unfolding read_year read_pair
read_year-show n r l h =
    let (a, av) = digit_value (n / 10 / 10 / 10) (omega arith) in
    let (b, bv) = digit_value (n / 10 / 10 % 10) (omega arith) in
    let (c, cv) = digit_value (n / 10 % 10) (omega arith) in
    let (d, dv) = digit_value (n % 10) (omega arith) in
    let whole : (n / 10 / 10 / 10 * 10 + n / 10 / 10 % 10) * 100 + (n / 10 % 10 * 10 + n % 10) ≡ n =
      omega arith in
    rw (show-four n l h, a, b, c, d, av, bv, cv, dv, whole)

date_at-text :
    (y m d : ℕ) (r : Text)
    → 1000 ≤ y
    → y < 10000
    → m < 100
    → d < 100
    → date_at (show_ℕ y ++ (b'-' ∷ (pad2 m ++ (b'-' ∷ (pad2 d ++ r))))) ≡ some (y, m, d)
unfolding date_at expect
date_at-text y m d r l h hm hd = rw (
  read_year-show y (b'-' ∷ (pad2 m ++ (b'-' ∷ (pad2 d ++ r)))) l h,
  read_two-pad2 m (b'-' ∷ (pad2 d ++ r)) hm,
  read_two-pad2 d r hd,
)

time_at-text :
    (h m s : ℕ)
    → h < 100
    → m < 100
    → s < 100
    → time_at (pad2 h ++ (b':' ∷ (pad2 m ++ (b':' ∷ (pad2 s ++ []))))) ≡ some (h, m, s)
unfolding time_at expect
time_at-text h m s hh hm hs = rw (
  read_two-pad2 h (b':' ∷ (pad2 m ++ (b':' ∷ (pad2 s ++ [])))) hh,
  read_pair-pad2 m (b':' ∷ (pad2 s ++ [])) hm,
  read_pair-pad2 s [] hs,
)

-- A code unit that no time stands behind.
abbrev NoSep : Text → Type 0
NoSep = All (λ c. (c == b'T' || c == b' ') ≡ false)

find_time_behind-skip : (x r : Text) → NoSep x → find_time_behind (x ++ r) ≡ find_time_behind r
unfolding find_time_behind
find_time_behind-skip [] r h = refl
find_time_behind-skip (c ∷ x) r h = rw (h.0) (find_time_behind-skip x r h.1)

pad2-NoSep : (n : ℕ) → n < 100 → NoSep (pad2 n)
pad2-NoSep n h = rw (pad2_lem n h) (ground arith, (ground arith, tt))

year-NoSep : (y : ℕ) → 1000 ≤ y → y < 10000 → NoSep (show_ℕ y)
year-NoSep y l h =
    rw (show-four y l h) (ground arith, (ground arith, (ground arith, (ground arith, tt))))

-- A year does not begin a time: a third digit stands where the colon would.
time_at-year : (y : ℕ) (r : Text) → 1000 ≤ y → y < 10000 → time_at (show_ℕ y ++ r) ≡ none
unfolding time_at read_two expect
time_at-year y r l h =
    let (a, av) = digit_value (y / 10 / 10 / 10) (omega arith) in
    let (b, bv) = digit_value (y / 10 / 10 % 10) (omega arith) in
    let colon : (b':' == 48 + y / 10 % 10) ≡ false = ground arith in
    rw (show-four y l h, a, b, colon)

dated : ℕ → Parts → Text → Text
dated y st r = show_ℕ y ++ (b'-' ∷ (pad2 (st.mo + 1) ++ (b'-' ∷ (pad2 st.d ++ r))))

date_text-append : (y : ℕ) (st : Parts) (r : Text) → st.y ≡ pos y → date_text st ++ r ≡ dated y st r
unfolding date_text dated show_ℤ
date_text-append y st r e = rw e (simp (append_assoc) refl)

find_date_lem : (s : Text) (p : ℕ × ℕ × ℕ) → date_at s ≡ some p → find_date s ≡ some p
unfolding find_date
find_date_lem [] p h = absurd (none-ne-some _ (unfold date_at read_year read_pair in h))
find_date_lem (c ∷ s) p h = rw h

find_time-behind : (s : Text) → time_at s ≡ none → find_time s ≡ find_time_behind s
unfolding find_time
find_time-behind s h = rw h

-- What the picker can hold: a four-digit year, and parts in range.
pub record IsMoment (st : Parts) : Type 0 where
  pub year : ℕ
  pub is_year : st.y ≡ pos year
  pub year_from : 1000 ≤ year
  pub year_to : year < 10000
  pub month : st.mo < 12
  pub day_from : 1 ≤ st.d
  pub day_to : st.d < 32
  pub hour : st.hh < 24
  pub minute : st.mi < 60
  pub second : st.ss < 60

find_time-dated :
    (st : Parts) (h : IsMoment st)
    → find_time (dated h.year st (b'T' ∷ time_text st)) ≡ find_time_behind (b'T' ∷ time_text st)
unfolding dated
find_time-dated st h =
    find_time-behind (dated h.year st (b'T' ∷ time_text st))
      (time_at-year h.year _ h.year_from h.year_to)
    ∙ find_time_behind-skip (show_ℕ h.year) _ (year-NoSep h.year h.year_from h.year_to)
    ∙ dash (pad2 (st.mo + 1) ++ (b'-' ∷ (pad2 st.d ++ (b'T' ∷ time_text st))))
    ∙ find_time_behind-skip (pad2 (st.mo + 1)) _ (pad2-NoSep (st.mo + 1) (omega (arith, h.month)))
    ∙ dash (pad2 st.d ++ (b'T' ∷ time_text st))
    ∙ find_time_behind-skip (pad2 st.d) _ (pad2-NoSep st.d (omega (arith, h.day_to)))
  where
    dash : (r : Text) → find_time_behind (b'-' ∷ r) ≡ find_time_behind r
    dash r = find_time_behind-skip (b'-' ∷ []) r (refl, tt)

time_at-time_text : (st : Parts) → IsMoment st → time_at (time_text st) ≡ some (st.hh, st.mi, st.ss)
unfolding time_text
time_at-time_text st h =
    ap (λ t. time_at (pad2 st.hh ++ (b':' ∷ (pad2 st.mi ++ (b':' ∷ t)))))
      (sym (append-nil (pad2 st.ss)))
    ∙ time_at-text st.hh st.mi st.ss (omega (arith, h.hour)) (omega (arith, h.minute))
        (omega (arith, h.second))

find_date-dated :
    (st : Parts) (r : Text) (h : IsMoment st)
    → find_date (dated h.year st r) ≡ some (h.year, st.mo + 1, st.d)
unfolding dated
find_date-dated st r h =
    find_date_lem _ (h.year, st.mo + 1, st.d)
      (date_at-text h.year (st.mo + 1) st.d r h.year_from h.year_to (omega (arith, h.month))
        (omega (arith, h.day_to)))

find_time-T :
    (st : Parts) → IsMoment st → find_time_behind (b'T' ∷ time_text st) ≡ some (st.hh, st.mi, st.ss)
unfolding find_time_behind
find_time-T st h = rw (time_at-time_text st h)

find_time-time_text :
    (st : Parts) → IsMoment st → find_time (time_text st) ≡ some (st.hh, st.mi, st.ss)
unfolding find_time
find_time-time_text st h = rw (time_at-time_text st h)

-- A date and time whose parts are in range, with a year of four digits, is read back from the text
-- that the picker writes: a date and time whole, a date with no time, and a time with the day of
-- today and no date.
pub parse-format :
    (now st : Parts)
    → IsMoment st
    → (parse_state now datetime (format_state datetime st)
        ≡ record st { has_date = true; has_time = true })
      × (parse_state now date (format_state date st)
          ≡ record (blank now) { y = st.y; mo = st.mo; d = st.d; has_date = true })
      × (parse_state now time (format_state time st)
          ≡ record (blank now) { hh = st.hh; mi = st.mi; ss = st.ss; has_time = true })
unfolding parse_state format_state blank
parse-format now st h =
    let month : min 11 (st.mo + 1 - 1) ≡ st.mo = omega (arith, h.month) in
    let day : min 31 (max 1 st.d) ≡ st.d = omega (arith, h.day_from, h.day_to) in
    let hour : min 23 st.hh ≡ st.hh = omega (arith, h.hour) in
    let minute : min 59 st.mi ≡ st.mi = omega (arith, h.minute) in
    let second : min 59 st.ss ≡ st.ss = omega (arith, h.second) in
    let whole = date_text-append h.year st (b'T' ∷ time_text st) h.is_year in
    let bare = sym (append-nil (date_text st)) ∙ date_text-append h.year st [] h.is_year in
    (
      rw (
        whole,
        find_date-dated st (b'T' ∷ time_text st) h,
        find_time-dated st h,
        find_time-T st h,
        month,
        day,
        hour,
        minute,
        second,
        h.is_year,
      ),
      rw (bare, find_date-dated st [] h, month, day, h.is_year),
      rw (find_time-time_text st h, hour, minute, second),
    )
