-- ===== src/Base/Decimal.antt =====
-- `String(n)` of a natural number, and `Number.parseInt` on the digits at the head of a text.
use Prim.Native.Nat.{ℕ, zero, suc, ◌+◌, ◌-◌, ◌*◌, ◌/◌, ◌%◌, ◌<◌, ◌≤◌}
use mathlib.Core.Path.{◌≡◌}
use mathlib.Core.Logic.{◌≢◌, inl, inr}
use mathlib.Core.Bool.{Bool, true, false, ◌&&◌}
use mathlib.Core.List.{[], ◌∷◌, ◌++◌, concat-ne-nil}
use native.Mathlib.Omega.{arith}
use tedi_sql_explorer.Base.Tests.{if◌then◌else◌, ltb, leb, Bool-cases}
use tedi_sql_explorer.Base.Lists.{All, All-append}
use tedi_sql_explorer.Base.Strings.{Text}

unfoldable pub is_digit : ℕ → Bool
is_digit c = leb b'0' c && leb c b'9'

-- The digits of `n`, the last one added behind those of `n / 10`; the fuel bounds their number.
show_from : ℕ → ℕ → Text
show_from zero n = []
show_from (suc fuel) n =
    let more = show_from fuel (n / 10) ++ (48 + n % 10) ∷ [] in
    if ltb n 10 then (48 + n) ∷ [] else more

unfoldable pub show_ℕ : ℕ → Text
unfolding show_from
show_ℕ n = show_from (suc n) n

-- The value of the digits at the head of a text, behind a value that was read before.
unfoldable pub read_digits : ℕ → Text → ℕ
unfolding is_digit
read_digits n [] = n
read_digits n (c ∷ s) =
    let more = read_digits (n * 10 + (c - 48)) s in if is_digit c then more else n

abbrev pub Digits : Text → Type 0
Digits = All (λ c. is_digit c ≡ true)

read-append :
    (k d : ℕ) (x : Text)
    → Digits x
    → d < 10
    → read_digits k (x ++ (48 + d) ∷ []) ≡ read_digits k x * 10 + d
unfolding read_digits
read-append k d [] h hd = ground arith
read-append k d (c ∷ x) h hd = rw (h.0) (read-append (k * 10 + (c - 48)) d x h.1 hd)

digit : (d : ℕ) → d < 10 → is_digit (48 + d) ≡ true
unfolding is_digit
digit d h = ground arith

-- What the print of `n` satisfies.
record Reads (n : ℕ) (s : Text) : Type 0 where
  digits : Digits s
  value : read_digits 0 s ≡ n
  some_digit : s ≢ []

one_digit : (n : ℕ) → n < 10 → Reads n ((48 + n) ∷ [])
unfolding read_digits
one_digit n h = record {
  digits = (digit n h, tt);
  value = ground (arith, digit n h);
  some_digit = λ e. cc;
}

more_digits : (n : ℕ) (s : Text) → Reads (n / 10) s → Reads n (s ++ (48 + n % 10) ∷ [])
more_digits n s r = record {
  digits = All-append _ s _ r.digits (digit (n % 10) (omega arith), tt);
  value = omega (arith, read-append 0 (n % 10) s r.digits, r.value);
  some_digit = concat-ne-nil _ s;
}

show_from-Reads : (fuel n : ℕ) → n < fuel → Reads n (show_from fuel n)
unfolding show_from
show_from-Reads zero n h = elim h [ ]
show_from-Reads (suc fuel) n h = elim (Bool-cases (ltb n 10)) [
  | inl small ↦ rw small (one_digit n (ground arith))
  | inr large ↦ rw large (more_digits n _ (show_from-Reads fuel (n / 10) (ground arith)))
]

show-Reads : (n : ℕ) → Reads n (show_ℕ n)
unfolding show_ℕ
show-Reads n = show_from-Reads (suc n) n (omega arith)

-- Every number is read back from its decimal print, which is digits and not empty.
pub read-show : (n : ℕ) → read_digits 0 (show_ℕ n) ≡ n
read-show n = (show-Reads n).value

pub show-Digits : (n : ℕ) → Digits (show_ℕ n)
show-Digits n = (show-Reads n).digits

pub show-ne-nil : (n : ℕ) → show_ℕ n ≢ []
show-ne-nil n = (show-Reads n).some_digit

show_from-small : (fuel n : ℕ) → 0 < fuel → n < 10 → show_from fuel n ≡ (48 + n) ∷ []
unfolding show_from
show_from-small zero n f h = absurd (omega arith)
show_from-small (suc fuel) n f h = let e : ltb n 10 ≡ true = ground arith in rw e

show_from-large :
    (fuel n : ℕ)
    → 0 < fuel
    → 10 ≤ n
    → show_from fuel n ≡ show_from (fuel - 1) (n / 10) ++ (48 + n % 10) ∷ []
unfolding show_from
show_from-large zero n f h = absurd (omega arith)
show_from-large (suc fuel) n f h =
    let e : ltb n 10 ≡ false = ground arith in
    let e' : suc fuel - 1 ≡ fuel = omega arith in rw (e, e')

-- The prints of one, two and four digits.
pub show-one : (n : ℕ) → n < 10 → show_ℕ n ≡ (48 + n) ∷ []
unfolding show_ℕ
show-one n h = show_from-small (suc n) n (omega arith) h

pub show-two : (n : ℕ) → 10 ≤ n → n < 100 → show_ℕ n ≡ (48 + n / 10) ∷ (48 + n % 10) ∷ []
unfolding show_ℕ
show-two n l h = rw (
  show_from-large (suc n) n (omega arith) l,
  show_from-small (suc n - 1) (n / 10) (omega arith) (omega arith),
)

pub show-four :
    (n : ℕ)
    → 1000 ≤ n
    → n < 10000
    → show_ℕ n
      ≡ (48 + n / 10 / 10 / 10) ∷ (48 + n / 10 / 10 % 10) ∷ (48 + n / 10 % 10) ∷ (48 + n % 10) ∷ []
unfolding show_ℕ
show-four n l h = rw (
  show_from-large (suc n) n (omega arith) (omega arith),
  show_from-large (suc n - 1) (n / 10) (omega arith) (omega arith),
  show_from-large (suc n - 1 - 1) (n / 10 / 10) (omega arith) (omega arith),
  show_from-small (suc n - 1 - 1 - 1) (n / 10 / 10 / 10) (omega arith) (omega arith),
)

-- A digit is read as its value.
pub digit_value : (d : ℕ) → d < 10 → (is_digit (48 + d) ≡ true) × (48 + d - 48 ≡ d)
digit_value d h = (digit d h, omega arith)
