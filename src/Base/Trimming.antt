-- ===== src/Base/Trimming.antt =====
-- `trim` leaves a trimmed text alone.
use mathlib.Core.Path.{◌≡◌, refl, ap, ◌∙◌}
use mathlib.Core.Logic.{inl, inr}
use mathlib.Core.Bool.{true, false}
use mathlib.Core.List.{[], ◌∷◌}
use native.Mathlib.Omega.{arith}
use tedi_sql_explorer.Base.Tests.{if◌then◌else◌, Bool-cases}
use tedi_sql_explorer.Base.Strings.{Text, is_space, trim_start, trim_end, trim}
use Prim.Native.Nat.{ℕ}

-- What a step of `trim_end` makes of the rest that was trimmed.
abbrev pub keep : ℕ → Text → Text
keep c [] = if is_space c then [] else c ∷ []
keep c (d ∷ t) = c ∷ d ∷ t

pub trim_end-cons : (c : ℕ) (s : Text) → trim_end (c ∷ s) ≡ keep c (trim_end s)
unfolding trim_end
trim_end-cons c s = ground arith

trim_end-keep : (c : ℕ) (t : Text) → trim_end t ≡ t → trim_end (keep c t) ≡ keep c t
trim_end-keep c [] h = elim (Bool-cases (is_space c)) [
  | inl e ↦ rw e (unfold trim_end in refl)
  | inr e ↦ rw e (unfold trim_end in rw e)
]
trim_end-keep c (d ∷ t) h = trim_end-cons c (d ∷ t) ∙ ap (keep c) h

trim_end_idem : (s : Text) → trim_end (trim_end s) ≡ trim_end s
trim_end_idem [] = unfold trim_end in refl
trim_end_idem (c ∷ s) = rw (trim_end-cons c s) (trim_end-keep c (trim_end s) (trim_end_idem s))

trim_start-keep : (c : ℕ) (t : Text) → is_space c ≡ false → trim_start (keep c t) ≡ keep c t
unfolding trim_start
trim_start-keep c [] h = rw (h, h)
trim_start-keep c (d ∷ t) h = rw h

trim_start-space : (c : ℕ) (s : Text) → is_space c ≡ true → trim_start (c ∷ s) ≡ trim_start s
unfolding trim_start
trim_start-space c s e = rw e

trim_start-stop : (c : ℕ) (s : Text) → is_space c ≡ false → trim_start (c ∷ s) ≡ c ∷ s
unfolding trim_start
trim_start-stop c s e = rw e

-- Trimming the end does not bring a space to the front.
trim_start-trim_end : (s : Text) → trim_start (trim_end (trim_start s)) ≡ trim_end (trim_start s)
trim_start-trim_end [] = unfold trim_start trim_end in refl
trim_start-trim_end (c ∷ s) = elim (Bool-cases (is_space c)) [
  | inl e ↦ rw (trim_start-space c s e) (trim_start-trim_end s)
  | inr e ↦ rw (trim_start-stop c s e, trim_end-cons c s) (trim_start-keep c (trim_end s) e)
]

pub trim_idem : (s : Text) → trim (trim s) ≡ trim s
unfolding trim
trim_idem s = rw (trim_start-trim_end s) (trim_end_idem (trim_start s))
