-- ===== src/Base/Replacing.antt =====
-- Laws of a global replacement: where no match begins the text stays, and a match is passed over.
use Prim.Native.Nat.{ℕ, zero, suc, ◌-◌}
use mathlib.Core.Path.{◌≡◌, refl, ap}
use mathlib.Core.Logic.{◌≢◌}
use mathlib.Core.Option.{Option, none, some}
use mathlib.Core.List.{[], ◌∷◌, ◌++◌}
use native.Mathlib.Omega.{arith}
use tedi_sql_explorer.Base.Lists.{length, All}
use tedi_sql_explorer.Base.Strings.{Text}
use tedi_sql_explorer.Base.Regex.{replace_from}

-- The code unit does not occur in the text.
abbrev pub Lacks : ℕ → Text → Type 0
Lacks c = All (λ d. d ≢ c)

-- A matcher that only matches at one code unit.
pub record StartsWith (c : ℕ) (m : Text → Option ℕ) : Type 0 where
  pub elsewhere : (d : ℕ) (s : Text) → d ≢ c → m (d ∷ s) ≡ none

module _ (m : Text → Option ℕ) (r : Text) where
  pub replace_skip : (x y : Text) → replace_from (length x) m r (x ++ y) ≡ replace_from zero m r y
  unfolding replace_from
  replace_skip [] y = refl
  replace_skip (c ∷ x) y = replace_skip x y

  pub replace-plain :
      (c : ℕ)
      → StartsWith c m
      → (x y : Text) → Lacks c x
      → replace_from zero m r (x ++ y) ≡ x ++ replace_from zero m r y
  unfolding replace_from
  replace-plain c st [] y h = refl
  replace-plain c st (d ∷ x) y h =
      rw (st.elsewhere d (x ++ y) h.0, replace_from) (ap (λ t. d ∷ t) (replace-plain c st x y h.1))

  -- A match that spans one code unit and `x`.
  pub replace-match :
      (c : ℕ) (x y : Text)
      → m (c ∷ (x ++ y)) ≡ some (suc (length x))
      → replace_from zero m r (c ∷ (x ++ y)) ≡ r ++ replace_from zero m r y
  unfolding replace_from
  replace-match c x y h =
      let e : suc (length x) - 1 ≡ length x = omega arith in
      rw (h, replace_from) (rw e (ap (λ t. r ++ t) (replace_skip x y)))
