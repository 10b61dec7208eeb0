-- ===== src/Base/Splitting.antt =====
-- Laws of `split`: a part, and a separator behind it.
use Prim.Native.Nat.{ℕ}
use mathlib.Core.Path.{◌≡◌, refl}
use mathlib.Core.Bool.{false}
use mathlib.Core.List.{List, [], ◌∷◌, ◌++◌}
use native.Mathlib.Omega.{arith}
use tedi_sql_explorer.Base.Tests.{if◌then◌else◌, ◌==◌, ==_refl}
use tedi_sql_explorer.Base.Strings.{Text, split}
use tedi_sql_explorer.Base.Replacing.{Lacks}

-- What the split of a rest becomes with one more code unit in front.
abbrev pub grow : ℕ → ℕ → List Text → List Text
grow sep c [] = (c ∷ []) ∷ []
grow sep c (p ∷ ps) = if c == sep then [] ∷ p ∷ ps else (c ∷ p) ∷ ps

pub split-cons : (sep c : ℕ) (s : Text) → split sep (c ∷ s) ≡ grow sep c (split sep s)
unfolding split
split-cons sep c s = ground arith

-- A text without the separator is one part.
pub split-one : (sep : ℕ) (p : Text) → Lacks sep p → split sep p ≡ p ∷ []
split-one sep [] h = unfold split in refl
split-one sep (c ∷ p) h =
    let ne : (c == sep) ≡ false = ground arith in rw (split-cons sep c p, split-one sep p h.1, ne)

split-sep :
    (sep : ℕ) (rest q : Text) (qs : List Text)
    → split sep rest ≡ q ∷ qs
    → split sep (sep ∷ rest) ≡ [] ∷ q ∷ qs
split-sep sep rest q qs h = rw (split-cons sep sep rest, h, ==_refl sep)

-- A part with the separator behind it is split off.
pub split-part :
    (sep : ℕ) (p rest q : Text) (qs : List Text)
    → Lacks sep p
    → split sep rest ≡ q ∷ qs
    → split sep (p ++ (sep ∷ rest)) ≡ p ∷ q ∷ qs
split-part sep [] rest q qs l h = split-sep sep rest q qs h
split-part sep (c ∷ p) rest q qs l h =
    let ne : (c == sep) ≡ false = ground arith in
    rw (split-cons sep c (p ++ (sep ∷ rest)), split-part sep p rest q qs l.1 h, ne)
