-- ===== src/Base/Regex.antt =====
-- The regular expressions of the program, as matchers that are run at each position.
use Prim.Native.Nat.{ℕ, zero, suc, ◌+◌, ◌-◌}
use mathlib.Core.Bool.{Bool, false, ◌&&◌, ◌||◌, not}
use mathlib.Core.Option.{Option, none, some}
use mathlib.Core.List.{[], ◌∷◌, ◌++◌}
use tedi_sql_explorer.Base.Tests.{if◌then◌else◌, leb, ◌==◌}
use tedi_sql_explorer.Base.Strings.{Text, is_space}

-- `[A-Za-z0-9_]`.
unfoldable pub is_word : ℕ → Bool
is_word c =
    (leb b'a' c && leb c b'z')
    || (leb b'A' c && leb c b'Z')
    || (leb b'0' c && leb c b'9')
    || c == b'_'

-- Case folding of the `i` flag, which for a pattern in ASCII is that of the ASCII letters.
unfoldable pub fold_case : ℕ → ℕ
fold_case c = if leb b'A' c && leb c b'Z' then c + 32 else c

-- The text behind one keyword, compared without regard to case; the keyword is in lower case.
unfoldable pub keyword : Text → Text → Option Text
unfolding fold_case
keyword [] s = some s
keyword (k ∷ ks) [] = none
keyword (k ∷ ks) (c ∷ s) = if k == fold_case c then keyword ks s else none

-- `\s*` and `\s+`; what follows in the program's patterns never begins with a space.
unfoldable pub skip_spaces : Text → Text
unfolding is_space
skip_spaces [] = []
skip_spaces (c ∷ s) = let rest = skip_spaces s in if is_space c then rest else c ∷ s

unfoldable pub spaces : Text → Option Text
unfolding skip_spaces
spaces [] = none
spaces (c ∷ s) = if is_space c then some (skip_spaces s) else none

-- `\b` between the previous code unit and what follows.
unfoldable pub starts_word : Text → Bool
unfolding is_word
starts_word [] = false
starts_word (c ∷ s) = is_word c

unfoldable pub ends_word : Option ℕ → Bool
unfolding is_word
ends_word none = false
ends_word (some c) = is_word c

unfoldable pub boundary : Option ℕ → Text → Bool
unfolding starts_word ends_word
boundary prev s = if ends_word prev then not (starts_word s) else starts_word s

-- `re.test(s)`: the matcher is tried at every position, with the code unit before it.
unfoldable pub test_at : (Option ℕ → Text → Bool) → Option ℕ → Text → Bool
test_at m prev [] = m prev []
test_at m prev (c ∷ s) = m prev (c ∷ s) || test_at m (some c) s

unfoldable pub test : (Option ℕ → Text → Bool) → Text → Bool
unfolding test_at
test m s = test_at m none s

-- `s.replace(re, r)` with the `g` flag. The matcher gives the length of a match that begins here,
-- and the first argument counts the code units of a match that are still to be passed over.
unfoldable pub replace_from : ℕ → (Text → Option ℕ) → Text → Text → Text
replace_from skip m r [] = []
replace_from (suc skip) m r (c ∷ s) = replace_from skip m r s
replace_from zero m r (c ∷ s) = elim (m (c ∷ s)) [
  | none ↦ c ∷ replace_from zero m r s
  | some n ↦ r ++ replace_from (n - 1) m r s
]

unfoldable pub replace_all : (Text → Option ℕ) → Text → Text → Text
unfolding replace_from
replace_all m r s = replace_from zero m r s
