-- ===== src/CopyInfo/Shell.antt =====
-- The command line of src/connections/copyInfo.js as a POSIX shell splits it into words. Of a shell's
-- syntax this has blanks, single quotes and the backslash outside of quotes.
use tedi_sql_explorer.Base.{
  ℕ, ◌==◌, ◌≡◌, refl, sym, ap, ◌∙◌, false, ◌||◌, Bool-cases, inl, inr, Option, none, some, List, [],
  ◌∷◌, ◌++◌, append_assoc, append-nil, Text, codes, arith, All, replace_char, if◌then◌else◌, map,
  or_else,
}
use tedi_sql_explorer.CopyInfo.{shell_quote}

pub data Mode : Type 0 where
  plain quoted escaped : Mode

abbrev pub grown : Option Text → Text → Text
grown none t = t
grown (some w) t = w ++ t

-- One code unit: the mode and the word behind it, and a word that it ends.
abbrev pub next : Mode → Option Text → ℕ → Mode × Option Text × Option Text
next plain w c =
    if c == b' '
    then (plain, none, w)
    else if c == b'\''
    then (quoted, some (or_else w []), none)
    else if c == b'\\'
    then (escaped, w, none)
    else (plain, some (grown w (c ∷ [])), none)
next quoted w c = if c == b'\'' then (plain, w, none) else (quoted, some (grown w (c ∷ [])), none)
next escaped w c = (plain, some (grown w (c ∷ [])), none)

abbrev pub emit : Option Text → Option (List Text) → Option (List Text)
emit none ws = ws
emit (some w) none = none
emit (some w) (some ws) = some (w ∷ ws)

abbrev pub last_word : Mode → Option Text → Option (List Text)
last_word plain none = some []
last_word plain (some w) = some (w ∷ [])
last_word quoted w = none
last_word escaped w = none

-- The words of a command, where its quotes are closed.
unfoldable pub split_words : Mode → Option Text → Text → Option (List Text)
split_words m w [] = last_word m w
split_words m w (c ∷ s) = let (m', w', out) = next m w c in emit out (split_words m' w' s)

unfoldable pub words : Text → Option (List Text)
unfolding split_words
words s = split_words plain none s

-- A text that means itself to a shell.
abbrev pub IsPlain : Text → Type 0
IsPlain = All (λ c. (c == b' ' || c == b'\'' || c == b'\\') ≡ false)

moved :
    (w x s r : Text)
    → split_words plain (some ((w ++ x) ++ s)) r ≡ split_words plain (some (w ++ (x ++ s))) r
moved w x s r = ap (λ t. split_words plain (some t) r) (append_assoc w x s)

-- One code unit that a quoted text keeps, and one that a plain text keeps.
quoted_unit :
    (c : ℕ) (w r : Text)
    → (c == b'\'') ≡ false
    → split_words quoted (some w) (c ∷ r) ≡ split_words quoted (some (w ++ (c ∷ []))) r
unfolding split_words
quoted_unit c w r e = rw (split_words, e) refl

inside :
    (s w r : Text)
    → split_words quoted (some w) (replace_char b'\'' (codes "'\\''") s ++ (b'\'' ∷ r))
      ≡ split_words plain (some (w ++ s)) r
unfolding split_words replace_char
inside [] w r = rw (append-nil w) refl
inside (c ∷ s) w r = elim (Bool-cases (c == b'\'')) [
  | inl e ↦
      let c39 : c ≡ b'\'' = ground arith in
      rw c39 (inside s (w ++ (b'\'' ∷ [])) r ∙ moved w (b'\'' ∷ []) s r)
  | inr e ↦ rw e (quoted_unit c w _ e ∙ inside s (w ++ (c ∷ [])) r ∙ moved w (c ∷ []) s r)
]

-- A quoted text is read as itself, whatever it holds, behind whatever the word began with.
quoted_text :
    (s w r : Text)
    → split_words plain (some w) (shell_quote s ++ r) ≡ split_words plain (some (w ++ s)) r
unfolding shell_quote split_words
quoted_text s w r =
    ap (λ t. split_words quoted (some w) t)
      (append_assoc (replace_char b'\'' (codes "'\\''") s) (b'\'' ∷ []) r)
    ∙ inside s w r

quoted_word :
    (s r : Text) → split_words plain none (shell_quote s ++ r) ≡ split_words plain (some s) r
unfolding shell_quote split_words
quoted_word s r =
    ap (λ t. split_words quoted (some []) t)
      (append_assoc (replace_char b'\'' (codes "'\\''") s) (b'\'' ∷ []) r)
    ∙ inside s [] r

plain_unit :
    (c : ℕ) (w : Option Text) (r : Text)
    → (c == b' ' || c == b'\'' || c == b'\\') ≡ false
    → split_words plain w (c ∷ r) ≡ split_words plain (some (grown w (c ∷ []))) r
unfolding split_words
plain_unit c w r e =
    let a : (c == b' ') ≡ false = ground arith in
    let b : (c == b'\'') ≡ false = ground arith in
    let d : (c == b'\\') ≡ false = ground arith in rw (split_words, a, b, d) refl

plain_text :
    (s w r : Text)
    → IsPlain s
    → split_words plain (some w) (s ++ r) ≡ split_words plain (some (w ++ s)) r
plain_text [] w r h = ap (λ t. split_words plain (some t) r) (sym (append-nil w))
plain_text (c ∷ s) w r h =
    plain_unit c (some w) (s ++ r) h.0 ∙ plain_text s (w ++ (c ∷ [])) r h.1 ∙ moved w (c ∷ []) s r

-- An argument as the command writes it: as it is, or quoted behind a part that is not.
pub data Arg : Type 0 where
  bare : ℕ → Text → Arg
  literal : Text → Arg
  joined : ℕ → Text → Text → Arg

abbrev pub value : Arg → Text
value (bare c s) = c ∷ s
value (literal s) = s
value (joined c p s) = (c ∷ p) ++ s

unfoldable pub rendered : Arg → Text
unfolding shell_quote
rendered (bare c s) = c ∷ s
rendered (literal s) = shell_quote s
rendered (joined c p s) = (c ∷ p) ++ shell_quote s

abbrev pub IsArg : Arg → Type 0
IsArg (bare c s) = IsPlain (c ∷ s)
IsArg (literal s) = Unit
IsArg (joined c p s) = IsPlain (c ∷ p)

pub started :
    (c : ℕ) (s r : Text)
    → IsPlain (c ∷ s)
    → split_words plain none ((c ∷ s) ++ r) ≡ split_words plain (some (c ∷ s)) r
started c s r h = plain_unit c none (s ++ r) h.0 ∙ plain_text s (c ∷ []) r h.1

pub argument :
    (a : Arg) (r : Text)
    → IsArg a
    → split_words plain none (rendered a ++ r) ≡ split_words plain (some (value a)) r
unfolding rendered
argument (bare c s) r h = started c s r h
argument (literal s) r h = quoted_word s r
argument (joined c p s) r h =
    ap (split_words plain none) (append_assoc (c ∷ p) (shell_quote s) r)
    ∙ started c p (shell_quote s ++ r) h
    ∙ quoted_text s (c ∷ p) r

-- Arguments, each behind a blank.
unfoldable pub tail : List Arg → Text
unfolding rendered
tail [] = []
tail (a ∷ as') = b' ' ∷ (rendered a ++ tail as')

pub tail_words :
    (w : Text) (args : List Arg)
    → All IsArg args
    → split_words plain (some w) (tail args) ≡ some (w ∷ map value args)
unfolding split_words tail
tail_words w [] h = refl
tail_words w (a ∷ args) h =
    ap (emit (some w)) (argument a (tail args) h.0 ∙ tail_words (value a) args h.1)
