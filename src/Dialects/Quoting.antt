-- ===== src/Dialects/Quoting.antt =====
-- What a SQL lexer reads back from the identifiers that `quoteIdent` writes (src/dialects/index.js).
use tedi_sql_explorer.Base.{
  ℕ, ◌≡◌, ◌≢◌, refl, Bool, true, false, Option, none, some, [], ◌∷◌, ◌++◌, append_assoc, arith,
  Text, replace_char, if◌then◌else◌, ◌==◌, ==_refl, ==_iff, Bool-cases, inl, inr,
}
use tedi_sql_explorer.Dialects.{Dialect, quote_ident}

abbrev prepend : ℕ → Option (Text × Text) → Option (Text × Text)
prepend c none = none
prepend c (some (s, rest)) = some (c ∷ s, rest)

-- The lexer of a quoted token behind its opening quote: a doubled quote stands for one, and a single
-- one ends the token. The flag says that the last code unit read was a quote.
unfoldable pub lex_quoted : ℕ → Bool → Text → Option (Text × Text)
lex_quoted q false [] = none
lex_quoted q true [] = some ([], [])
lex_quoted q false (c ∷ s) =
    let after = lex_quoted q true s in
    let more = prepend c (lex_quoted q false s) in if c == q then after else more
lex_quoted q true (c ∷ s) =
    let more = prepend q (lex_quoted q false s) in if c == q then more else some ([], c ∷ s)

-- The text of a token with its quotes, and what stands behind it.
unfoldable pub read_quoted : ℕ → Text → Option (Text × Text)
unfolding lex_quoted
read_quoted q [] = none
read_quoted q (c ∷ s) = if c == q then lex_quoted q false s else none

-- The token is not followed by another quote, which would belong to it.
abbrev pub NotQuote : ℕ → Text → Type 0
NotQuote q [] = Unit
NotQuote q (c ∷ s) = c ≢ q

lex_end : (q : ℕ) (rest : Text) → NotQuote q rest → lex_quoted q true rest ≡ some ([], rest)
unfolding lex_quoted
lex_end q [] h = refl
lex_end q (c ∷ s) h = ground arith

lex-doubled :
    (q : ℕ) (name rest : Text)
    → NotQuote q rest
    → lex_quoted q false (replace_char q (q ∷ q ∷ []) name ++ (q ∷ rest)) ≡ some (name, rest)
unfolding lex_quoted replace_char
lex-doubled q [] rest h = ground (arith, lex_end q rest h)
lex-doubled q (c ∷ name) rest h = elim (Bool-cases (c == q)) [
  | inl e ↦ rw (e, (==_iff c q).0 e, ==_refl q, lex-doubled q name rest h)
  | inr e ↦ rw (e, e, lex-doubled q name rest h)
]

-- A quote, the doubled text and a quote are read back as the text, whatever stands behind.
pub read-doubled :
    (q : ℕ) (name rest : Text)
    → NotQuote q rest
    → read_quoted q (q ∷ (replace_char q (q ∷ q ∷ []) name ++ (q ∷ rest))) ≡ some (name, rest)
unfolding read_quoted
read-doubled q name rest h = rw (==_refl q) (lex-doubled q name rest h)

-- For every dialect, every identifier and every text behind it that does not begin with the quote
-- character, the lexer reads the quoted identifier back and stops exactly behind it.
pub read-quote_ident :
    (d : Dialect) (name rest : Text)
    → NotQuote d.quote_char rest
    → read_quoted d.quote_char (quote_ident d name ++ rest) ≡ some (name, rest)
unfolding quote_ident
read-quote_ident d name rest h = simp append_assoc (read-doubled d.quote_char name rest h)
