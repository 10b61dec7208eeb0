-- ===== src/Sql/Literals.antt =====
-- What the scanners make of the literals that `sqlLit` writes, and of comments (src/sql.js).
use tedi_sql_explorer.Base.{
  ℕ, suc, ◌≡◌, ◌≢◌, refl, ap, ◌∙◌, true, false, Option, none, some, [], ◌∷◌, ◌++◌, append_assoc,
  append-nil, arith, Text, codes, replace_char, ◌==◌, Bool-cases, inl, inr, length, length-append,
  Lacks, StartsWith, replace_from, replace_all, replace-plain, replace-match,
}
use tedi_sql_explorer.Dialects.Quoting.{NotQuote}
use tedi_sql_explorer.Sql.{quoted}
use tedi_sql_explorer.Sql.Scan.{
  line_comment, block_comment, literal_length, string_literal, strip_comments,
}

abbrev pub doubled : Text → Text
doubled = replace_char b'\'' (b'\'' ∷ b'\'' ∷ [])

literal_end : (post : Text) → NotQuote b'\'' post → literal_length true post ≡ some 0
unfolding literal_length
literal_end [] h = refl
literal_end (c ∷ s) h = ground arith

literal-doubled :
    (s post : Text)
    → NotQuote b'\'' post
    → literal_length false (doubled s ++ (b'\'' ∷ post)) ≡ some (suc (length (doubled s)))
unfolding literal_length replace_char
literal-doubled [] post h = rw (literal_end post h)
literal-doubled (c ∷ s) post h = elim (Bool-cases (c == b'\'')) [
  | inl e ↦ rw (e, literal-doubled s post h)
  | inr e ↦ rw (e, e, literal-doubled s post h)
]

string-StartsWith : StartsWith b'\'' string_literal
unfolding string_literal
string-StartsWith = record { elsewhere = λ d s h. ground arith }

pub string_literal-quoted :
    (s post : Text)
    → NotQuote b'\'' post
    → string_literal (b'\'' ∷ ((doubled s ++ b'\'' ∷ []) ++ post))
      ≡ some (suc (length (doubled s ++ b'\'' ∷ [])))
unfolding string_literal
string_literal-quoted s post h =
    rw (append_assoc (doubled s) (b'\'' ∷ []) post, literal-doubled s post h)
      (ap (λ n. some (suc n)) (omega (arith, length-append {0} (doubled s) (b'\'' ∷ []))))

-- The third replacement blanks a literal out, whatever it holds, and goes on behind it.
pub replace-quoted :
    (pre s post : Text)
    → Lacks b'\'' pre
    → NotQuote b'\'' post
    → replace_all string_literal (codes "''") (pre ++ (quoted s ++ post))
      ≡ pre ++ (codes "''" ++ replace_all string_literal (codes "''") post)
unfolding replace_all quoted
replace-quoted pre s post hp hq =
    replace-plain string_literal (codes "''") b'\'' string-StartsWith pre _ hp
    ∙ ap (λ t. pre ++ t)
        (replace-match string_literal (codes "''") b'\'' (doubled s ++ b'\'' ∷ []) post
          (string_literal-quoted s post hq))

line_elsewhere : (d : ℕ) (s : Text) → d ≢ b'-' → line_comment (d ∷ s) ≡ none
unfolding line_comment
line_elsewhere d [] h = refl
line_elsewhere d (c ∷ s) h = ground arith

pub line-StartsWith : StartsWith b'-' line_comment
line-StartsWith = record { elsewhere = line_elsewhere }

block_elsewhere : (d : ℕ) (s : Text) → d ≢ b'/' → block_comment (d ∷ s) ≡ none
unfolding block_comment
block_elsewhere d [] h = refl
block_elsewhere d (c ∷ s) h = ground arith

pub block-StartsWith : StartsWith b'/' block_comment
block-StartsWith = record { elsewhere = block_elsewhere }

pub replace_nothing :
    (m : Text → Option ℕ) (r : Text) (c : ℕ)
    → StartsWith c m
    → (x : Text) → Lacks c x
    → replace_all m r x ≡ x
unfolding replace_all replace_from
replace_nothing m r c st x h = rw (← append-nil x) (replace-plain m r c st x [] h)

-- A text that holds neither `-` nor `/` has no comment.
abbrev pub NoComment : Text → Type 0
NoComment s = Lacks b'-' s × Lacks b'/' s

pub strip_nothing : (x : Text) → NoComment x → strip_comments x ≡ x
unfolding strip_comments
strip_nothing x h =
    rw (replace_nothing line_comment (codes " ") b'-' line-StartsWith x h.0)
      (replace_nothing block_comment (codes " ") b'/' block-StartsWith x h.1)
