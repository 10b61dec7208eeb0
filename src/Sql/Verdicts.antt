-- ===== src/Sql/Verdicts.antt =====
-- What the text of literals and comments can and cannot do to the verdict of `destructiveReason`
-- (src/sql.js).
use tedi_sql_explorer.Base.{
  ℕ, zero, suc, ◌+◌, ◌≡◌, ◌≢◌, refl, sym, ap, ◌∙◌, none, some, [], ◌∷◌, ◌++◌, append_assoc,
  append-nil, arith, Text, codes, replace_char, if◌then◌else◌, ◌==◌, length, All-append, Lacks,
  length-append, replace_from, replace_all, replace-plain, replace-match,
}
use tedi_sql_explorer.Cell.{str}
use tedi_sql_explorer.Dialects.Quoting.{NotQuote}
use tedi_sql_explorer.Sql.{quoted, sql_lit}
use tedi_sql_explorer.Sql.Scan.{
  line_length, line_comment, comment_length, block_comment, string_literal, strip_comments,
  bare_sql,
}
use tedi_sql_explorer.Sql.Destructive.{verdict, destructive_reason}
use tedi_sql_explorer.Sql.Literals.{
  NoComment, strip_nothing, replace-quoted, replace_nothing, line-StartsWith, block-StartsWith,
}

doubled-Lacks :
    (c : ℕ) (s : Text) → c ≢ b'\'' → Lacks c s → Lacks c (replace_char b'\'' (b'\'' ∷ b'\'' ∷ []) s)
unfolding replace_char
doubled-Lacks c [] h hs = tt
doubled-Lacks c (d ∷ s) h hs =
    All-append _ (if d == b'\'' then b'\'' ∷ b'\'' ∷ [] else d ∷ []) _ (ground arith)
      (doubled-Lacks c s h hs.1)

quoted-Lacks : (c : ℕ) (s : Text) → c ≢ b'\'' → Lacks c s → Lacks c (quoted s)
unfolding quoted
quoted-Lacks c s h hs =
    (λ e. h (sym e), All-append _ _ (b'\'' ∷ []) (doubled-Lacks c s h hs) (λ e. h (sym e), tt))

literal-NoComment :
    (pre s post : Text)
    → NoComment pre
    → NoComment s
    → NoComment post
    → NoComment (pre ++ (quoted s ++ post))
literal-NoComment pre s post (p, p') (h, h') (q, q') = (
  All-append _ pre _ p (All-append _ (quoted s) post (quoted-Lacks _ s (omega arith) h) q),
  All-append _ pre _ p' (All-append _ (quoted s) post (quoted-Lacks _ s (omega arith) h') q'),
)

pub bare-literal :
    (pre s post : Text)
    → NoComment pre
    → NoComment s
    → NoComment post
    → Lacks b'\'' pre
    → NotQuote b'\'' post
    → bare_sql (pre ++ (quoted s ++ post))
      ≡ pre ++ (codes "''" ++ replace_all string_literal (codes "''") post)
unfolding bare_sql
bare-literal pre s post p h q lp nq =
    rw (strip_nothing _ (literal-NoComment pre s post p h q)) (replace-quoted pre s post lp nq)

-- Where no `-` and no `/` occurs, what a text literal holds does not change the verdict on the
-- statement around it: two statements that differ only in the text of one literal, the first one of
-- the statement, get the same answer.
pub literal_irrelevant :
    (pre s t post : Text)
    → NoComment pre
    → NoComment s
    → NoComment t
    → NoComment post
    → Lacks b'\'' pre
    → NotQuote b'\'' post
    → destructive_reason (pre ++ (sql_lit (str s) ++ post))
      ≡ destructive_reason (pre ++ (sql_lit (str t) ++ post))
unfolding destructive_reason sql_lit
literal_irrelevant pre s t post p hs ht q lp nq =
    rw (bare-literal pre s post p hs q lp nq, bare-literal pre t post p ht q lp nq)

-- The text runs to the end of its line.
abbrev pub OneLine : Text → Type 0
OneLine s = Lacks 13 s × Lacks 10 s

line_length_lem : (s : Text) → OneLine s → line_length s ≡ length s
unfolding line_length
line_length_lem [] h = refl
line_length_lem (c ∷ s) h = ground (arith, line_length_lem s (h.0.1, h.1.1))

strip_line :
    (sql c : Text)
    → Lacks b'-' sql
    → OneLine c
    → replace_all line_comment (codes " ") (sql ++ (codes "--" ++ c)) ≡ sql ++ codes " "
unfolding replace_all
strip_line sql c hs hc =
    replace-plain line_comment (codes " ") b'-' line-StartsWith sql _ hs
    ∙ ap (λ t. sql ++ t) (rw (← append-nil c) comment)
  where
    comment : replace_from zero line_comment (codes " ") (codes "--" ++ (c ++ [])) ≡ codes " "
    comment =
        replace-match line_comment (codes " ") b'-' (b'-' ∷ c) []
          (rw append-nil (unfold line_comment in rw (line_length_lem c hc)))

verdict_of_stripped :
    (a b : Text) → strip_comments a ≡ strip_comments b → destructive_reason a ≡ destructive_reason b
unfolding destructive_reason bare_sql
verdict_of_stripped a b h = ap (λ t. verdict (replace_all string_literal (codes "''") t)) h

-- A comment at the end of a statement that holds no `-` counts as a space: no keyword in it raises or
-- lifts the confirmation.
comment_irrelevant :
    (sql c : Text)
    → Lacks b'-' sql
    → OneLine c
    → destructive_reason (sql ++ (codes "--" ++ c)) ≡ destructive_reason (sql ++ codes " ")
unfolding strip_comments
comment_irrelevant sql c hs hc = verdict_of_stripped _ _ (
    ap (replace_all block_comment (codes " ")) (
      strip_line sql c hs hc
      ∙ sym (
          replace_nothing line_comment (codes " ") b'-' line-StartsWith (sql ++ codes " ")
            (All-append _ sql (codes " ") hs (omega arith)))))

-- The code unit `*` does not occur, so no block comment ends.
comment_length_lem :
    (s post : Text)
    → Lacks b'*' s
    → comment_length (s ++ (codes "*/" ++ post)) ≡ some (length s + 2)
unfolding comment_length
comment_length_lem [] post h = refl
comment_length_lem (c ∷ []) post h = ground arith
comment_length_lem (c ∷ d ∷ s) post h = ground (arith, comment_length_lem (d ∷ s) post h.1)

-- A block comment that is closed is replaced.
block_span :
    (r pre mid post : Text)
    → Lacks b'/' pre
    → Lacks b'*' mid
    → replace_all block_comment r (pre ++ (b'/' ∷ ((b'*' ∷ (mid ++ codes "*/")) ++ post)))
      ≡ pre ++ (r ++ replace_all block_comment r post)
unfolding replace_all
block_span r pre mid post hp hm =
    replace-plain block_comment r b'/' block-StartsWith pre _ hp
    ∙ ap (λ t. pre ++ t)
        (replace-match block_comment r b'/' (b'*' ∷ (mid ++ codes "*/")) post (spans post hm))
  where
    spans :
        (end : Text)
        → Lacks b'*' mid
        → block_comment (b'/' ∷ ((b'*' ∷ (mid ++ codes "*/")) ++ end))
          ≡ some (suc (length (b'*' ∷ (mid ++ codes "*/"))))
    spans end h =
        unfold block_comment in
        rw (append_assoc mid (codes "*/") end, comment_length_lem mid end h)
          (ap (λ n. some (suc (suc n))) (sym (length-append mid (codes "*/"))))

-- A statement between two literals that hold the marks of a block comment.
pub hide : Text → Text
hide s = codes "SELECT '/*'; " ++ (s ++ codes "; SELECT '*/'")

hide_span :
    (s : Text)
    → hide s
      ≡ codes "SELECT '"
        ++ (b'/'
            ∷ ((b'*' ∷ ((codes "'; " ++ (s ++ codes "; SELECT '")) ++ codes "*/")) ++ codes "'"))
unfolding hide
hide_span s = simp append_assoc

hide-Lacks : (s : Text) → Lacks b'-' s → Lacks b'-' (hide s)
unfolding hide
hide-Lacks s h =
    All-append _ (codes "SELECT '/*'; ") _ (omega arith) (All-append _ s _ h (omega arith))

strip_block-hide :
    (s : Text) → Lacks b'*' s → replace_all block_comment (codes " ") (hide s) ≡ codes "SELECT ' '"
strip_block-hide s h =
    ap (replace_all block_comment (codes " ")) (hide_span s)
    ∙ block_span (codes " ") (codes "SELECT '") (codes "'; " ++ (s ++ codes "; SELECT '"))
        (codes "'") (omega arith)
        (All-append _ (codes "'; ") _ (omega arith) (All-append _ s _ h (omega arith)))
    ∙ (unfold block_comment replace_all in refl)

strip-hide : (s : Text) → Lacks b'-' s → Lacks b'*' s → strip_comments (hide s) ≡ codes "SELECT ' '"
unfolding strip_comments
strip-hide s hd hs =
    ap (replace_all block_comment (codes " "))
      (replace_nothing line_comment (codes " ") b'-' line-StartsWith (hide s) (hide-Lacks s hd))
    ∙ strip_block-hide s hs

silent : destructive_reason (codes "SELECT ' '") ≡ none
unfolding destructive_reason
silent = refl

-- `destructiveReason` is silent on a script with a statement between a literal that holds the start
-- mark of a block comment and one that holds its end mark, whatever that statement is between the two
-- literals, if that statement holds no `-` and no `*`: the comment is taken out before the literals.
pub hidden_statement : (s : Text) → Lacks b'-' s → Lacks b'*' s → destructive_reason (hide s) ≡ none
hidden_statement s hd hs =
    verdict_of_stripped (hide s) (codes "SELECT ' '")
      (strip-hide s hd hs ∙ (unfold strip_comments in refl))
    ∙ silent
