-- ===== src/Sql/Scan.antt =====
-- `bareSql` of src/sql.js: comments and string literals are blanked out by three replacements, one
-- after the other. Each is a matcher that gives the length of a match at the head of a text.
use tedi_sql_explorer.Base.{
  ℕ, suc, Bool, true, false, ◌||◌, ◌≡◌, refl, Option, none, some, [], ◌∷◌, Text, codes,
  if◌then◌else◌, ◌==◌, replace_all,
}

-- `[^\r\n]*`.
unfoldable pub line_length : Text → ℕ
line_length [] = 0
line_length (c ∷ s) = let more = suc (line_length s) in if c == 13 || c == 10 then 0 else more

-- `/--[^\r\n]*/`.
unfoldable pub line_comment : Text → Option ℕ
unfolding line_length
line_comment (c ∷ d ∷ s) =
    if c == b'-' then (if d == b'-' then some (suc (suc (line_length s))) else none) else none
line_comment _ = none

abbrev plus_one : Option ℕ → Option ℕ
plus_one none = none
plus_one (some n) = some (suc n)

-- `[\s\S]*?\*\/`: the length up to the end of the first `*/`.
unfoldable pub comment_length : Text → Option ℕ
comment_length [] = none
comment_length (c ∷ []) = none
comment_length (c ∷ d ∷ s) =
    let more = plus_one (comment_length (d ∷ s)) in
    if c == b'*' then (if d == b'/' then some 2 else more) else more

abbrev plus_two : Option ℕ → Option ℕ
plus_two none = none
plus_two (some n) = some (suc (suc n))

-- `/\/\*[\s\S]*?\*\//`.
unfoldable pub block_comment : Text → Option ℕ
unfolding comment_length
block_comment (c ∷ d ∷ s) =
    if c == b'/' then (if d == b'*' then plus_two (comment_length s) else none) else none
block_comment _ = none

abbrev first_of_two : Option ℕ → ℕ → Option ℕ
first_of_two none n = some n
first_of_two (some m) n = some m

-- `(?:''|[^'])*'` behind an opening quote. The flag says that the code unit before was a quote which
-- may end the literal here, or pair with a second one: the greedy loop takes the pair first, and
-- gives it back when no quote ends the literal further on.
unfoldable pub literal_length : Bool → Text → Option ℕ
literal_length false [] = none
literal_length true [] = some 0
literal_length false (c ∷ s) =
    let pair = plus_one (literal_length true s) in
    let more = plus_one (literal_length false s) in if c == b'\'' then pair else more
literal_length true (c ∷ s) =
    let more = first_of_two (plus_one (literal_length false s)) 0 in
    if c == b'\'' then more else some 0

-- `/'(?:''|[^'])*'/`.
unfoldable pub string_literal : Text → Option ℕ
unfolding literal_length
string_literal [] = none
string_literal (c ∷ s) = if c == b'\'' then plus_one (literal_length false s) else none

-- The first two replacements.
unfoldable pub strip_comments : Text → Text
unfolding line_comment block_comment replace_all
strip_comments sql =
    replace_all block_comment (codes " ") (replace_all line_comment (codes " ") sql)

-- `bareSql(sql)`.
unfoldable pub bare_sql : Text → Text
unfolding strip_comments string_literal replace_all
bare_sql sql = replace_all string_literal (codes "''") (strip_comments sql)

string_run : bare_sql (codes "a 'x''y' -- b\nc /* d */ 'e''") ≡ codes "a ''  \nc   '''"
unfolding bare_sql
string_run = refl
