-- ===== src/Sql/Destructive.antt =====
-- `destructiveReason` of src/sql.js, its two regular expressions included.
use tedi_sql_explorer.Base.{
  ℕ, Bool, false, ◌&&◌, ◌||◌, not, Option, none, some, List, [], ◌∷◌, Text, codes, if◌then◌else◌,
  split, trim, keyword, spaces, starts_word, boundary, test, is_some,
}
use tedi_sql_explorer.Sql.Scan.{bare_sql}

-- The word has been read when no word character follows: its last letter is before the boundary.
unfoldable pub ends_here : Option Text → Bool
unfolding starts_word
ends_here none = false
ends_here (some rest) = not (starts_word rest)

-- Two keywords with spaces between them.
unfoldable pub two_words : Text → Text → Text → Option Text
unfolding keyword spaces
two_words a b s = elim (keyword a s) [
  | none ↦ none
  | some r ↦ elim (spaces r) [ none ↦ none | some t ↦ keyword b t ]
]

-- `DESTRUCTIVE_REGEX`. Its `TABLE?` makes the `E` optional, not the word.
unfoldable pub destructive_at : Option ℕ → Text → Bool
unfolding ends_here two_words boundary
destructive_at prev s =
    boundary prev s
    && (ends_here (two_words (codes "drop") (codes "database") s)
        || ends_here (two_words (codes "drop") (codes "schema") s)
        || ends_here (two_words (codes "drop") (codes "table") s)
        || ends_here (two_words (codes "truncate") (codes "table") s)
        || ends_here (two_words (codes "truncate") (codes "tabl") s)
        || ends_here (two_words (codes "drop") (codes "role") s)
        || ends_here (two_words (codes "grant") (codes "all") s))

-- `/\bword\b/i`.
unfoldable pub word_at : Text → Option ℕ → Text → Bool
unfolding boundary ends_here keyword
word_at w prev s = boundary prev s && ends_here (keyword w s)

unfoldable pub has_word : Text → Text → Bool
unfolding word_at test
has_word w s = test (word_at w) s

-- `/^(delete\s+from|update)\b/i`.
unfoldable pub writes_rows : Text → Bool
unfolding ends_here two_words keyword
writes_rows s =
    ends_here (two_words (codes "delete") (codes "from") s)
    || ends_here (keyword (codes "update") s)

pub data Reason : Type 0 where
  drops delete_all update_all : Reason

unfoldable pub row_reason : Text → Reason
unfolding keyword
row_reason s = if is_some (keyword (codes "delete") s) then delete_all else update_all

-- The loop over the statements.
unfoldable pub check_statements : List Text → Option Reason
unfolding trim writes_rows has_word row_reason
check_statements [] = none
check_statements (stmt ∷ rest) =
    let s = trim stmt in
    let more = check_statements rest in
    if not (writes_rows s)
    then more
    else if has_word (codes "where") s
    then more
    else some (row_reason s)

-- What is decided once comments and literals are blanked out.
unfoldable pub verdict : Text → Option Reason
unfolding destructive_at test split check_statements
verdict clean =
    if test destructive_at clean then some drops else check_statements (split b';' clean)

unfoldable pub destructive_reason : Text → Option Reason
unfolding bare_sql verdict
destructive_reason sql = verdict (bare_sql sql)
