-- ===== src/Query/References.antt =====
-- `parseSqlReferences` and `isSingleTableSelect` of src/query/sqlRefs.js. `lower` is `toLowerCase`.
use tedi_sql_explorer.Base.{
  ℕ, zero, suc, ◌==◌, ◌-◌, leb, Bool, false, not, ◌&&◌, ◌||◌, Option, none, some, List, [], ◌∷◌,
  ◌++◌, Text, codes, text_eq, any, map, join, split, trim, is_empty, if◌then◌else◌, first_some,
  is_word, keyword, skip_spaces, spaces, boundary, test, length,
}
use tedi_sql_explorer.Sql.Scan.{bare_sql}
use tedi_sql_explorer.Sql.Destructive.{ends_here, two_words, has_word}

-- `/\ba\s+b\b/i`.
unfoldable pub words_at : Text → Text → Option ℕ → Text → Bool
unfolding boundary ends_here two_words
words_at a b prev s = boundary prev s && ends_here (two_words a b s)

abbrev pub word_here : Text → Option ℕ → Text → Bool
word_here w prev s = boundary prev s && ends_here (keyword w s)

-- What ends the FROM clause.
unfoldable pub stops_at : Option ℕ → Text → Bool
unfolding boundary ends_here keyword
stops_at prev s =
    word_here (codes "where") prev s
    || word_here (codes "group") prev s
    || word_here (codes "order") prev s
    || word_here (codes "limit") prev s
    || word_here (codes "having") prev s
    || word_here (codes "window") prev s

-- A comma before the clause ends.
unfoldable pub comma_before_stop : Option ℕ → Text → Bool
unfolding stops_at
comma_before_stop prev [] = false
comma_before_stop prev (c ∷ s) =
    let more = comma_before_stop (some c) s in
    if stops_at prev (c ∷ s) then false else c == b',' || more

abbrev pub from_clause : Option Text → Bool → Bool
unfolding comma_before_stop
from_clause none otherwise = otherwise
from_clause (some rest) otherwise = comma_before_stop (some b'm') rest

abbrev pub from_here : Option ℕ → Text → Option Text
unfolding boundary ends_here keyword
from_here prev s = if word_here (codes "from") prev s then keyword (codes "from") s else none

-- Whether the first FROM clause has a comma.
unfoldable pub from_comma : Option ℕ → Text → Bool
unfolding from_clause from_here
from_comma prev [] = false
from_comma prev (c ∷ s) = from_clause (from_here prev (c ∷ s)) (from_comma (some c) s)

-- What `isSingleTableSelect` asks of the text without comments and literals.
unfoldable pub single_table : Text → Bool
unfolding ends_here keyword skip_spaces has_word words_at test from_comma
single_table clean =
    ends_here (keyword (codes "select") (skip_spaces clean))
    && not (
        has_word (codes "join") clean
        || test (words_at (codes "group") (codes "by")) clean
        || has_word (codes "having") clean
        || has_word (codes "distinct") clean
        || has_word (codes "union") clean
        || has_word (codes "intersect") clean
        || has_word (codes "except") clean
        || from_comma none clean)

-- `isSingleTableSelect(sql)`.
unfoldable pub is_single_table_select : Text → Bool
unfolding bare_sql single_table
is_single_table_select sql = single_table (bare_sql sql)

-- The text up to a closing quote that is there, and what is behind it.
unfoldable pub up_to : ℕ → Text → Option (Text × Text)
up_to q [] = none
up_to q (c ∷ s) = elim (up_to q s) [
  | none ↦ if c == q then some ([], s) else none
  | some (t, r) ↦ if c == q then some ([], s) else some (c ∷ t, r)
]

abbrev pub between : ℕ → ℕ → Option (Text × Text) → Option (Text × Text)
between o q none = none
between o q (some ([], r)) = none
between o q (some (c ∷ t, r)) = some ((o ∷ c ∷ t) ++ (q ∷ []), r)

-- `[\w$]*`.
unfoldable pub name_rest : Text → Text × Text
unfolding is_word
name_rest [] = ([], [])
name_rest (c ∷ s) =
    let (t, r) = name_rest s in if is_word c || c == b'$' then (c ∷ t, r) else ([], c ∷ s)

unfoldable pub starts_name : ℕ → Bool
starts_name c = (leb b'a' c && leb c b'z') || (leb b'A' c && leb c b'Z') || c == b'_'

-- `ident`: what it takes, and the text behind it.
unfoldable pub ident : Text → Option (Text × Text)
unfolding up_to name_rest starts_name
ident [] = none
ident (c ∷ s) =
    let (t, r) = name_rest s in
    if c == b'`'
    then between c b'`' (up_to b'`' s)
    else if c == b'"'
    then between c b'"' (up_to b'"' s)
    else if c == b'['
    then between c b']' (up_to b']' s)
    else if starts_name c
    then some (c ∷ t, r)
    else none

abbrev pub behind_dot : Text → Option (Text × Text)
unfolding ident skip_spaces
behind_dot [] = none
behind_dot (c ∷ s) = if c == b'.' then ident (skip_spaces s) else none

-- `(?:\s*\.\s*ident){0,n}`; the blanks around a dot, which are cut off later, are left out.
unfoldable pub qualifiers : ℕ → Text × Text → Text × Text
unfolding behind_dot skip_spaces
qualifiers zero p = p
qualifiers (suc n) (t, r) = elim (behind_dot (skip_spaces r)) [
  | none ↦ (t, r)
  | some (u, r') ↦ qualifiers n (t ++ (b'.' ∷ u), r')
]

abbrev pub qualified : Option (Text × Text) → Option (Text × Text)
unfolding qualifiers
qualified none = none
qualified (some p) = some (qualifiers 2 p)

-- The reference behind a head: `\s+` and a qualified identifier.
unfoldable pub behind_head : Option Text → Option (Text × Text)
unfolding spaces ident qualified
behind_head none = none
behind_head (some s) = elim (spaces s) [ none ↦ none | some r ↦ qualified (ident r) ]

-- The keywords that a table follows, each with the text behind it, in the order of the pattern.
unfoldable pub heads : Text → List (Option Text)
unfolding keyword two_words
heads s =
    keyword (codes "from") s
    ∷ keyword (codes "join") s
    ∷ keyword (codes "update") s
    ∷ keyword (codes "into") s
    ∷ two_words (codes "delete") (codes "from") s
    ∷ two_words (codes "truncate") (codes "table") s
    ∷ keyword (codes "truncate") s
    ∷ two_words (codes "create") (codes "table") s
    ∷ two_words (codes "alter") (codes "table") s
    ∷ two_words (codes "drop") (codes "table") s
    ∷ []

unfoldable pub first_reference : List (Option Text) → Option (Text × Text)
unfolding behind_head
first_reference [] = none
first_reference (h ∷ hs) = first_some (behind_head h) (first_reference hs)

-- The match of the pattern that begins here.
unfoldable pub reference_at : Option ℕ → Text → Option (Text × Text)
unfolding boundary heads first_reference
reference_at prev s = if boundary prev s then first_reference (heads s) else none

-- The loop over the matches; the number counts the code units of a match that are still to be passed
-- over.
unfoldable pub references_from : Option ℕ → ℕ → Text → List Text
unfolding reference_at
references_from prev skip [] = []
references_from prev (suc skip) (c ∷ s) = references_from (some c) skip s
references_from prev zero (c ∷ s) = elim (reference_at prev (c ∷ s)) [
  | none ↦ references_from (some c) zero s
  | some (raw, r) ↦ raw ∷ references_from (some c) (length {0} s - length {0} r) s
]

abbrev pub drop_opening : Text → Text
drop_opening [] = []
drop_opening (c ∷ s) = if c == b'`' || c == b'"' || c == b'[' then s else c ∷ s

unfoldable pub drop_closing : Text → Text
drop_closing [] = []
drop_closing (c ∷ s) =
    let rest = drop_closing s in
    if is_empty s && (c == b'`' || c == b'"' || c == b']') then [] else c ∷ rest

module _ (lower : Text → Text) where
  -- The parts of a reference.
  unfoldable pub parts_of : Text → List Text
  unfolding split trim drop_closing
  parts_of raw = map (λ p. lower (drop_closing (drop_opening (trim p)))) (split b'.' raw)

  unfoldable pub unseen : List Text → List (List Text) → List (List Text)
  unfolding text_eq join
  unseen seen [] = []
  unseen seen (parts ∷ rest) =
      let key = join (codes ".") parts in
      let more = unseen (key ∷ seen) rest in if any (text_eq key) seen then more else parts ∷ more

  -- What `parseSqlReferences` makes of the text without comments and literals.
  unfoldable pub references_in : Text → List (List Text)
  unfolding references_from parts_of unseen
  references_in clean = unseen [] (map parts_of (references_from none zero clean))

  -- `parseSqlReferences(sql)`: the parts of each reference.
  unfoldable pub parse_sql_references : Text → List (List Text)
  unfolding bare_sql references_in
  parse_sql_references sql = references_in (bare_sql sql)
