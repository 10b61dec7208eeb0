-- ===== src/ResultGrid.antt =====
-- src/grid/resultGrid.js: the rows that the grid of a query result shows, by search, sort and page. The
-- order of `localeCompare` and the lower case of a text are the engine's: they are parameters.
pub mod Paging
mod Tests
use Prim.Native.Nat.{max, compare, Ordering}
use tedi_sql_explorer.Base.{
  ℕ, zero, suc, ◌+◌, ◌-◌, ◌*◌, ◌/◌, ltb, leb, ◌==◌, Bool, true, false, not, ◌&&◌, ◌||◌, Option,
  none, some, List, [], ◌∷◌, ◌++◌, Text, codes, is_empty, includes, any, filter, length, take, drop,
  get_elem?, if◌then◌else◌, or_else,
}
use tedi_sql_explorer.Cell.{Cell, absent, null, bool, num, str, bytes, unsupported, json}

abbrev pub Row : Type 0
Row = List Cell

-- What differs from engine to engine: `toLowerCase`, `localeCompare` and the sign of a difference of
-- two numbers.
pub record Engine : Type 0 where
  pub lower : Text → Text
  pub collate : Text → Text → Ordering
  pub subtract : Text → Text → Ordering

abbrev pub truth : Bool → Text
truth true = codes "true"
truth false = codes "false"

module _ (e : Engine) where
  -- `rowMatches(row, needle)`, one cell at a time; a blob and a type that cannot be shown never match.
  unfoldable pub cell_matches : Text → Cell → Bool
  unfolding includes
  cell_matches needle absent = false
  cell_matches needle null = false
  cell_matches needle (str s) = includes (e.lower s) needle
  cell_matches needle (num n) = includes (e.lower n) needle
  cell_matches needle (bool b) = includes (e.lower (truth b)) needle
  cell_matches needle (bytes size text) = false
  cell_matches needle (unsupported pg_type text) = false
  cell_matches needle (json s) = includes (e.lower s) needle

  unfoldable pub row_matches : Text → Row → Bool
  unfolding cell_matches
  row_matches needle row = any (cell_matches needle) row

  -- `String(v)` of a value and `JSON.stringify` of an object.
  abbrev pub cell_text : Cell → Text
  cell_text absent = []
  cell_text null = []
  cell_text (str s) = s
  cell_text (num n) = n
  cell_text (bool b) = truth b
  cell_text (bytes size text) = text
  cell_text (unsupported pg_type text) = text
  cell_text (json s) = s

  abbrev pub is_null : Cell → Bool
  is_null absent = true
  is_null null = true
  is_null (str s) = false
  is_null (num n) = false
  is_null (bool b) = false
  is_null (bytes size text) = false
  is_null (unsupported pg_type text) = false
  is_null (json s) = false

  abbrev pub number_of : Cell → Option Text
  number_of (num n) = some n
  number_of absent = none
  number_of null = none
  number_of (str s) = none
  number_of (bool b) = none
  number_of (bytes size text) = none
  number_of (unsupported pg_type text) = none
  number_of (json s) = none

  abbrev pub by_number : Option Text → Option Text → Ordering → Ordering
  by_number (some m) (some n) otherwise = e.subtract m n
  by_number (some m) none otherwise = otherwise
  by_number none n otherwise = otherwise

  -- `compareCells(a, b)`.
  unfoldable pub compare_cells : Cell → Cell → Ordering
  compare_cells a b =
      if is_null a || is_null b
      then (if is_null a then (if is_null b then Ordering.eq else Ordering.gt) else Ordering.lt)
      else by_number (number_of a) (number_of b) (e.collate (cell_text a) (cell_text b))

  -- The comparator of `applySort`: the sign turns it round.
  abbrev pub goes_after : Bool → Ordering → Bool
  goes_after descending Ordering.lt = descending
  goes_after descending Ordering.eq = false
  goes_after descending Ordering.gt = not descending

  abbrev pub cell_at : ℕ → Row → Cell
  cell_at ci row = or_else (get_elem? row ci) absent

  -- A stable sort: a row goes in front of the rows that do not go before it.
  unfoldable pub insert_row : ℕ → Bool → Row → List Row → List Row
  unfolding compare_cells
  insert_row ci descending row [] = row ∷ []
  insert_row ci descending row (r ∷ rs) =
      let rest = insert_row ci descending row rs in
      if goes_after descending (compare_cells (cell_at ci row) (cell_at ci r))
      then r ∷ rest
      else row ∷ r ∷ rs

  unfoldable pub sort_rows : ℕ → Bool → List Row → List Row
  unfolding insert_row
  sort_rows ci descending [] = []
  sort_rows ci descending (r ∷ rs) = insert_row ci descending r (sort_rows ci descending rs)

-- The state of the grid; `sort_col` is `none` for -1.
pub record Grid : Type 0 where
  pub query : Text
  pub page : ℕ
  pub filtered : List Row
  pub sort_col : Option ℕ
  pub descending : Bool

unfoldable pub new_grid : List Row → Grid
new_grid rows = record {
  query = [];
  page = 0;
  filtered = rows;
  sort_col = none;
  descending = false;
}

module _ (e : Engine) (rows : List Row) where
  abbrev pub sorted : Option ℕ → Bool → List Row → List Row
  unfolding sort_rows
  sorted none descending rs = rs
  sorted (some ci) descending rs = sort_rows e ci descending rs

  -- `applyFilter(q)`, its `applySort()` included.
  unfoldable pub apply_filter : Text → Grid → Grid
  unfolding row_matches sorted
  apply_filter q g =
      let kept = if is_empty q then rows else filter (row_matches e (e.lower q)) rows in
      record g { query = q; page = 0; filtered = sorted g.sort_col g.descending kept }

  -- The next sort of a header click.
  abbrev pub next_sort : ℕ → Option ℕ → Bool → Option ℕ × Bool
  next_sort ci none descending = (some ci, false)
  next_sort ci (some cj) descending =
      if not (cj == ci)
      then (some ci, false)
      else if descending
      then (none, descending)
      else (some ci, true)

  -- `toggleSort(ci)`.
  unfoldable pub toggle_sort : ℕ → Grid → Grid
  unfolding apply_filter
  toggle_sort ci g =
      let (col, down) = next_sort ci g.sort_col g.descending in
      apply_filter g.query (record g { sort_col = col; descending = down })

-- `Math.max(1, Math.ceil(total / pageSize))`.
unfoldable pub total_pages : ℕ → ℕ → ℕ
total_pages size total = max 1 ((total + (size - 1)) / size)

-- The page that `redraw` shows: one beyond the last becomes the last.
unfoldable pub shown_page : ℕ → Grid → ℕ
unfolding total_pages
shown_page size g =
    let pages = total_pages size (length g.filtered) in
    if leb pages g.page then pages - 1 else g.page

unfoldable pub slice : ℕ → ℕ → List Row → List Row
slice size page rs = take size (drop (page * size) rs)

unfoldable pub redraw : ℕ → Grid → Grid × List Row
unfolding shown_page slice
redraw size g =
    let page = shown_page size g in (record g { page = page }, slice size page g.filtered)

-- The buttons of the pager.
unfoldable pub previous : ℕ → Grid → Grid
unfolding shown_page
previous size g =
    let page = shown_page size g in
    if ltb 0 page then record g { page = page - 1 } else record g { page = page }

unfoldable pub next : ℕ → Grid → Grid
unfolding shown_page total_pages
next size g =
    let page = shown_page size g in
    let last = total_pages size (length g.filtered) - 1 in
    if ltb page last then record g { page = page + 1 } else record g { page = page }
