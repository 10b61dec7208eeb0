-- ===== src/TableGrid.antt =====
-- src/grid/tableData.js, and the column metadata of src/columns.js that a table's grid keeps: opening a
-- table, loading a page, and the cached count. The helper's answers are parameters.
pub mod Totals
pub mod Edits
pub mod Keys
pub mod Pager
mod Tests
use tedi_sql_explorer.Base.{
  ℕ, Bool, true, false, not, ◌&&◌, Option, none, some, List, [], ◌∷◌, ◌++◌, Text, codes, text_eq,
  is_empty, trim, map, filter, if◌then◌else◌, or_else, is_some, length,
}
use tedi_sql_explorer.Session.{Session, Target, CacheEntry, page_size_for}
use tedi_sql_explorer.Cell.{Cell}
use tedi_sql_explorer.Workbench.{lookup, assign}

-- A column of `/columns`; a default that is missing is the empty text.
pub record Column : Type 0 where
  pub name : Text
  pub data_type : Text
  pub full_type : Text
  pub nullable : Bool
  pub is_primary : Bool
  pub is_auto_increment : Bool
  pub default_value : Text

pub record Snapshot : Type 0 where
  pub columns : List Text
  pub rows : List (List Cell)
  pub page : ℕ
  pub total : Option ℕ
  pub total_estimated : Bool

-- `_pkCache`.
pub record PkCache : Type 0 where
  pub key : Text
  pub pks : List Text
  pub columns : List Column

-- A session with the fields that the grid adds to it.
pub record Table : Type 0 where
  pub session : Session
  pub snapshot : Option Snapshot
  pub total_key : Option Text
  pub total : Option ℕ
  pub total_estimated : Bool
  pub pk_cache : Option PkCache

-- `${t.database}.${t.schema}.${t.table}`.
unfoldable pub table_key : Target → Text
table_key t = t.database ++ (b'.' ∷ (t.schema ++ (b'.' ∷ t.table)))

-- `invalidateRowCount(session)`.
unfoldable pub invalidate_row_count : Table → Table
invalidate_row_count t = record t { total_key = none; total = none }

-- What `openTable(session, target)` sets before it loads the first page.
unfoldable pub open_table : Target → Table → Table
unfolding invalidate_row_count
open_table target t = invalidate_row_count (record t {
  snapshot = none;
  session = record t.session {
    active_table = some target;
    current_database = target.database;
    current_schema = target.schema;
    order_by = [];
    order_dir = codes "asc";
    grid_search = [];
    grid_search_col = [];
  };
})

-- The body of `/table-rows`; a field that is not sent is `none`, or an empty list.
pub record RowsBody : Type 0 where
  pub conn : Text
  pub database : Text
  pub schema : Text
  pub table : Text
  pub page : ℕ
  pub page_size : ℕ
  pub order_by : Option Text
  pub descending : Bool
  pub search : Option Text
  pub search_column : Option Text
  pub search_columns : List Text
  pub want_total : Bool

unfoldable pub search_term : Session → Text
unfolding trim
search_term s = trim s.grid_search

-- `totalKey`.
unfoldable pub total_key_of : Target → Session → Text
unfolding table_key search_term
total_key_of target s = table_key target ++ (b'|' ∷ (search_term s ++ (b'|' ∷ s.grid_search_col)))

abbrev pub key_is : Option Text → Text → Bool
unfolding text_eq
key_is none key = false
key_is (some k) key = text_eq k key

-- `reuseTotal`.
unfoldable pub reuse_total : Text → Table → Option ℕ
unfolding key_is
reuse_total key t = if key_is t.total_key key then t.total else none

abbrev pub columns_of : Option Snapshot → List Text
columns_of none = []
columns_of (some s) = s.columns

abbrev pub text_or_none : Text → Option Text
text_or_none [] = none
text_or_none (c ∷ s) = some (c ∷ s)

-- The request of `loadTableRows(session, page)`.
unfoldable pub rows_body : Target → ℕ → Table → RowsBody
unfolding page_size_for search_term total_key_of reuse_total text_eq
rows_body target page t =
    let s = t.session in
    let term = search_term s in
    record {
      conn = s.conn_id;
      database = target.database;
      schema = target.schema;
      table = target.table;
      page = page;
      page_size = page_size_for s;
      order_by = text_or_none s.order_by;
      descending = text_eq s.order_dir (codes "desc");
      search = text_or_none term;
      search_column = if is_empty term then none else text_or_none s.grid_search_col;
      search_columns =
          if is_empty term
          then []
          else if is_empty s.grid_search_col
          then columns_of t.snapshot
          else [];
      want_total = not (is_some (reuse_total (total_key_of target s) t));
    }

abbrev pub kind_or_table : Option CacheEntry → Text
kind_or_table none = codes "table"
kind_or_table (some e) = e.kind

-- The autocomplete cache learns the columns that came back.
unfoldable pub learn_columns : Target → List Text → Session → Session
unfolding table_key assign lookup
learn_columns target [] s = s
learn_columns target (c ∷ cs) s =
    let key = table_key target in
    record s {
      schema_cache =
          assign key
            (record {
              database = target.database;
              schema = target.schema;
              table = target.table;
              kind = kind_or_table (lookup key s.schema_cache);
              columns = c ∷ cs;
            })
            s.schema_cache;
    }

-- What the answer of `/table-rows` leaves: a reused count is carried into the snapshot, a fresh one
-- is remembered.
abbrev pub with_total : Option ℕ → Text → Snapshot → Table → Table
with_total (some n) key snap t = record t {
  snapshot = some (record snap { total = some n; total_estimated = t.total_estimated });
  total_key = some key;
}
with_total none key snap t = record t {
  snapshot = some snap;
  total_key = some key;
  total = snap.total;
  total_estimated = snap.total_estimated;
}

unfoldable pub after_rows : Target → Option Snapshot → Table → Table
unfolding total_key_of reuse_total learn_columns
after_rows target none t = t
after_rows target (some snap) t =
    let key = total_key_of target t.session in
    let loaded = with_total (reuse_total key t) key snap t in
    record loaded { session = learn_columns target snap.columns loaded.session }

-- `loadTableRows(session, page)` of an open table; `answer` is the helper's, `none` when it fails.
unfoldable pub load_table_rows : Target → Option Snapshot → Table → Table
unfolding after_rows
load_table_rows target answer t = after_rows target answer t

-- `ensurePkColumns(session)`: the primary key, and the session that then holds it. `fetched` is what
-- `/columns` answers.
abbrev pub primary_keys : List Column → List Text
primary_keys cols = map (λ (c : Column). c.name) (filter (λ (c : Column). c.is_primary) cols)

abbrev pub cached_pks : Text → Option PkCache → Option (List Text)
unfolding text_eq
cached_pks key none = none
cached_pks key (some c) = if text_eq c.key key then some c.pks else none

abbrev pub with_pks : Option (List Text) → Text → List Column → Table → List Text × Table
with_pks (some pks) key fetched t = (pks, t)
with_pks none key fetched t =
    let pks = primary_keys fetched in
    (pks, record t { pk_cache = some (record { key = key; pks = pks; columns = fetched }) })

unfoldable pub ensure_pk_columns : Target → List Column → Table → List Text × Table
unfolding cached_pks table_key
ensure_pk_columns target fetched t =
    with_pks (cached_pks (table_key target) t.pk_cache) (table_key target) fetched t
