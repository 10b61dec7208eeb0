-- ===== src/Session.antt =====
-- The state of one connection's workbench: the record that `ensureSession` of
-- src/connections/store.js creates, with the fields that the other modules add to it, and the page
-- size of src/runtime.js.
use tedi_sql_explorer.Base.{ℕ, Bool, Option, List, Text, if◌then◌else◌, ◌==◌}

-- The table that is open, `{ database, schema, table, kind }`.
pub record Target : Type 0 where
  pub database : Text
  pub schema : Text
  pub table : Text
  pub kind : Text

-- An entry of the autocomplete cache.
pub record CacheEntry : Type 0 where
  pub database : Text
  pub schema : Text
  pub table : Text
  pub kind : Text
  pub columns : List Text

-- A field that is `null`, `undefined` or not yet set is `none`, or the empty text.
pub record Session : Type 0 where
  pub conn_id : Text
  pub sql : Text
  pub active_table : Option Target
  pub page : Option ℕ
  pub page_size : ℕ
  pub grid_search : Text
  pub grid_search_col : Text
  pub order_by : Text
  pub order_dir : Text
  pub current_database : Text
  pub current_schema : Text
  pub request_id : Option Text
  pub in_transaction : Bool
  pub schema_cache : List (Text × CacheEntry)

-- `GRID_PAGE_SIZE`.
abbrev pub grid_page_size : ℕ
grid_page_size = 10

-- `pageSizeFor(session)`: 0 stands for a page size that is not set.
unfoldable pub page_size_for : Session → ℕ
page_size_for s = if s.page_size == 0 then grid_page_size else s.page_size
