-- ===== src/Connection.antt =====
-- A saved connection, with the fields that `sanitizeConnection` of src/connections/backup.js lists
-- (src/runtime.js names them where the state keeps them). A field that a record lacks is read by the
-- program like an empty one, and is kept here as the empty text, `false` or 0.
use tedi_sql_explorer.Base.{ℕ, Bool, Text}

pub record Connection : Type 0 where
  pub id : Text
  pub kind : Text
  pub name : Text
  pub host : Text
  pub port : Text
  pub user : Text
  pub database : Text
  pub sqlite_path : Text
  pub sqlite_read_only : Bool
  pub allow_writes : Bool
  pub ssl_mode : Text
  pub ssh_tunnel : Text
  pub query_timeout_ms : ℕ
  pub row_limit : ℕ
