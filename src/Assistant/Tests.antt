-- ===== src/Assistant/Tests.antt =====
-- Runs of the assistant's query of src/ai.js at concrete statements.
use tedi_sql_explorer.Base.{◌≡◌, refl, true, false, none, [], ◌∷◌, codes, text_eq}
use tedi_sql_explorer.Connection.{Connection}
use tedi_sql_explorer.Sql.Destructive.{delete_all}
use tedi_sql_explorer.Assistant.{Args, Request, refused, starts_write, sql_query}
use tedi_sql_explorer.Assistant.Gates.{IsAllowed, request_of, sql_query-IsAllowed}

abbrev shop : Connection
shop = record {
  id = codes "c1";
  kind = codes "mysql";
  name = codes "shop";
  host = codes "db";
  port = codes "3306";
  user = [];
  database = [];
  sqlite_path = [];
  sqlite_read_only = false;
  allow_writes = true;
  ssl_mode = codes "none";
  ssh_tunnel = [];
  query_timeout_ms = 30000;
  row_limit = 10000;
}

abbrev all_rows : Args
all_rows = record {
  connection_id = codes "c1";
  sql = codes " DELETE FROM t ";
  database = codes "app";
  schema = [];
  confirm = false;
}

refused_run : sql_query (shop ∷ []) none all_rows ≡ refused delete_all
unfolding sql_query text_eq
refused_run = refl

-- Only the first word is looked at: a second statement that writes passes the gate of a read-only
-- connection.
second_statement_run : starts_write (codes "SELECT 1; DELETE FROM t WHERE id = 1") ≡ false
unfolding starts_write
second_statement_run = refl

abbrev confirmed : Request
confirmed = record {
  conn = codes "c1";
  sql = codes "DELETE FROM t";
  row_limit = 201;
  database = codes "app";
  schema = [];
}

sql_query-IsAllowed_example : IsAllowed (shop ∷ []) (record all_rows { confirm = true }) confirmed
sql_query-IsAllowed_example =
    sql_query-IsAllowed (shop ∷ []) none (record all_rows { confirm = true }) confirmed
      (unfold request_of sql_query text_eq in refl)
