-- ===== src/CopyInfo/Tests.antt =====
-- Runs of src/connections/copyInfo.js at a concrete connection.
use tedi_sql_explorer.Base.{◌≡◌, refl, true, false, none, some, [], codes}
use tedi_sql_explorer.Connection.{Connection}
use tedi_sql_explorer.CopyInfo.{shell_quote, cli_command, copied_password}

abbrev shop : Connection
shop = record {
  id = codes "c1";
  kind = codes "postgres";
  name = codes "shop";
  host = codes "db";
  port = codes "54";
  user = codes "o'brien";
  database = codes "my shop";
  sqlite_path = [];
  sqlite_read_only = false;
  allow_writes = true;
  ssl_mode = codes "none";
  ssh_tunnel = [];
  query_timeout_ms = 30000;
  row_limit = 10000;
}

quote_run : shell_quote (codes "o'b") ≡ codes "'o'\\''b'"
unfolding shell_quote
quote_run = refl

command_run :
    cli_command (codes "postgres") shop (some (codes "p"))
    ≡ codes "PGPASSWORD='p' psql -h db -p 54 -U 'o'\\''brien' -d 'my shop'"
unfolding cli_command
command_run = refl

-- Without the password the keychain is not read.
without_run : copied_password false shop (some (codes "secret")) ≡ none
unfolding copied_password
without_run = refl
