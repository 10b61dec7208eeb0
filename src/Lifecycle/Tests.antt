-- ===== src/Lifecycle/Tests.antt =====
-- Runs of src/connections/lifecycle.js at a concrete world.
use tedi_sql_explorer.Base.{◌≡◌, ◌≢◌, refl, ◌==◌, true, false, none, some, [], ◌∷◌, codes, text_eq}
use tedi_sql_explorer.Connection.{Connection}
use tedi_sql_explorer.Sql.{find_connection}
use tedi_sql_explorer.Backup.Tests.{Passwords, Passwords-IsKeychain}
use tedi_sql_explorer.History.{entries}
use tedi_sql_explorer.Workbench.{State, connected, lookup, exists}
use tedi_sql_explorer.Lifecycle.{
  World, connect_with_retry, status, dial, pause, connecting, reconnecting, delete_connection,
  is_file_row,
}
use tedi_sql_explorer.Lifecycle.Deletion.{delete_connection_lem, delete_keeps_others}

abbrev server : Connection
server = record {
  id = codes "c1";
  kind = codes "postgres";
  name = codes "shop";
  host = codes "db";
  port = codes "5432";
  user = [];
  database = [];
  sqlite_path = [];
  sqlite_read_only = false;
  allow_writes = true;
  ssl_mode = codes "none";
  ssh_tunnel = [];
  query_timeout_ms = 30000;
  row_limit = 10000;
}

abbrev bench : State
bench = record {
  connections = server ∷ [];
  active = some (codes "c1");
  sessions = [];
  conn_status = (codes "c1", connected) ∷ [];
  revision = 0;
}

abbrev world : World Passwords
world = record {
  state = bench;
  vault = λ id. some (codes "secret");
  history = (codes "c1", record { sql = codes "SELECT 1"; at = 3 } ∷ []) ∷ [];
}

retry_run :
    (connect_with_retry (λ n. n == 2)).0
    ≡ status connecting ∷ dial 1 ∷ pause 400 ∷ status reconnecting ∷ dial 2 ∷ status connected ∷ []
unfolding connect_with_retry
retry_run = refl

delete_connection_lem_example :
    (exists (codes "c1") (delete_connection Passwords true (codes "c1") world).state.connections
      ≡ false)
    × (lookup (codes "c1") (delete_connection Passwords true (codes "c1") world).state.sessions
        ≡ none)
    × (lookup (codes "c1") (delete_connection Passwords true (codes "c1") world).state.conn_status
        ≡ none)
    × ((delete_connection Passwords true (codes "c1") world).state.active ≢ some (codes "c1"))
    × (entries (codes "c1") (delete_connection Passwords true (codes "c1") world).history ≡ [])
    × (is_file_row (find_connection world.state.connections (codes "c1")) ≡ false
        → Passwords.read (delete_connection Passwords true (codes "c1") world).vault (codes "c1")
          ≡ none)
delete_connection_lem_example =
    delete_connection_lem Passwords Passwords-IsKeychain (codes "c1") world

delete_keeps_others_example :
    (find_connection
        (delete_connection Passwords false (codes "c2") world).state.connections
        (codes "c1")
      ≡ find_connection world.state.connections (codes "c1"))
    × (lookup (codes "c1") (delete_connection Passwords false (codes "c2") world).state.sessions
        ≡ lookup (codes "c1") world.state.sessions)
    × (lookup (codes "c1") (delete_connection Passwords false (codes "c2") world).state.conn_status
        ≡ lookup (codes "c1") world.state.conn_status)
    × (entries (codes "c1") (delete_connection Passwords false (codes "c2") world).history
        ≡ entries (codes "c1") world.history)
    × (Passwords.read (delete_connection Passwords false (codes "c2") world).vault (codes "c1")
        ≡ Passwords.read world.vault (codes "c1"))
delete_keeps_others_example =
    delete_keeps_others Passwords Passwords-IsKeychain false (codes "c2") (codes "c1") world
      (unfold text_eq in refl)
