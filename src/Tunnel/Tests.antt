-- ===== src/Tunnel/Tests.antt =====
-- Runs of src/connections/tunnel.js at a concrete connection.
use tedi_sql_explorer.Base.{◌≡◌, refl, true, false, some, [], codes, show_ℕ}
use tedi_sql_explorer.Connection.{Connection}
use tedi_sql_explorer.Tunnel.{Forward, Host, direct, resolve_endpoint, release_tunnel}

abbrev shop : Connection
shop = record {
  id = codes "c1";
  kind = codes "mysql";
  name = codes "shop";
  host = codes " db ";
  port = codes "3306";
  user = [];
  database = [];
  sqlite_path = [];
  sqlite_read_only = false;
  allow_writes = true;
  ssl_mode = codes "none";
  ssh_tunnel = codes "bastion";
  query_timeout_ms = 30000;
  row_limit = 10000;
}

abbrev host : Host
host = record {
  can_open = true;
  can_close = true;
  open_forward = λ f. some 4001;
  number = λ s. 3306;
}

abbrev forward : Forward
forward = record { ssh = codes "bastion"; host = codes "db"; port = 3306 }

open_run : resolve_endpoint host shop ≡ (some forward, direct (codes "127.0.0.1") (codes "4001"))
unfolding resolve_endpoint show_ℕ
open_run = refl

close_run : release_tunnel host shop ≡ some forward
unfolding release_tunnel
close_run = refl
