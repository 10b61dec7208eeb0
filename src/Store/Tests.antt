-- ===== src/Store/Tests.antt =====
-- Runs of the store of src/connections/store.js at a concrete workbench.
use tedi_sql_explorer.Base.{◌≡◌, refl, true, false, none, some, List, [], ◌∷◌, Text, codes}
use mathlib.Core.Option.{none-ne-some}
use tedi_sql_explorer.Connection.{Connection}
use tedi_sql_explorer.Workbench.{State, lookup}
use tedi_sql_explorer.Store.{Saved, restore, scoped_databases, validate_form, path_required}
use tedi_sql_explorer.Store.Restoring.{IsTied, ActiveIn, restore-IsTied}

abbrev shop : Connection
shop = record {
  id = codes "c1";
  kind = codes "mysql";
  name = codes "shop";
  host = codes "db";
  port = codes "3306";
  user = [];
  database = codes "shop, stock";
  sqlite_path = [];
  sqlite_read_only = false;
  allow_writes = true;
  ssl_mode = codes "none";
  ssh_tunnel = [];
  query_timeout_ms = 30000;
  row_limit = 10000;
}

abbrev bench : State
bench = record {
  connections = shop ∷ [];
  active = none;
  sessions = [];
  conn_status = [];
  revision = 4;
}

abbrev saved : Saved
saved = record {
  active = some (codes "c1");
  sessions =
      (codes "c1", record { sql = some (codes "SELECT 2"); active_table = none })
      ∷ (codes "gone", record { sql = none; active_table = none })
      ∷ [];
}

scope_run : scoped_databases shop ≡ codes "shop" ∷ codes "stock" ∷ []
unfolding scoped_databases
scope_run = refl

validate_run : validate_form (record shop { kind = codes "sqlite" }) ≡ some path_required
unfolding validate_form
validate_run = refl

bench-IsTied : IsTied bench
bench-IsTied = record { tied = λ id s h. absurd (none-ne-some s (unfold lookup in h)) }

restore-IsTied_example :
    IsTied (restore (some saved) bench) × ActiveIn bench.active (restore (some saved) bench)
restore-IsTied_example = restore-IsTied (some saved) bench bench-IsTied

-- A print that tells an empty list from the others.
abbrev print : List Connection → Text
print [] = []
print (c ∷ cs) = codes "some"
