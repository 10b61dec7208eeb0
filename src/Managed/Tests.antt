-- ===== src/Managed/Tests.antt =====
-- Runs of the merge of src/connections/managed.js at a concrete file and list.
use tedi_sql_explorer.Base.{◌≡◌, refl, true, false, some, [], ◌∷◌, codes, filter, All}
use tedi_sql_explorer.Connection.{Connection}
use tedi_sql_explorer.Json.{Json, object, array, text, number, field, end, cons, nil}
use tedi_sql_explorer.Managed.{handoff_file, read_offered, merge}
use tedi_sql_explorer.Managed.Merge.{IsOffer, read_offered-IsOffer, is_own, own-merge}

path_run : handoff_file (codes "/home/u/") false ≡ codes "/home/u/.tedi/dev-environment.json"
unfolding handoff_file
path_run = refl

-- A published file with one database.
abbrev file : Json
file = object (
    field (codes "kind") (text (codes "tedi-dev-environment")) (
      field (codes "version")
        (number (record {
          text = codes "1";
          finite = true;
          negative = false;
          whole = 1;
          fraction = false;
        }))
        (field (codes "connections")
          (array (
            cons
              (object (
                field (codes "id") (text (codes "devenv:db")) (
                  field (codes "kind") (text (codes "mysql"))
                    (field (codes "host") (text (codes "127.0.0.1")) end))))
              nil))
          end)))

abbrev row : Connection
row = record {
  id = codes "devenv:db";
  kind = codes "mysql";
  name = codes "mine";
  host = codes "localhost";
  port = codes "3306";
  user = [];
  database = [];
  sqlite_path = [];
  sqlite_read_only = false;
  allow_writes = true;
  ssl_mode = codes "none";
  ssh_tunnel = [];
  query_timeout_ms = 30000;
  row_limit = 10000;
}

abbrev offer : Connection
offer = record row { host = codes "127.0.0.1"; port = codes "3307"; allow_writes = false }

abbrev own : Connection
own = record row { id = codes "c1" }

read_offered-IsOffer_example : All IsOffer (read_offered (some file))
read_offered-IsOffer_example = read_offered-IsOffer (some file)

own-merge_example :
    filter is_own (merge (read_offered (some file)) (own ∷ row ∷ []))
    ≡ filter is_own (own ∷ row ∷ [])
own-merge_example = own-merge (some file) (own ∷ row ∷ [])
