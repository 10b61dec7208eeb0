-- ===== src/TableGrid/Keys.antt =====
-- The key under which the metadata of a table is cached (src/columns.js, src/grid/tableData.js).
use tedi_sql_explorer.Base.{◌≡◌, refl, codes}
use tedi_sql_explorer.Session.{Target}
use tedi_sql_explorer.TableGrid.{table_key}

-- Two tables in different databases, with a `.` in a name.
abbrev left : Target
left = record {
  database = codes "a.b";
  schema = codes "c";
  table = codes "t";
  kind = codes "table";
}

abbrev right : Target
right = record {
  database = codes "a";
  schema = codes "b.c";
  table = codes "t";
  kind = codes "table";
}

same_key_run : table_key left ≡ table_key right
unfolding table_key
same_key_run = refl
