-- ===== src/TableGrid/Tests.antt =====
-- Runs of src/grid/tableData.js, src/gridedit/cellEdit.js and src/gridedit/rowOps.js at a concrete
-- table.
use tedi_sql_explorer.Base.{
  ◌≡◌, ◌≢◌, refl, true, false, none, some, List, [], ◌∷◌, Text, codes, map,
}
use tedi_sql_explorer.Cell.{Cell, num, str}
use tedi_sql_explorer.Session.{Target}
use tedi_sql_explorer.Sql.{Values}
use tedi_sql_explorer.Store.{fresh_session}
use tedi_sql_explorer.TableGrid.{Table}
use tedi_sql_explorer.TableGrid.Edits.{deep_equal, pk_map, commit, delete_row, affected, failed}
use tedi_sql_explorer.TableGrid.Edits.Requests.{
  sent_key, shown_value, commit-sent, commit-shown, delete_row-sent,
}

abbrev users : Target
users = record {
  database = codes "app";
  schema = codes "app";
  table = codes "users";
  kind = codes "table";
}

abbrev grid : Table
grid = record {
  session = fresh_session (codes "c1");
  snapshot = none;
  total_key = none;
  total = none;
  total_estimated = false;
  pk_cache = none;
}

abbrev columns : List Text
columns = codes "id" ∷ codes "name" ∷ []

abbrev row : List Cell
row = num (codes "7") ∷ str (codes "Ann") ∷ []

abbrev key : Values
key = (codes "id", num (codes "7")) ∷ []

-- A boolean that comes back as a number has not changed.
boolish_run : deep_equal (num (codes "1")) (str (codes "1")) ≡ true
unfolding deep_equal
boolish_run = refl

commit-sent_example :
    (deep_equal (str (codes "Bob")) (str (codes "Ann")) ≡ false)
    × (true ≡ true)
    × (map (λ (p : Text × Cell). p.0) key ≡ codes "id" ∷ [])
commit-sent_example =
    commit-sent [] (codes "c1") users true (affected 1) columns (codes "id" ∷ []) row
      (str (codes "Ann")) (str (codes "Bob")) (codes "name") key
      (unfold sent_key commit pk_map in refl)

commit-shown_example :
    (str (codes "Bob") ≡ str (codes "Bob")) × (affected 1 ≢ failed) × (affected 1 ≢ affected 0)
commit-shown_example =
    commit-shown [] (codes "c1") users true (affected 1) (str (codes "Ann")) (str (codes "Bob"))
      (str (codes "Bob")) (codes "name") (some key) (unfold shown_value commit in refl)

delete_row-sent_example :
    (true ≡ true)
    × ((codes "id" ∷ []) ≢ [])
    × (map (λ (p : Text × Cell). p.0) key ≡ codes "id" ∷ [])
delete_row-sent_example =
    delete_row-sent [] (codes "c1") users true (affected 1) columns (codes "id" ∷ []) row key
      (unfold sent_key delete_row in refl)
