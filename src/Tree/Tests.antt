-- ===== src/Tree/Tests.antt =====
-- Runs of the lazy tree of src/tree at a concrete connection.
use tedi_sql_explorer.Base.{◌≡◌, refl, false, none, some, [], ◌∷◌, codes}
use tedi_sql_explorer.Sql.{qid}
use tedi_sql_explorer.TableGrid.{Table}
use tedi_sql_explorer.Store.{fresh_session}
use tedi_sql_explorer.Tree.{Node}
use tedi_sql_explorer.Tree.Nodes.{
  Tree, db, toggle, settle, reload_tree, toggled, Reached, start, then_step,
}
use tedi_sql_explorer.Tree.Loading.{IsSound, reached-IsSound}
use tedi_sql_explorer.Tree.Menu.{drop, ddl}

abbrev empty : Tree
empty = record { expanded = []; loading = []; children = []; pending = [] }

-- The connection's node was clicked, and its databases are on their way.
abbrev clicked : Tree
clicked = record {
  expanded = codes "c1" ∷ [];
  loading = codes "c1" ∷ [];
  children = [];
  pending = codes "c1" ∷ [];
}

clicked_run : toggle (codes "c1") empty ≡ clicked
unfolding toggle
clicked_run = refl

clicked_reached : Reached clicked
clicked_reached = then_step empty clicked start (unfold toggle in toggled (codes "c1") empty)

reached-IsSound_example : IsSound clicked
reached-IsSound_example = reached-IsSound clicked clicked_reached

-- An answer that was on its way when the tree was reloaded is kept: the next click on the node shows it
-- and asks for nothing.
stale_run :
    toggle (codes "c1") (settle (codes "c1") (some (db (codes "app") ∷ [])) (reload_tree clicked))
    ≡ record {
      expanded = codes "c1" ∷ [];
      loading = [];
      children = (codes "c1", db (codes "app") ∷ []) ∷ [];
      pending = [];
    }
unfolding toggle settle reload_tree
stale_run = refl

abbrev users : Node
users = record {
  kind = codes "table";
  conn_id = codes "c1";
  db = codes "app";
  schema = codes "app";
  table = codes "users";
}

-- The grid shows the table of the same name in another database.
abbrev grid : Table
grid = record {
  session = record (fresh_session (codes "c1")) {
    active_table = some (record {
      database = codes "old";
      schema = codes "old";
      table = codes "users";
      kind = codes "table";
    });
  };
  snapshot = none;
  total_key = none;
  total = none;
  total_estimated = false;
  pk_cache = none;
}

ddl_run : ddl [] drop users ≡ codes "DROP TABLE \"app\".\"users\";"
unfolding ddl qid
ddl_run = refl
