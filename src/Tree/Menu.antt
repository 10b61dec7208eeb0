-- ===== src/Tree/Menu.antt =====
-- The right-click menu of a table and its two statements, and the refresh that follows
-- (src/tree/menu.js). The confirmation and the helper's answer are parameters.
use tedi_sql_explorer.Base.{
  Bool, false, not, ◌&&◌, Option, none, some, List, [], ◌∷◌, ◌++◌, Text, codes, text_eq,
  if◌then◌else◌, is_some,
}
use tedi_sql_explorer.Connection.{Connection}
use tedi_sql_explorer.Session.{Target}
use tedi_sql_explorer.Sql.{is_read_only, qual_name}
use tedi_sql_explorer.Store.{session_of}
use tedi_sql_explorer.TableGrid.{Table}
use tedi_sql_explorer.Workbench.{State, lookup, assign, with_sessions}
use tedi_sql_explorer.Tree.{Node, nid}
use tedi_sql_explorer.Tree.Nodes.{Tree, refresh_node}

pub data Item : Type 0 where
  open_table copy_name separator select_in_editor structure truncate_table drop_table : Item

-- The entries of `tableItems(m, view)`.
unfoldable pub table_items : List Connection → Node → List Item
unfolding is_read_only
table_items conns m =
    open_table
    ∷ copy_name
    ∷ separator
    ∷ select_in_editor
    ∷ structure
    ∷ (if is_read_only conns m.conn_id then [] else separator ∷ truncate_table ∷ drop_table ∷ [])

-- `qualifiedTableName(m.connId, { schema, table })`.
unfoldable pub qualified : List Connection → Node → Text
unfolding qual_name
qualified conns m =
    qual_name conns m.conn_id
      (record { database = []; schema = m.schema; table = m.table; kind = [] })

pub data Verb : Type 0 where
  truncate drop : Verb

abbrev pub verb_text : Verb → Text
verb_text truncate = codes "TRUNCATE TABLE"
verb_text drop = codes "DROP TABLE"

unfoldable pub ddl : List Connection → Verb → Node → Text
unfolding qualified
ddl conns verb m = verb_text verb ++ (b' ' ∷ (qualified conns m ++ codes ";"))

-- The text of "SELECT in editor".
unfoldable pub select_text : List Connection → Node → Text
unfolding qualified
select_text conns m = codes "SELECT *\nFROM " ++ (qualified conns m ++ codes "\nLIMIT 100;")

-- The body of `/query` that `runDdl` sends.
pub record Request : Type 0 where
  pub conn : Text
  pub sql : Text
  pub database : Text
  pub schema : Text

unfoldable pub run_ddl : Node → Text → Request
run_ddl m sql = record { conn = m.conn_id; sql = sql; database = m.db; schema = m.schema }

-- The ids of the nodes that may hold the table.
unfoldable pub schema_id : Node → Text
unfolding nid
schema_id m = nid (record {
  kind = codes "schema";
  conn_id = m.conn_id;
  db = m.db;
  schema = m.schema;
  table = [];
})

unfoldable pub db_id : Node → Text
unfolding nid
db_id m =
    nid (record { kind = codes "db"; conn_id = m.conn_id; db = m.db; schema = []; table = [] })

-- `refreshTableParent(m, view)`.
unfoldable pub refresh_table_parent : Node → Tree → Tree
unfolding schema_id db_id lookup refresh_node
refresh_table_parent m t =
    if is_some (lookup (schema_id m) t.children)
    then refresh_node (schema_id m) t
    else refresh_node (db_id m) t

unfoldable pub shows : Node → Option Target → Bool
unfolding text_eq
shows m none = false
shows m (some t) = text_eq t.database m.db && text_eq t.schema m.schema && text_eq t.table m.table

-- The grid of the connection's session is closed where it shows the table of the node.
unfoldable pub close_grid : Node → Option Table → Option Table
unfolding shows
close_grid m none = none
close_grid m (some g) =
    if shows m g.session.active_table
    then some (record g { session = record g.session { active_table = none }; snapshot = none })
    else some g

pub data Shown : Type 0 where
  asked : Text → Shown
  sent : Request → Shown
  done failed : Shown

-- `confirmAndRun(m, view, …)`; `works` says whether the helper ran the statement.
unfoldable pub confirm_and_run :
    List Connection
    → Verb
    → Node
    → Bool
    → Bool
    → Option Table × Tree
    → List Shown × (Option Table × Tree)
unfolding ddl run_ddl close_grid refresh_table_parent
confirm_and_run conns verb m ok works (grid, tree) =
    let sql = ddl conns verb m in
    if not ok
    then (asked sql ∷ [], (grid, tree))
    else if works
    then (
      asked sql ∷ sent (run_ddl m sql) ∷ done ∷ [],
      (close_grid m grid, refresh_table_parent m tree),
    )
    else (asked sql ∷ sent (run_ddl m sql) ∷ failed ∷ [], (grid, tree))

-- `loadIntoEditor(connId, sql, view)`, as far as the session and the active connection go.
unfoldable pub load_into_editor : Text → Text → State → State
unfolding session_of assign with_sessions
load_into_editor id sql st =
    record (with_sessions
      (assign id (record (session_of id st) { sql = sql; active_table = none }) st.sessions) st) {
        active = some id;
      }

-- "Use for unqualified names".
unfoldable pub use_for_names : Node → State → State
unfolding session_of assign with_sessions text_eq
use_for_names m st =
    let scope = if text_eq m.kind (codes "schema") then m.schema else m.db in
    with_sessions
      (assign m.conn_id
        (record (session_of m.conn_id st) { current_database = m.db; current_schema = scope })
        st.sessions)
      st
