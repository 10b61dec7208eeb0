-- ===== src/Tree/Fetch.antt =====
-- The children of a node, from the helper's answers, the connection that a node needs, and the
-- autocomplete cache that the tables seed (src/tree/data.js).
use tedi_sql_explorer.Base.{
  ℕ, Bool, true, false, Option, none, some, List, [], ◌∷◌, ◌++◌, Text, text_eq, if◌then◌else◌,
  filter, map,
}
use tedi_sql_explorer.Connection.{Connection}
use tedi_sql_explorer.Session.{CacheEntry}
use tedi_sql_explorer.Sql.{find_connection}
use tedi_sql_explorer.Store.{scoped_databases, ensure_session}
use tedi_sql_explorer.Lifecycle.{connect_with_retry, apply_events}
use tedi_sql_explorer.Workbench.{State, Status, connected, lookup, assign}
use tedi_sql_explorer.Tree.Nodes.{Child, db, schema, table, has}

abbrev pub scope_of : Option Connection → List Text
unfolding scoped_databases
scope_of none = []
scope_of (some c) = scoped_databases c

abbrev pub narrowed : List Text → List Text → List Text
unfolding has
narrowed [] names = names
narrowed (s ∷ ss) names = filter (λ n. has n (s ∷ ss)) names

-- `treeLoadDatabases(connId)`; `names` are the databases that the helper lists.
unfoldable pub load_databases : Option Connection → List Text → List Child
unfolding scope_of narrowed
load_databases conn names = map db (narrowed (scope_of conn) names)

-- A table of the helper's list: its name and its kind.
abbrev pub Listed : Type 0
Listed = List (Text × Text)

-- The children that `treeLoadTables(connId, db, schema)` returns.
unfoldable pub load_tables : Text → Listed → List Child
load_tables s ts = map (λ (t : Text × Text). table t.0 t.1 s) ts

-- `treeLoadDbChildren(connId, db)`: `schemas` is what `/schemas` lists, and `tables` what `/tables` lists
-- for a schema.
unfoldable pub load_db_children : Text → List Text → (Text → Listed) → List Child
unfolding text_eq load_tables
load_db_children d (s ∷ []) tables = if text_eq s d then load_tables d (tables d) else schema s ∷ []
load_db_children d schemas tables = map schema schemas

abbrev pub known_columns : Option CacheEntry → List Text
known_columns none = []
known_columns (some e) = e.columns

-- `${db}.${schema}.${t.name}`.
unfoldable pub cache_key : Text → Text → Text → Text
cache_key d s name = d ++ (b'.' ∷ (s ++ (b'.' ∷ name)))

unfoldable pub seed_one :
    Text → Text → Text × Text → List (Text × CacheEntry) → List (Text × CacheEntry)
unfolding cache_key lookup assign
seed_one d s (name, kind) cache =
    assign (cache_key d s name)
      (record {
        database = d;
        schema = s;
        table = name;
        kind = kind;
        columns = known_columns (lookup (cache_key d s name) cache);
      })
      cache

-- The seeding of `session.schemaCache` by `treeLoadTables`.
unfoldable pub seed : Text → Text → Listed → List (Text × CacheEntry) → List (Text × CacheEntry)
unfolding seed_one
seed d s [] cache = cache
seed d s (t ∷ ts) cache = seed d s ts (seed_one d s t cache)

-- `ensureConnected(connId)`: whether it returns, and the state. `opened` is what `/connections` says, and
-- `none` where that request fails; `works` says which attempts to connect succeed.
unfoldable pub is_connected : Option Status → Bool
is_connected (some connected) = true
is_connected _ = false

unfoldable pub dialled : Text → (ℕ → Bool) → State → Bool × State
unfolding connect_with_retry apply_events ensure_session
dialled id works st =
    let (events, ok) = connect_with_retry works in
    let after = apply_events id events st in
    if ok then (true, ensure_session id after) else (false, after)

abbrev pub is_open : Option Bool → Bool
is_open none = false
is_open (some b) = b

unfoldable pub ensure_connected : Text → Option Bool → (ℕ → Bool) → State → Bool × State
unfolding find_connection is_connected lookup ensure_session dialled
ensure_connected id opened works st = elim (find_connection st.connections id) [
  | none ↦ (false, st)
  | some c ↦
      if is_connected (lookup id st.conn_status)
      then (true, ensure_session id st)
      else if is_open opened
      then (true, ensure_session id st)
      else dialled id works st
]
