-- ===== src/Sql.antt =====
-- The readable SQL of src/sql.js: literals, qualified names and the statements that the action strip
-- and the confirmations show. The scan for destructive statements is in `Sql.Destructive`.
pub mod Scan
pub mod Destructive
pub mod Literals
pub mod Verdicts
mod Tests
use tedi_sql_explorer.Base.{
  ℕ, ◌*◌, ltb, Bool, true, false, ◌≡◌, Option, none, some, List, [], ◌∷◌, ◌++◌, Text, codes,
  text_eq, is_empty, trim, join, map, replace_char, if◌then◌else◌, show_ℕ, find, not, ◌&&◌, or_else,
}
use tedi_sql_explorer.Connection.{Connection}
use tedi_sql_explorer.Session.{Session, Target, page_size_for}
use tedi_sql_explorer.Cell.{Cell, absent, null, bool, num, str, bytes, unsupported, json}
use tedi_sql_explorer.Dialects.{Dialect, get_dialect, quote_ident}

-- `state.connections.find((c) => c.id === connId)`.
unfoldable pub find_connection : List Connection → Text → Option Connection
find_connection conns id = find (λ c. text_eq c.id id) conns

kind_of : Option Connection → Option Text
kind_of none = none
kind_of (some c) = some c.kind

-- `sqlConnKind(connId)`.
unfoldable pub sql_conn_kind : List Connection → Text → Option Text
unfolding find_connection kind_of
sql_conn_kind conns id = kind_of (find_connection conns id)

unfoldable pub dialect_of : List Connection → Text → Dialect
unfolding sql_conn_kind get_dialect
dialect_of conns id = get_dialect (sql_conn_kind conns id)

read_only : Option Connection → Bool
read_only none = false
read_only (some c) =
    if not c.allow_writes then true else text_eq c.kind (codes "sqlite") && c.sqlite_read_only

-- `isReadOnly(connId)`.
unfoldable pub is_read_only : List Connection → Text → Bool
unfolding find_connection read_only
is_read_only conns id = read_only (find_connection conns id)

-- `v.replace(/'/g, "''")` between single quotes.
unfoldable pub quoted : Text → Text
unfolding replace_char
quoted s = b'\'' ∷ (replace_char b'\'' (b'\'' ∷ b'\'' ∷ []) s ++ (b'\'' ∷ []))

-- `sqlLit(v)`.
unfoldable pub sql_lit : Cell → Text
unfolding quoted
sql_lit absent = codes "NULL"
sql_lit null = codes "NULL"
sql_lit (num n) = n
sql_lit (bool true) = codes "TRUE"
sql_lit (bool false) = codes "FALSE"
sql_lit (bytes size text) = codes "NULL"
sql_lit (unsupported pg_type text) = codes "NULL"
sql_lit (json text) = quoted text
sql_lit (str s) = quoted s

-- The entries of an object, in the order in which they are enumerated.
abbrev pub Values : Type 0
Values = List (Text × Cell)

module _ (conns : List Connection) (conn_id : Text) where
  unfoldable pub qid : Text → Text
  unfolding dialect_of quote_ident
  qid name = quote_ident (dialect_of conns conn_id) name

  -- `qualName(connId, t)`.
  unfoldable pub qual_name : Target → Text
  unfolding join
  qual_name t =
      let table = qid t.table ∷ [] in
      join (codes ".") (if is_empty t.schema then table else qid t.schema ∷ table)

  unfoldable pub assignment : Text × Cell → Text
  unfolding qid sql_lit
  assignment (c, v) = qid c ++ (codes " = " ++ sql_lit v)

  -- `whereFromPk(connId, pkMap)`.
  unfoldable pub where_from_pk : Values → Text
  unfolding assignment join
  where_from_pk pk = join (codes " AND ") (map assignment pk)

  unfoldable pub build_update_sql : Target → Values → Values → Text
  build_update_sql t pk values =
      codes "UPDATE "
      ++ (qual_name t
          ++ (codes " SET "
              ++ (join (codes ", ") (map assignment values)
                  ++ (codes " WHERE " ++ (where_from_pk pk ++ codes ";")))))

  unfoldable pub build_delete_sql : Target → Values → Text
  build_delete_sql t pk =
      codes "DELETE FROM " ++ (qual_name t ++ (codes " WHERE " ++ (where_from_pk pk ++ codes ";")))

  unfoldable pub build_insert_sql : Target → Values → Text
  build_insert_sql t values =
      codes "INSERT INTO "
      ++ (qual_name t
          ++ (codes " ("
              ++ (join (codes ", ") (map (λ (p : Text × Cell). qid p.0) values)
                  ++ (codes ") VALUES ("
                      ++ (join (codes ", ") (map (λ (p : Text × Cell). sql_lit p.1) values)
                          ++ codes ");")))))

-- The parts of `buildSelectSql`.
search_clause : List Connection → Session → Text
unfolding trim qid sql_lit
search_clause conns s =
    let term = trim s.grid_search in
    let like = sql_lit (str (b'%' ∷ (term ++ codes "%"))) in
    if is_empty term
    then []
    else if is_empty s.grid_search_col
    then codes " WHERE <any column> LIKE " ++ like
    else codes " WHERE " ++ (qid conns s.conn_id s.grid_search_col ++ (codes " LIKE " ++ like))

order_clause : List Connection → Session → Text
unfolding qid
order_clause conns s =
    if is_empty s.order_by
    then []
    else codes " ORDER BY "
      ++ (qid conns s.conn_id s.order_by
          ++ (if text_eq s.order_dir (codes "desc") then codes " DESC" else codes " ASC"))

page_clause : Session → Text
unfolding show_ℕ page_size_for
page_clause s =
    let page : ℕ = or_else s.page 0 in
    let size = page_size_for s in
    codes " LIMIT "
    ++ (show_ℕ size ++ (if ltb 0 page then codes " OFFSET " ++ show_ℕ (page * size) else []))

unfoldable pub build_select_sql : List Connection → Session → Target → Text
unfolding search_clause order_clause page_clause qual_name
build_select_sql conns s t =
    codes "SELECT * FROM "
    ++ (qual_name conns s.conn_id t
        ++ (search_clause conns s ++ (order_clause conns s ++ (page_clause s ++ codes ";"))))
