-- ===== src/Assistant.antt =====
-- src/ai.js: what the assistant's `sql_query` refuses, what it sends, and what it hands back.
pub mod Gates
mod Tests
use tedi_sql_explorer.Base.{
  ℕ, ◌+◌, ltb, ◌==◌, Bool, true, false, not, ◌&&◌, ◌||◌, Option, none, some, List, [], ◌∷◌, Text,
  codes, is_empty, trim, keyword, skip_spaces, if◌then◌else◌, or_else, length, take, any, map,
}
use tedi_sql_explorer.Cell.{Cell}
use tedi_sql_explorer.Connection.{Connection}
use tedi_sql_explorer.Session.{Session}
use tedi_sql_explorer.Columns.{or_text}
use tedi_sql_explorer.Sql.{find_connection, is_read_only}
use tedi_sql_explorer.Sql.Destructive.{Reason, destructive_reason, ends_here}

-- `MAX_ROWS`.
abbrev pub max_rows : ℕ
max_rows = 200

-- The arguments of the tool; a database or schema that is not given is empty.
pub record Args : Type 0 where
  pub connection_id : Text
  pub sql : Text
  pub database : Text
  pub schema : Text
  pub confirm : Bool

abbrev pub write_words : List Text
write_words =
    codes "insert"
    ∷ codes "update"
    ∷ codes "delete"
    ∷ codes "drop"
    ∷ codes "truncate"
    ∷ codes "alter"
    ∷ codes "create"
    ∷ codes "replace"
    ∷ codes "grant"
    ∷ codes "revoke"
    ∷ []

-- `/^\s*(insert|…)\b/i`.
unfoldable pub starts_write : Text → Bool
unfolding keyword skip_spaces ends_here
starts_write s = any (λ w. ends_here (keyword w (skip_spaces s))) write_words

-- The body of `/query`, without its request id.
pub record Request : Type 0 where
  pub conn : Text
  pub sql : Text
  pub row_limit : ℕ
  pub database : Text
  pub schema : Text

pub data Verdict : Type 0 where
  no_connection empty_sql : Verdict
  read_only : Text → Verdict
  refused : Reason → Verdict
  sent : Request → Verdict

abbrev pub session_database : Option Session → Text
session_database none = []
session_database (some s) = s.current_database

abbrev pub session_schema : Option Session → Text
session_schema none = []
session_schema (some s) = s.current_schema

unfoldable pub request : Connection → Option Session → Args → Request
unfolding trim
request c s args = record {
  conn = c.id;
  sql = trim args.sql;
  row_limit = max_rows + 1;
  database = or_text args.database (session_database s);
  schema = or_text args.schema (session_schema s);
}

abbrev pub unless_danger : Option Reason → Bool → Request → Verdict
unless_danger none confirm r = sent r
unless_danger (some d) confirm r = if confirm then sent r else refused d

-- By whether the statement is empty and may not be written, and by its danger.
unfoldable pub judged : Bool → Bool → Option Reason → Connection → Option Session → Args → Verdict
unfolding request
judged true write danger c s args = empty_sql
judged false true danger c s args = read_only c.name
judged false false danger c s args = unless_danger danger args.confirm (request c s args)

unfoldable pub for_connection :
    List Connection → Option Connection → Option Session → Args → Verdict
unfolding judged is_read_only starts_write destructive_reason trim
for_connection conns none s args = no_connection
for_connection conns (some c) s args =
    let sql = trim args.sql in
    judged (is_empty sql) (is_read_only conns c.id && starts_write sql) (destructive_reason sql) c s
      args

-- The handler of `sql_query`, up to the request; `s` is the session of the connection.
unfoldable pub sql_query : List Connection → Option Session → Args → Verdict
unfolding for_connection find_connection
sql_query conns s args = for_connection conns (find_connection conns args.connection_id) s args

-- A statement of the helper's answer.
pub data Statement : Type 0 where
  rows : List Text → List (List Cell) → Bool → Statement
  exec : Option ℕ → Statement
  failed : Option Text → Statement

-- What is handed back for it.
pub data Handed : Type 0 where
  handed_rows : List Text → ℕ → Bool → Bool → List (List Cell) → Handed
  handed_exec : Option ℕ → Handed
  handed_error : Text → Handed

unfoldable pub hand_back : Statement → Handed
hand_back (rows columns rs truncated) =
    handed_rows columns (length rs) truncated (ltb max_rows (length rs)) (take max_rows rs)
hand_back (exec affected) = handed_exec affected
hand_back (failed e) = handed_error (or_else e (codes "unknown error"))
