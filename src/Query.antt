-- ===== src/Query.antt =====
-- src/query/run.js: what a Run sends, and what it leaves in the session. The editor's selection, the
-- confirmation and the helper's answer are parameters.
pub mod Sending
pub mod Editable
pub mod References
pub mod Contexts
mod Tests
use tedi_sql_explorer.Base.{
  ℕ, ◌==◌, Bool, true, false, not, ◌&&◌, Option, none, some, List, [], ◌∷◌, ◌++◌, Text, codes,
  text_eq, is_empty, trim, test, skip_spaces, if◌then◌else◌,
}
use tedi_sql_explorer.Session.{Session}
use tedi_sql_explorer.Dialects.{get_dialect}
use tedi_sql_explorer.Sql.Destructive.{Reason, destructive_reason}

-- `activeSql(session)`.
unfoldable pub active_sql : Text → Session → Text
unfolding trim
active_sql selection s =
    let selected = trim selection in if is_empty selected then s.sql else selected

abbrev more_behind : Text → Bool
unfolding skip_spaces
more_behind s = not (is_empty (skip_spaces s))

-- `/;\s*\S/`.
unfoldable pub second_at : Option ℕ → Text → Bool
unfolding more_behind
second_at prev [] = false
second_at prev (c ∷ s) = c == b';' && more_behind s

-- `hasMultipleStatements(sql)`.
unfoldable pub has_multiple_statements : Text → Bool
unfolding second_at test trim
has_multiple_statements sql = test second_at (trim sql)

-- `sql.replace(/;\s*$/, "")`.
unfoldable pub drop_last_semicolon : Text → Text
unfolding skip_spaces
drop_last_semicolon [] = []
drop_last_semicolon (c ∷ s) =
    let rest = drop_last_semicolon s in
    if c == b';' && is_empty (skip_spaces s) then [] else c ∷ rest

-- What a Run does before it reaches the helper.
pub data Plan : Type 0 where
  nothing several_statements : Plan
  ask : Reason → Text → Plan
  send : Text → Plan

abbrev pub asked_or_sent : Option Reason → Text → Plan
asked_or_sent none sql = send sql
asked_or_sent (some r) sql = ask r sql

unfoldable pub plan : Bool → Option Text → Text → Session → Plan
unfolding active_sql trim has_multiple_statements drop_last_semicolon get_dialect destructive_reason
plan explain kind selection s =
    let sql = trim (active_sql selection s) in
    if is_empty sql
    then nothing
    else if not explain
    then asked_or_sent (destructive_reason sql) sql
    else if has_multiple_statements sql
    then several_statements
    else send ((get_dialect kind).explain_prefix ++ drop_last_semicolon sql)

-- The statement that reaches the helper, once the confirmation was answered.
unfoldable pub sent_sql : Bool → Plan → Option Text
sent_sql ok nothing = none
sent_sql ok several_statements = none
sent_sql ok (ask r sql) = if ok then some sql else none
sent_sql ok (send sql) = some sql

-- The body of `/query`; an unset database or schema is not sent.
pub record QueryBody : Type 0 where
  pub conn : Text
  pub sql : Text
  pub request_id : Option Text
  pub database : Text
  pub schema : Text
  pub session : Bool

unfoldable pub query_body : Text → Option Text → Session → QueryBody
query_body sql request_id s = record {
  conn = s.conn_id;
  sql = sql;
  request_id = request_id;
  database = s.current_database;
  schema = s.current_schema;
  session = true;
}

-- What the helper answers: the state of the editor's session, or a failure.
pub data QueryAnswer : Type 0 where
  answered : Bool → QueryAnswer
  failed : QueryAnswer

-- The session while the statement runs, and after the answer: `applySessionState` takes the helper's
-- view of the transaction, a failure leaves it, and the request is over in both cases.
unfoldable pub start_run : Text → Session → Session
start_run request_id s = record s { request_id = some request_id; active_table = none }

abbrev pub with_answer : QueryAnswer → Session → Session
with_answer (answered b) s = record s { in_transaction = b }
with_answer failed s = s

unfoldable pub finish_run : QueryAnswer → Session → Session
finish_run a s = record (with_answer a s) { request_id = none }

-- `runActiveQuery(opts)`.
unfoldable pub run_active_query :
    Bool → Option Text → Text → Bool → Text → QueryAnswer → Session → Option QueryBody × Session
unfolding sent_sql plan query_body start_run finish_run
run_active_query explain kind selection ok request_id answer s =
    elim (sent_sql ok (plan explain kind selection s)) [
      | none ↦ (none, s)
      | some sql ↦
          (some (query_body sql (some request_id) s), finish_run answer (start_run request_id s))
    ]

-- `endTransaction(action)`, for COMMIT and ROLLBACK.
unfoldable pub end_transaction : Text → QueryAnswer → Session → QueryBody × Session
unfolding query_body
end_transaction action answer s = (query_body action none s, with_answer answer s)

-- `cancelActiveQuery()`: the request that is cancelled, if one runs.
unfoldable pub cancel_request : Session → Option Text
cancel_request s = s.request_id
