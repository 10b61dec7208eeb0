-- ===== src/Query/Tests.antt =====
-- Runs of src/query/run.js and src/query/editContext.js at concrete statements.
use tedi_sql_explorer.Base.{
  arith, ◌≡◌, refl, ◌++◌, ◌⊎◌, true, false, none, [], ◌∷◌, Text, codes, trim, Lacks,
}
use tedi_sql_explorer.Session.{Session, CacheEntry}
use tedi_sql_explorer.Dialects.{get_dialect}
use tedi_sql_explorer.Sql.Destructive.{destructive_reason}
use tedi_sql_explorer.Store.{fresh_session}
use tedi_sql_explorer.TableGrid.{Column}
use tedi_sql_explorer.Query.{active_sql, plan, sent_sql, has_multiple_statements}
use tedi_sql_explorer.Cell.{str}
use tedi_sql_explorer.Sql.{sql_lit}
use tedi_sql_explorer.Query.References.{parse_sql_references, is_single_table_select}
use tedi_sql_explorer.Query.Contexts.{resolve_query_edit_context, edit_context_literal}
use tedi_sql_explorer.Query.Sending.{run-confirmed, explain-one}
use tedi_sql_explorer.Query.Editable.{EditContext}

abbrev session : Session
session = fresh_session (codes "c1")

several_run : has_multiple_statements (codes "SELECT 1; SELECT 2") ≡ true
unfolding has_multiple_statements
several_run = refl

run-confirmed_example :
    (codes "DROP TABLE t" ≡ trim (active_sql (codes " DROP TABLE t ") session))
    × ((destructive_reason (codes "DROP TABLE t") ≡ none) ⊎ (true ≡ true))
run-confirmed_example =
    run-confirmed none (codes " DROP TABLE t ") (codes "DROP TABLE t") true session
      (unfold plan sent_sql in refl)

explain-one_example :
    (body : Text) × (codes "EXPLAIN SELECT 2" ≡ (get_dialect none).explain_prefix ++ body)
    × Lacks b';' body
explain-one_example =
    explain-one none (codes "SELECT 2;") (codes "EXPLAIN SELECT 2") true session
      (unfold plan sent_sql in refl)

abbrev users : CacheEntry
users = record {
  database = codes "app";
  schema = codes "app";
  table = codes "users";
  kind = codes "table";
  columns = [];
}

abbrev id_column : Column
id_column = record {
  name = codes "id";
  data_type = codes "int";
  full_type = codes "int";
  nullable = false;
  is_primary = true;
  is_auto_increment = true;
  default_value = [];
}

abbrev context : EditContext
context = record { entry = users; pks = codes "id" ∷ []; pk_result_idx = 1 ∷ []; editable = 1 ∷ [] }

references_run :
    parse_sql_references
      (λ s. s)
      (codes "select 'from x' from `app` . users u join \"app\".users, t -- from y")
    ≡ (codes "app" ∷ codes "users" ∷ []) ∷ []
unfolding parse_sql_references
references_run = refl

-- A dot inside of quotes splits the name.
dotted_run :
    parse_sql_references (λ s. s) (codes "select * from `a.b`") ≡ (codes "a" ∷ codes "b" ∷ []) ∷ []
unfolding parse_sql_references
dotted_run = refl

single_run : is_single_table_select (codes "SELECT a, b FROM t WHERE c = 'join, union'") ≡ true
unfolding is_single_table_select
single_run = refl

comma_run : is_single_table_select (codes "select * from t, u order by 1") ≡ false
unfolding is_single_table_select
comma_run = refl

edit_context_literal_example :
    resolve_query_edit_context
      (λ s. s)
      false
      (λ e. id_column ∷ [])
      []
      (users ∷ [])
      (codes "id" ∷ [])
      (codes "select id from users where n = "
        ++ (sql_lit (str (codes "join")) ++ codes " limit 1"))
    ≡ resolve_query_edit_context
        (λ s. s)
        false
        (λ e. id_column ∷ [])
        []
        (users ∷ [])
        (codes "id" ∷ [])
        (codes "select id from users where n = "
          ++ (sql_lit (str (codes "it's")) ++ codes " limit 1"))
edit_context_literal_example =
    edit_context_literal (λ s. s) false (λ e. id_column ∷ []) [] (users ∷ []) (codes "id" ∷ [])
      (codes "select id from users where n = ") (codes "join") (codes "it's") (codes " limit 1")
      (omega arith, omega arith) (omega arith, omega arith) (omega arith, omega arith)
      (omega arith, omega arith) (omega arith) (omega arith)
