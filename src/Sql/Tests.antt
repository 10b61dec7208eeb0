-- ===== src/Sql/Tests.antt =====
-- Runs of the SQL text code on concrete inputs, and its theorems at such inputs.
use tedi_sql_explorer.Base.{◌≡◌, refl, none, some, [], ◌++◌, codes, arith}
use tedi_sql_explorer.Cell.{str}
use tedi_sql_explorer.Sql.{sql_lit}
use tedi_sql_explorer.Sql.Destructive.{destructive_reason, drops, delete_all, update_all}
use tedi_sql_explorer.Sql.Verdicts.{hide, literal_irrelevant, hidden_statement}

drop_run : destructive_reason (codes "select 1; Drop  Table t") ≡ some drops
unfolding destructive_reason
drop_run = refl

delete_run : destructive_reason (codes "DELETE FROM t -- where") ≡ some delete_all
unfolding destructive_reason
delete_run = refl

update_run : destructive_reason (codes "update t set a = 'where'") ≡ some update_all
unfolding destructive_reason
update_run = refl

guarded_run : destructive_reason (codes "DELETE FROM t WHERE id = 1; SELECT 2") ≡ none
unfolding destructive_reason
guarded_run = refl

-- `TABLE?` makes one letter optional: a plain TRUNCATE is not seen.
truncate_run : destructive_reason (codes "TRUNCATE users") ≡ none
unfolding destructive_reason
truncate_run = refl

literal_irrelevant_example :
    destructive_reason
      (codes "DELETE FROM t WHERE a = " ++ (sql_lit (str (codes "x; drop table y")) ++ []))
    ≡ destructive_reason (codes "DELETE FROM t WHERE a = " ++ (sql_lit (str (codes "z")) ++ []))
literal_irrelevant_example =
    literal_irrelevant (codes "DELETE FROM t WHERE a = ") (codes "x; drop table y") (codes "z") []
      (omega arith, omega arith) (omega arith, omega arith) (omega arith, omega arith)
      (omega arith, omega arith) (omega arith) (omega arith)

hidden_statement_example : destructive_reason (hide (codes "DROP TABLE users")) ≡ none
hidden_statement_example = hidden_statement (codes "DROP TABLE users") (omega arith) (omega arith)
