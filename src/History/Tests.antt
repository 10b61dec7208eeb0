-- ===== src/History/Tests.antt =====
-- Runs of the history of src/query/history.js at concrete statements.
use tedi_sql_explorer.Base.{◌≡◌, refl, true, false, List, [], ◌∷◌, Text, codes, arith}
use tedi_sql_explorer.History.{
  holds_password, record_sql, age, minutes, entries, Call, ran, cleared, run,
}
use tedi_sql_explorer.History.Refining.{log_run, run-log_run}
use tedi_sql_explorer.History.Kept.{IsKept, run-IsKept}

identified_run : holds_password (codes "CREATE USER a IDENTIFIED BY 'x'") ≡ true
unfolding holds_password
identified_run = refl

-- Behind the bracket the pattern asks for a word character, which a literal does not begin with.
set_password_run : holds_password (codes "SET PASSWORD = PASSWORD('x')") ≡ false
unfolding holds_password
set_password_run = refl

blank_run : record_sql 5 (codes "a") (codes "  ") [] ≡ []
unfolding record_sql
blank_run = refl

age_run : age 100_000 10_000 ≡ minutes 2
unfolding age
age_run = refl

abbrev calls : List Call
calls =
    ran 1 (codes "a") (codes "SELECT 1")
    ∷ ran 2 (codes "a") (codes "SELECT 1")
    ∷ cleared (codes "c")
    ∷ []

no_entries : (i : Text) → IsKept (entries i [])
unfolding entries
no_entries i = record { bounded = omega arith; recorded = tt; no_repeat = tt }

run-IsKept_example : IsKept (entries (codes "a") (run calls []))
run-IsKept_example = run-IsKept calls [] no_entries (codes "a")

run-log_run_example :
    entries (codes "a") (run calls []) ≡ log_run (codes "a") calls (entries (codes "a") [])
run-log_run_example = run-log_run (codes "a") calls []
