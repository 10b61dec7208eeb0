-- ===== src/History/Refining.antt =====
-- The histories of all connections as one log per connection (src/query/history.js).
use tedi_sql_explorer.Base.{
  ℕ, ltb, ◌≡◌, refl, ap, ◌∙◌, inl, inr, ◌||◌, Option, none, some, List, [], ◌∷◌, Text, text_eq,
  text_eq→eq, is_empty, trim, Bool-cases, length, take, if◌then◌else◌,
}
use tedi_sql_explorer.History.{
  Entry, History, max_entries, max_sql_length, entries, holds_password, newest_is, push, record_sql,
  Call, ran, cleared, step, run,
}
use tedi_sql_explorer.History.Kept.{entries-put, entries-remove, entries-remove_ne, record_sql_ne}

-- The statement that is stored for a text that was run, if any.
unfoldable pub stored : Text → Text → Option Text
unfolding trim holds_password
stored id sql =
    if is_empty id || is_empty (trim sql) || ltb max_sql_length (length {0} (trim sql))
    then none
    else if holds_password (trim sql)
    then none
    else some (trim sql)

-- A log: newest first, no statement twice in a row, and the oldest forgotten.
unfoldable pub logged : ℕ → Option Text → List Entry → List Entry
unfolding newest_is
logged now none es = es
logged now (some t) es =
    if newest_is t es then es else take max_entries (record { sql = t; at = now } ∷ es)

-- What a call does to the log of one connection: the calls for others do nothing.
unfoldable pub log_step : Text → Call → List Entry → List Entry
unfolding stored logged text_eq
log_step id (ran now j sql) es = if text_eq id j then logged now (stored j sql) es else es
log_step id (cleared j) es = if text_eq id j then [] else es

unfoldable pub log_run : Text → List Call → List Entry → List Entry
unfolding log_step
log_run id [] es = es
log_run id (c ∷ cs) es = log_run id cs (log_step id c es)

record_sql_same :
    (now : ℕ) (id sql : Text) (all : History)
    → entries id (record_sql now id sql all) ≡ logged now (stored id sql) (entries id all)
unfolding record_sql push stored logged newest_is
record_sql_same now id sql all =
    elim (Bool-cases
      (is_empty id || is_empty (trim sql) || ltb max_sql_length (length (trim sql)))) [
        | inl e ↦ rw e refl
        | inr e ↦ elim (Bool-cases (holds_password (trim sql))) [
          | inl p ↦ rw (e, p) refl
          | inr p ↦ elim (Bool-cases (newest_is (trim sql) (entries id all))) [
            | inl n ↦ rw (e, p, n) refl
            | inr n ↦ rw (e, p, n) (entries-put id _ all)
          ]
        ]
      ]

step-log_step :
    (id : Text) (c : Call) (all : History)
    → entries id (step c all) ≡ log_step id c (entries id all)
unfolding step log_step
step-log_step id (ran now j sql) all = elim (Bool-cases (text_eq id j)) [
  | inl e ↦ rw e (rw (text_eq→eq id j e) (record_sql_same now j sql all))
  | inr e ↦ rw e (record_sql_ne now j sql id all e)
]
step-log_step id (cleared j) all = elim (Bool-cases (text_eq id j)) [
  | inl e ↦ rw e (rw (text_eq→eq id j e) (entries-remove j all))
  | inr e ↦ rw e (entries-remove_ne j id all e)
]

-- The one object that holds all histories implements a log for each connection: after any series of
-- calls, a connection's list is what its own log makes of them, and the calls for other connections
-- do nothing to it.
pub run-log_run :
    (id : Text) (calls : List Call) (all : History)
    → entries id (run calls all) ≡ log_run id calls (entries id all)
unfolding run log_run
run-log_run id [] all = refl
run-log_run id (c ∷ cs) all =
    run-log_run id cs (step c all) ∙ ap (log_run id cs) (step-log_step id c all)
