-- ===== src/Store.antt =====
-- src/connections/store.js: what is persisted and restored, the passwords, the forms and the sessions.
-- The host's settings are outside the repository: a read is the value that it gives, or `none` when
-- it fails.
pub mod Scope
pub mod Restoring
mod Tests
use tedi_sql_explorer.Base.{
  ℕ, suc, ◌==◌, Bool, true, false, not, ◌&&◌, Option, none, some, List, [], ◌∷◌, Text, codes,
  text_eq, is_empty, trim, split, map, filter, if◌then◌else◌, or_else,
}
use tedi_sql_explorer.Connection.{Connection}
use tedi_sql_explorer.Session.{Session, Target, grid_page_size}
use tedi_sql_explorer.Dialects.{Dialect, get_dialect}
use tedi_sql_explorer.Backup.File.{Keychain}
use tedi_sql_explorer.Workbench.{State, lookup, assign, exists, with_connections, with_sessions}

-- `loadSavedConnections()`: `none` for a failed read and for a value that is not a list.
unfoldable pub load_saved : Option (List Connection) → State → State
unfolding with_connections
load_saved none st = st
load_saved (some saved) st = with_connections saved st

-- The session that `ensureSession` creates.
unfoldable pub fresh_session : Text → Session
fresh_session id = record {
  conn_id = id;
  sql = codes "SELECT 1;";
  active_table = none;
  page = none;
  page_size = 0;
  grid_search = [];
  grid_search_col = [];
  order_by = [];
  order_dir = [];
  current_database = [];
  current_schema = [];
  request_id = none;
  in_transaction = false;
  schema_cache = [];
}

abbrev pub or_fresh : Text → Option Session → Session
unfolding fresh_session
or_fresh id none = fresh_session id
or_fresh id (some s) = s

-- `ensureSession(id)`: the session, and the state that then holds it.
unfoldable pub session_of : Text → State → Session
unfolding lookup or_fresh
session_of id st = or_fresh id (lookup id st.sessions)

unfoldable pub ensured : Option Session → Text → State → State
unfolding assign fresh_session with_sessions
ensured none id st = with_sessions (assign id (fresh_session id) st.sessions) st
ensured (some s) id st = st

unfoldable pub ensure_session : Text → State → State
unfolding ensured lookup
ensure_session id st = ensured (lookup id st.sessions) id st

-- What `saveWorkbenchSession` writes.
pub record SavedSession : Type 0 where
  pub sql : Option Text
  pub active_table : Option Target

pub record Saved : Type 0 where
  pub active : Option Text
  pub sessions : List (Text × SavedSession)

unfoldable pub saved_session : Text × Session → Text × SavedSession
saved_session (id, s) = (id, record { sql = some s.sql; active_table = s.active_table })

unfoldable pub save_workbench : State → Saved
unfolding saved_session
save_workbench st = record { active = st.active; sessions = map saved_session st.sessions }

abbrev pub prefer_table : Option Target → Option Target → Option Target
prefer_table none old = old
prefer_table (some t) old = some t

unfoldable pub refill : SavedSession → Session → Session
refill s session = record session {
  sql = or_else s.sql session.sql;
  active_table = prefer_table s.active_table session.active_table;
}

-- One round of the loop of `restoreWorkbenchSession`.
unfoldable pub restore_one : Text × SavedSession → State → State
unfolding exists assign refill session_of with_sessions
restore_one (id, s) st =
    if not (exists id st.connections)
    then st
    else with_sessions (assign id (refill s (session_of id st)) st.sessions) st

unfoldable pub restore_sessions : List (Text × SavedSession) → State → State
unfolding restore_one
restore_sessions [] st = st
restore_sessions (s ∷ rest) st = restore_sessions rest (restore_one s st)

unfoldable pub restore_active : Option Text → State → State
unfolding exists
restore_active none st = st
restore_active (some id) st =
    if not (is_empty id) && exists id st.connections then record st { active = some id } else st

-- `restoreWorkbenchSession()`.
unfoldable pub restore : Option Saved → State → State
unfolding restore_sessions restore_active
restore none st = st
restore (some saved) st = restore_active saved.active (restore_sessions saved.sessions st)

-- `persistConnections()`: the counter, and the list that the settings are given.
unfoldable pub persist : State → State × List Connection
persist st = (record st { revision = suc st.revision }, st.connections)

-- `refreshSavedConnections()`, once the read is back: `before` is the revision at its start, and
-- `print` is `JSON.stringify`.
module _ (print : List Connection → Text) where
  unfoldable pub refresh : ℕ → Option (List Connection) → State → State × Bool
  unfolding text_eq with_connections
  refresh before none st = (st, false)
  refresh before (some saved) st =
      if not (st.revision == before)
      then (st, false)
      else if text_eq (print saved) (print st.connections)
      then (st, false)
      else (with_connections saved st, true)

-- `setSecret`, `getSecret` and `deleteSecret`. A host without `delete` stores an empty text.
module _ (K : Keychain) where
  unfoldable pub set_secret : Text → Option Text → K.Vault → K.Vault
  set_secret id none v = v
  set_secret id (some password) v = if is_empty password then v else K.write v id password

  unfoldable pub delete_secret : Bool → Text → K.Vault → K.Vault
  delete_secret can_delete id v = if can_delete then K.wipe v id else K.write v id []

-- `scopedDatabases(conn)`.
unfoldable pub scoped_databases : Connection → List Text
unfolding get_dialect split trim
scoped_databases conn =
    if (get_dialect (some conn.kind)).database_is_connect_target
    then []
    else filter (λ s. not (is_empty s)) (map trim (split b',' conn.database))

abbrev pub first_text : List Text → Option Text
first_text [] = none
first_text (s ∷ ss) = if is_empty s then none else some s

-- `connectTargetDatabase(form)`.
unfoldable pub connect_target : Connection → Option Text
unfolding get_dialect scoped_databases
connect_target form =
    if (get_dialect (some form.kind)).database_is_connect_target
    then (if is_empty form.database then none else some form.database)
    else first_text (scoped_databases form)

-- What `validateForm(form)` throws; `none` when it returns.
pub data Invalid : Type 0 where
  name_required path_required host_required : Invalid

unfoldable pub validate_form : Connection → Option Invalid
unfolding text_eq
validate_form form =
    let file = text_eq form.kind (codes "sqlite") in
    if is_empty form.name && is_empty form.id
    then some name_required
    else if file && is_empty form.sqlite_path
    then some path_required
    else if not file && is_empty form.host
    then some host_required
    else none

-- `formToPersistable(form)`: the password is not a field of a connection.
unfoldable pub form_to_persistable : Connection → Connection
unfolding text_eq
form_to_persistable form =
    if text_eq form.kind (codes "sqlite")
    then record form { host = []; port = []; user = []; database = [] }
    else form
