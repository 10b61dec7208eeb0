-- ===== src/Lifecycle.antt =====
-- src/connections/lifecycle.js and src/tree/connState.js: the status of a connection, dialling it with
-- retries, saving, and deleting. What the helper answers to `/connect` is outside the repository: a
-- parameter says for each attempt whether it succeeds.
pub mod Retry
pub mod Deletion
mod Tests
use tedi_sql_explorer.Base.{
  ℕ, zero, suc, ◌+◌, ◌*◌, ltb, ◌==◌, Bool, true, false, not, ◌&&◌, Option, none, some, List, [],
  ◌∷◌, ◌++◌, Text, codes, text_eq, is_empty, filter, if◌then◌else◌, or_else,
}
use tedi_sql_explorer.Connection.{Connection}
use tedi_sql_explorer.Session.{Session}
use tedi_sql_explorer.Dialects.{get_dialect}
use tedi_sql_explorer.Dialects.Url.{build_connection_url}
use tedi_sql_explorer.Sql.{find_connection}
use tedi_sql_explorer.Backup.File.{Keychain}
use tedi_sql_explorer.History.{History, remove}
use tedi_sql_explorer.Workbench.{
  State, Status, idle, connecting, reconnecting, connected, disconnected, error, lookup, assign,
  discard,
}
use tedi_sql_explorer.Store.{
  Invalid, validate_form, form_to_persistable, set_secret, delete_secret, connect_target, persist,
}

-- `setConnState(id, st)`: idle, and no state at all, is not stored.
unfoldable pub set_conn_state : Text → Status → State → State
unfolding assign discard
set_conn_state id idle st = record st { conn_status = discard id st.conn_status }
set_conn_state id connecting st = record st { conn_status = assign id connecting st.conn_status }
set_conn_state id reconnecting st = record st {
  conn_status = assign id reconnecting st.conn_status;
}
set_conn_state id connected st = record st { conn_status = assign id connected st.conn_status }
set_conn_state id disconnected st = record st {
  conn_status = assign id disconnected st.conn_status;
}
set_conn_state id error st = record st { conn_status = assign id error st.conn_status }

-- `sidebarToneFor(id)`.
pub data Tone : Type 0 where
  tone_connecting tone_connected tone_error tone_default : Tone

unfoldable pub tone_of : Option Status → Tone
tone_of none = tone_default
tone_of (some idle) = tone_default
tone_of (some connecting) = tone_connecting
tone_of (some reconnecting) = tone_connecting
tone_of (some connected) = tone_connected
tone_of (some disconnected) = tone_default
tone_of (some error) = tone_error

unfoldable pub sidebar_tone_for : Text → State → Tone
unfolding tone_of lookup
sidebar_tone_for id st = tone_of (lookup id st.conn_status)

-- The body of `/connect`, for a form whose host and port are those of `resolveEndpoint`.
pub record ConnectBody : Type 0 where
  pub id : Text
  pub kind : Text
  pub url : Option Text
  pub allow_writes : Bool
  pub query_timeout_ms : ℕ
  pub row_limit : ℕ
  pub default_database : Option Text
  pub sqlite_read_only : Bool

abbrev pub or_number : ℕ → ℕ → ℕ
or_number n d = if n == 0 then d else n

unfoldable pub connect_body : Connection → Text → Text × Text → Bool → ConnectBody
unfolding build_connection_url get_dialect connect_target
connect_body form password (host, port) trial = record {
  id = if trial then codes "__test_" ++ form.id else form.id;
  kind = form.kind;
  url =
      build_connection_url (get_dialect (some form.kind)) (record form { host = host; port = port })
        password;
  allow_writes = form.allow_writes;
  query_timeout_ms = or_number form.query_timeout_ms 30000;
  row_limit = or_number form.row_limit 10000;
  default_database = connect_target form;
  sqlite_read_only = form.sqlite_read_only;
}

-- A (re)connect drops the transaction that the toolbar showed.
abbrev pub end_transaction : Option Session → Text → State → State
unfolding assign
end_transaction none id st = st
end_transaction (some s) id st = record st {
  sessions = assign id (record s { in_transaction = false }) st.sessions;
}

unfoldable pub after_connect : Text → State → State
unfolding end_transaction lookup
after_connect id st = end_transaction (lookup id st.sessions) id st

-- What `connectWithRetry` does, in order.
pub data Event : Type 0 where
  status : Status → Event
  dial : ℕ → Event
  pause : ℕ → Event
  failure_toast : Event

abbrev pub max_connect_attempts : ℕ
max_connect_attempts = 3

-- The loop: `left` attempts are left, the next one is number `attempt`. The result says whether it
-- returned or threw.
module _ (works : ℕ → Bool) where
  unfoldable pub attempts : ℕ → ℕ → List Event × Bool
  attempts zero attempt = (status error ∷ failure_toast ∷ [], false)
  attempts (suc left) attempt =
      let (events, ok) = attempts left (suc attempt) in
      let state = if attempt == 1 then connecting else reconnecting in
      let wait =
        if ltb attempt max_connect_attempts then pause (400 * attempt) ∷ events else events in
      if works attempt
      then (status state ∷ dial attempt ∷ status connected ∷ [], true)
      else (status state ∷ dial attempt ∷ wait, ok)

  -- `connectWithRetry(connId)` for a connection that is saved.
  unfoldable pub connect_with_retry : List Event × Bool
  unfolding attempts
  connect_with_retry = attempts max_connect_attempts 1

-- The password and the path that `connectWithRetry` dials with.
unfoldable pub dial_form : Connection → Connection
dial_form conn = record conn {
  sqlite_path =
      if not (is_empty conn.sqlite_path)
      then conn.sqlite_path
      else if not (is_empty conn.host)
      then conn.host
      else conn.database;
}

-- What the events do to the state of one connection.
unfoldable pub apply_events : Text → List Event → State → State
unfolding set_conn_state after_connect
apply_events id [] st = st
apply_events id (status s ∷ es) st = apply_events id es (set_conn_state id s st)
apply_events id (dial n ∷ es) st = apply_events id es st
apply_events id (pause n ∷ es) st = apply_events id es st
apply_events id (failure_toast ∷ es) st = apply_events id es st

-- `state.connections[existingIdx] = persistable`, or `push`.
unfoldable pub save_row : Connection → List Connection → List Connection
unfolding text_eq
save_row conn [] = conn ∷ []
save_row conn (c ∷ cs) =
    let rest = save_row conn cs in if text_eq c.id conn.id then conn ∷ cs else c ∷ rest

unfoldable pub is_file_row : Option Connection → Bool
unfolding text_eq
is_file_row none = true
is_file_row (some c) = text_eq c.kind (codes "sqlite")

unfoldable pub close_active : Text → Option Text → Option Text
unfolding text_eq
close_active id none = none
close_active id (some a) = if text_eq a id then none else some a

module _ (K : Keychain) where
  -- The state, the keychain and the history, which a deletion reaches together.
  pub record World : Type 0 where
    pub state : State
    pub vault : K.Vault
    pub history : History

  unfoldable pub save_secret : Bool → Text → Text → K.Vault → K.Vault
  unfolding set_secret
  save_secret file id password v = if file then v else set_secret K id (some password) v

  -- `saveAndConnect(form)`: what it throws, if the form is not valid, and the world it leaves;
  -- `dials` says whether the connection can be opened.
  unfoldable pub saved_world : Connection → Text → Bool → World → World
  unfolding form_to_persistable save_row persist save_secret after_connect set_conn_state
  saved_world form password dials w =
      let row = form_to_persistable form in
      let st = (persist (record w.state { connections = save_row row w.state.connections })).0 in
      let kept = save_secret (text_eq form.kind (codes "sqlite")) form.id password w.vault in
      let opened =
        set_conn_state form.id connected
          (record (after_connect form.id st) { active = some form.id }) in
      record w { state = if dials then opened else st; vault = kept }

  unfoldable pub save_and_connect : Connection → Text → Bool → World → Option Invalid × World
  unfolding saved_world validate_form
  save_and_connect form password dials w = elim (validate_form form) [
    | none ↦ (none, saved_world form password dials w)
    | some e ↦ (some e, w)
  ]

  -- `deleteConnection(id)`; `can_delete` says whether the host's keychain has `delete`.
  unfoldable pub delete_connection : Bool → Text → World → World
  unfolding is_file_row find_connection delete_secret remove persist close_active discard
  delete_connection can_delete id w =
      let file = is_file_row (find_connection w.state.connections id) in
      let left = filter (λ (c : Connection). not (text_eq c.id id)) w.state.connections in
      let st = (persist (record w.state { connections = left })).0 in
      record {
        state = record st {
          active = close_active id st.active;
          conn_status = discard id st.conn_status;
          sessions = discard id st.sessions;
        };
        vault = if file then w.vault else delete_secret K can_delete id w.vault;
        history = remove id w.history;
      }
