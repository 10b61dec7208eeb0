-- ===== src/CopyInfo.antt =====
-- src/connections/copyInfo.js and src/connections/tunnel.js: a connection's details as text, and the
-- forward through a jump host. The host's keychain and SSH manager are parameters.
pub mod Shell
pub mod Command
mod Tests
use tedi_sql_explorer.Base.{
  ℕ, zero, suc, ◌==◌, Bool, true, false, not, ◌&&◌, ◌||◌, Option, none, some, List, [], ◌∷◌, ◌++◌,
  Text, codes, text_eq, is_empty, trim, join, replace_char, show_ℕ, if◌then◌else◌, or_else, find,
}
use tedi_sql_explorer.Connection.{Connection}
use tedi_sql_explorer.Session.{Session}
use tedi_sql_explorer.Dialects.{Dialect, get_dialect}
use tedi_sql_explorer.Dialects.Url.{build_connection_url}
use tedi_sql_explorer.Store.{connect_target}
use tedi_sql_explorer.Columns.{or_text}

-- `shellQuote(s)`.
unfoldable pub shell_quote : Text → Text
unfolding replace_char
shell_quote s = b'\'' ∷ (replace_char b'\'' (codes "'\\''") s ++ (b'\'' ∷ []))

-- What the command says of the password: `none` is a password that is left out on purpose.
unfoldable pub pg_env : Option Text → Text
unfolding shell_quote
pg_env none = []
pg_env (some []) = []
pg_env (some (c ∷ s)) = codes "PGPASSWORD=" ++ (shell_quote (c ∷ s) ++ codes " ")

unfoldable pub mysql_password : Option Text → Text
unfolding shell_quote
mysql_password none = codes " -p"
mysql_password (some []) = []
mysql_password (some (c ∷ s)) = codes " -p" ++ shell_quote (c ∷ s)

-- `cliCommand(kind, form, password)`.
unfoldable pub option_text : Text → Text → Text
unfolding shell_quote
option_text flag [] = []
option_text flag (c ∷ s) = codes " " ++ (flag ++ (codes " " ++ shell_quote (c ∷ s)))

unfoldable pub psql : Connection → Option Text → Text
unfolding pg_env option_text
psql form password =
    pg_env password
    ++ (codes "psql -h "
        ++ (form.host
            ++ (codes " -p "
                ++ (form.port
                    ++ (option_text (codes "-U") form.user
                        ++ option_text (codes "-d") form.database)))))

unfoldable pub mysql_client : Connection → Option Text → Text
unfolding mysql_password option_text
mysql_client form password =
    codes "mysql -h "
    ++ (form.host
        ++ (codes " -P "
            ++ (form.port
                ++ (option_text (codes "-u") form.user
                    ++ (mysql_password password ++ option_text (codes "-D") form.database)))))

unfoldable pub cli_command : Text → Connection → Option Text → Text
unfolding text_eq psql mysql_client
cli_command kind form password =
    if text_eq kind (codes "postgres") then psql form password else mysql_client form password

-- A saved SSH host.
pub record SshHost : Type 0 where
  pub id : Text
  pub user : Text
  pub host : Text
  pub port : ℕ

unfoldable pub via : Option SshHost → Text
unfolding show_ℕ
via none = codes "(the SSH host saved in TEDI)"
via (some h) =
    (if is_empty h.user then [] else h.user ++ codes "@")
    ++ (h.host ++ (if h.port == 0 || h.port == 22 then [] else codes " -p " ++ show_ℕ h.port))

abbrev pub line_if : Bool → Text → List Text → List Text
line_if true t rest = t ∷ rest
line_if false t rest = rest

abbrev pub password_line : Option Text → Text
password_line none = codes "Password: (not included)"
password_line (some p) = codes "Password: " ++ or_text p (codes "(none saved)")

unfoldable pub file_lines : Connection → List Text
unfolding shell_quote
file_lines c =
    let path = or_text c.sqlite_path (or_text c.host c.database) in
    (codes "File: " ++ path)
    ∷ line_if (c.sqlite_read_only || not c.allow_writes) (codes "Access: read-only in TEDI")
        ((codes "CLI: sqlite3 " ++ shell_quote path) ∷ [])

unfoldable pub ssh_lines : Connection → Text → Option SshHost → List Text
unfolding via
ssh_lines c port host =
    if is_empty c.ssh_tunnel
    then []
    else (codes "SSH: only reachable through " ++ (via host ++ codes ". Open a tunnel first:"))
      ∷ (codes "     ssh -N -L 15432:"
          ++ (c.host ++ (codes ":" ++ (port ++ (codes " " ++ via host)))))
      ∷ codes "     then connect to 127.0.0.1:15432 instead of the host and port above."
      ∷ []

abbrev pub with_url : Option Text → (Text → List Text) → Option (List Text)
with_url none lines = none
with_url (some url) lines = some (lines url)

-- The lines for a server; `none` when the URL cannot be built.
unfoldable pub server_lines :
    Dialect → Connection → Option Text → Text → Text → Option SshHost → Option (List Text)
unfolding build_connection_url cli_command ssh_lines text_eq
server_lines d c password database schema host =
    let port = or_text c.port d.default_port in
    let form = record c { port = port; database = database } in
    with_url (build_connection_url d form (or_else password [])) (λ url.
      (codes "Host: " ++ c.host)
      ∷ (codes "Port: " ++ port)
      ∷ (codes "User: " ++ or_text c.user (codes "(none)"))
      ∷ password_line password
      ∷ line_if (not (is_empty database)) (codes "Database: " ++ database) (
          line_if (not (is_empty schema) && not (text_eq schema database))
            (codes "Schema: " ++ schema)
            (line_if (not (is_empty c.ssl_mode) && not (text_eq c.ssl_mode (codes "none")))
              (codes "SSL: " ++ c.ssl_mode)
              (line_if (not c.allow_writes)
                (codes "Access: read-only in TEDI (the server account may still allow writes)")
                ((codes "URL: " ++ url)
                  ∷ (codes "CLI: " ++ cli_command c.kind form password)
                  ∷ ssh_lines c port host)))))

-- `connectionInfoText(conn, opts)`.
unfoldable pub connection_info_text :
    Connection → Option Text → Text → Text → Option SshHost → Option Text
unfolding get_dialect file_lines server_lines join
connection_info_text c password database schema host =
    let d = get_dialect (some c.kind) in
    let head =
      (codes "Database connection \""
        ++ (or_text c.name c.id ++ codes "\" (from TEDI SQL Explorer)"))
      ∷ (codes "Engine: " ++ d.label)
      ∷ [] in
    if d.file_based
    then some (join (codes "\n") (head ++ file_lines c))
    else elim (server_lines d c password database schema host) [
      | none ↦ none
      | some lines ↦ some (join (codes "\n") (head ++ lines))
    ]

-- The database, schema and password that `copyConnectionInfo(conn, opts)` passes on; `secret` is what the
-- keychain holds.
abbrev pub current_database : Option Session → Text
current_database none = []
current_database (some s) = s.current_database

abbrev pub current_schema : Option Session → Text
current_schema none = []
current_schema (some s) = s.current_schema

unfoldable pub copied_database : Connection → Text → Option Session → Text
unfolding connect_target
copied_database c database s =
    or_text database (or_text (current_database s) (or_else (connect_target c) []))

unfoldable pub copied_schema : Text → Text → Option Session → Text
copied_schema database schema s =
    or_text schema (if is_empty database then current_schema s else [])

unfoldable pub copied_password : Bool → Connection → Option Text → Option Text
unfolding text_eq
copied_password with_password c secret =
    if with_password && not (text_eq c.kind (codes "sqlite"))
    then some (or_else secret [])
    else none

unfoldable pub copy_connection_info :
    Connection → Bool → Text → Text → Option Session → Option Text → List SshHost → Option Text
unfolding connection_info_text copied_password copied_database copied_schema text_eq
copy_connection_info c with_password database schema s secret hosts =
    connection_info_text c (copied_password with_password c secret) (copied_database c database s)
      (copied_schema database schema s)
      (if is_empty c.ssh_tunnel
        then none
        else find (λ (h : SshHost). text_eq h.id c.ssh_tunnel) hosts)
