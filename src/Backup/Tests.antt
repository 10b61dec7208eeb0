-- ===== src/Backup/Tests.antt =====
-- Runs of the backup code on concrete inputs, and its theorems at such inputs.
use tedi_sql_explorer.Base.{
  ◌+◌, ◌≡◌, ◌≢◌, refl, true, false, Option, none, some, List, [], ◌∷◌, Text, codes, All, length,
  text_eq, text_eq_iff, text_ne, if◌then◌else◌, Bool-cases, inl, inr,
}
use tedi_sql_explorer.Connection.{Connection}
use tedi_sql_explorer.Sql.{find_connection}
use tedi_sql_explorer.Json.{Json, null, number, text, array, object, nil, cons, end, field}
use tedi_sql_explorer.Backup.{sanitize_connection}
use tedi_sql_explorer.Backup.Sound.{IsSound, sanitize-IsSound}
use tedi_sql_explorer.Backup.RoundTrip.{file_fields, sanitize-file_fields}
use tedi_sql_explorer.Backup.File.{
  Keychain, Import, accepted, valid_kinds, parse_backup_file, import_all,
}
use tedi_sql_explorer.Backup.File.Laws.{IsKeychain, import_keeps_others}
use tedi_sql_explorer.Backup.File.Parsing.{entries_of, parse_backup-IsSound}

-- A record as it may come out of a file: a port as a number, and much that is missing.
abbrev raw : Json
raw = object (
    field (codes "id") (text (codes " c1 ")) (
      field (codes "kind") (text (codes "mysql")) (
        field (codes "host") (text (codes "db")) (
          field (codes "port") (text (codes "3307x"))
            (field (codes "sslMode") (text (codes "junk")) end)))))

abbrev clean : Connection
clean = record {
  id = codes "c1";
  kind = codes "mysql";
  name = codes "db";
  host = codes "db";
  port = codes "3307";
  user = [];
  database = [];
  sqlite_path = [];
  sqlite_read_only = false;
  allow_writes = false;
  ssl_mode = codes "none";
  ssh_tunnel = [];
  query_timeout_ms = 30000;
  row_limit = 10000;
}

sanitize_run : sanitize_connection raw valid_kinds ≡ some clean
unfolding sanitize_connection
sanitize_run = refl

sanitize-IsSound_example : IsSound valid_kinds clean
sanitize-IsSound_example = sanitize-IsSound raw valid_kinds sanitize_run

sanitize-file_fields_example :
    sanitize_connection (object (file_fields clean)) valid_kinds ≡ some clean
sanitize-file_fields_example =
    sanitize-file_fields valid_kinds clean (sanitize-IsSound raw valid_kinds sanitize_run)

abbrev file : Json
file = object (
    field (codes "kind") (text (codes "tedi-sql-connections")) (
      field (codes "version")
        (number (record {
          text = codes "1";
          finite = true;
          negative = false;
          whole = 1;
          fraction = false;
        }))
        (field (codes "secrets") (object end)
          (field (codes "connections") (array (cons null (cons raw nil))) end))))

file_run :
    parse_backup_file file
    ≡ accepted (record { connections = clean ∷ []; secrets = end; skipped = 1 })
unfolding parse_backup_file
file_run = refl

parse_backup-IsSound_example :
    (◌≢◌ {A = List Connection} (clean ∷ []) [])
    × All (IsSound valid_kinds) (clean ∷ [])
    × (length (clean ∷ []) + 1 ≡ length (entries_of file))
parse_backup-IsSound_example = parse_backup-IsSound file file_run

-- A keychain as a function from ids.
abbrev pub Passwords : Keychain
Passwords = record {
  Vault = Text → Option Text;
  read = λ v id. v id;
  write = λ v id p j. if text_eq id j then some p else v j;
  wipe = λ v id j. if text_eq id j then none else v j;
}

same : (id : Text) {A : Type 0} (x y : A) → (if text_eq id id then x else y) ≡ x
same id x y = rw ((text_eq_iff id id).1 refl)

other : (id j : Text) {A : Type 0} (x y : A) → id ≢ j → (if text_eq id j then x else y) ≡ y
other id j x y h = elim (Bool-cases (text_eq id j)) [
  | inl e ↦ absurd (h ((text_eq_iff id j).0 e))
  | inr e ↦ rw e
]

pub Passwords-IsKeychain : IsKeychain Passwords
Passwords-IsKeychain = record {
  read-write = λ v id p. same id (some p) (v id);
  read-wipe = λ v id. same id none (v id);
  read-write_ne = λ v id j p. other id j (some p) (v j);
  read-wipe_ne = λ v id j. other id j none (v j);
}

abbrev start : Import Passwords
start = record {
  connections = clean ∷ [];
  vault = λ j. some (codes "old");
  counts = record { added = 0; replaced = 0; without_secrets = 0; tunnels_dropped = 0 };
}

abbrev renamed : Connection
renamed = record clean { name = codes "new name"; ssh_tunnel = codes "bastion" }

abbrev second : Connection
second = record clean { id = codes "c2" }

ids_differ : second.id ≢ clean.id
ids_differ = text_ne second.id clean.id (unfold text_eq in refl)

import_keeps_others_example :
    (find_connection
        (import_all Passwords [] [] (clean ∷ []) start (second ∷ [])).connections
        clean.id
      ≡ find_connection start.connections clean.id)
    × (Passwords.read (import_all Passwords [] [] (clean ∷ []) start (second ∷ [])).vault clean.id
        ≡ Passwords.read start.vault clean.id)
import_keeps_others_example =
    import_keeps_others Passwords [] [] (clean ∷ []) Passwords-IsKeychain (second ∷ []) start
      clean.id (ids_differ, tt)
