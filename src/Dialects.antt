-- ===== src/Dialects.antt =====
-- src/dialects/types.js, generic.js, mysql.js, postgres.js, sqlite.js, sqlWords.js and the registry
-- of src/dialects/index.js: what differs from engine to engine, as data. The connection URL is in
-- `Dialects.Url`, the laws of quoting are in `Dialects.Quoting`.
pub mod Words
pub mod Quoting
pub mod Url
mod Tests
use tedi_sql_explorer.Base.{
  ℕ, Bool, true, false, ◌≡◌, Option, none, some, List, [], ◌∷◌, ◌++◌, Text, codes, text_eq,
  replace_char, if◌then◌else◌,
}
use Words.{
  mysql_keywords, mysql_functions, postgres_keywords, postgres_functions, sqlite_keywords,
  sqlite_functions,
}

-- How the `sslMode` of a form maps onto the query of the URL.
pub record DialectSsl : Type 0 where
  pub param : Text
  pub fallback : Text
  pub values : List (Text × Text)

pub record Dialect : Type 0 where
  pub id : Text
  pub label : Text
  pub short_label : Text
  pub language_id : Text
  pub file_based : Bool
  pub default_port : Text
  pub url_scheme : Text
  pub quote_char : ℕ
  pub explain_prefix : Text
  pub database_is_connect_target : Bool
  pub ssl : Option DialectSsl
  pub keywords : List Text
  pub functions : List Text

abbrev pub generic : Dialect
generic = record {
  id = codes "sql";
  label = codes "SQL";
  short_label = codes "SQL";
  language_id = codes "sql";
  file_based = false;
  default_port = [];
  url_scheme = [];
  quote_char = b'"';
  explain_prefix = codes "EXPLAIN ";
  database_is_connect_target = false;
  ssl = none;
  keywords = [];
  functions = [];
}

abbrev pub mysql : Dialect
mysql = record {
  id = codes "mysql";
  label = codes "MySQL / MariaDB";
  short_label = codes "MySQL";
  language_id = codes "sql:mysql";
  file_based = false;
  default_port = codes "3306";
  url_scheme = codes "mysql";
  quote_char = b'`';
  explain_prefix = codes "EXPLAIN ";
  database_is_connect_target = false;
  ssl = some (record {
    param = codes "ssl-mode";
    fallback = codes "REQUIRED";
    values =
        (codes "preferred", codes "PREFERRED")
        ∷ (codes "required", codes "REQUIRED")
        ∷ (codes "verify_ca", codes "VERIFY_CA")
        ∷ (codes "verify_full", codes "VERIFY_IDENTITY")
        ∷ [];
  });
  keywords = mysql_keywords;
  functions = mysql_functions;
}

abbrev pub postgres : Dialect
postgres = record {
  id = codes "postgres";
  label = codes "PostgreSQL";
  short_label = codes "PostgreSQL";
  language_id = codes "sql:postgres";
  file_based = false;
  default_port = codes "5432";
  url_scheme = codes "postgres";
  quote_char = b'"';
  explain_prefix = codes "EXPLAIN ";
  database_is_connect_target = true;
  ssl = some (record {
    param = codes "sslmode";
    fallback = codes "require";
    values =
        (codes "preferred", codes "prefer")
        ∷ (codes "required", codes "require")
        ∷ (codes "verify_ca", codes "verify-ca")
        ∷ (codes "verify_full", codes "verify-full")
        ∷ [];
  });
  keywords = postgres_keywords;
  functions = postgres_functions;
}

abbrev pub sqlite : Dialect
sqlite = record {
  id = codes "sqlite";
  label = codes "SQLite";
  short_label = codes "SQLite";
  language_id = codes "sql:sqlite";
  file_based = true;
  default_port = [];
  url_scheme = codes "sqlite";
  quote_char = b'"';
  explain_prefix = codes "EXPLAIN QUERY PLAN ";
  database_is_connect_target = false;
  ssl = none;
  keywords = sqlite_keywords;
  functions = sqlite_functions;
}

-- `listDialects()`, in the order of the dialog's engine select.
abbrev pub dialects : List Dialect
dialects = mysql ∷ postgres ∷ sqlite ∷ []

find_dialect : Text → List Dialect → Dialect
unfolding text_eq
find_dialect kind [] = generic
find_dialect kind (d ∷ ds) = if text_eq kind d.id then d else find_dialect kind ds

-- `getDialect(kind)`, where `none` is an unset kind.
unfoldable pub get_dialect : Option Text → Dialect
unfolding find_dialect
get_dialect none = generic
get_dialect (some kind) = find_dialect kind dialects

-- `quoteIdent(dialect, name)`; `split(q).join(q + q)` doubles each quote character.
unfoldable pub quote_ident : Dialect → Text → Text
unfolding replace_char
quote_ident d name = let q = d.quote_char in q ∷ (replace_char q (q ∷ q ∷ []) name ++ (q ∷ []))
