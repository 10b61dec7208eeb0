-- ===== src/Backup.antt =====
-- src/connections/backup.js: the checks that an imported record passes, and the envelope of a backup
-- file. The envelope, the secrets and `applyBackup` are in `Backup.File`.
pub mod Sound
pub mod RoundTrip
pub mod File
pub mod Tests
use tedi_sql_explorer.Base.{
  ℕ, ◌*◌, Bool, true, false, ◌&&◌, ◌||◌, not, ltb, leb, ◌==◌, Option, none, some, List, [], ◌∷◌,
  Text, codes, text_eq, is_empty, trim, trim_start, any, map, if◌then◌else◌, show_ℕ, read_digits,
  is_digit,
}
use tedi_sql_explorer.Connection.{Connection}
use tedi_sql_explorer.Json.{
  Json, Items, Fields, Number, null, bool, number, text, array, object, nil, cons, end, field,
  get_field,
}

-- `str(v)` and `bool(v)`.
abbrev pub as_text : Json → Text
as_text (text s) = s
as_text null = []
as_text (bool b) = []
as_text (number n) = []
as_text (array js) = []
as_text (object fs) = []

abbrev pub as_bool : Json → Bool
as_bool (bool b) = b
as_bool null = false
as_bool (number n) = false
as_bool (text s) = false
as_bool (array js) = false
as_bool (object fs) = false

-- `Number.parseInt(s, 10)`: a sign and the digits behind it, or `none` for `NaN`.
read_sign : Text → Bool × Text
read_sign [] = (false, [])
read_sign (c ∷ s) =
    if c == b'-' then (true, s) else if c == b'+' then (false, s) else (false, c ∷ s)

starts_digit : Text → Bool
starts_digit [] = false
starts_digit (c ∷ s) = is_digit c

parse_signed : Bool × Text → Option (Bool × ℕ)
unfolding starts_digit read_digits
parse_signed (negative, s) = if starts_digit s then some (negative, read_digits 0 s) else none

unfoldable pub parse_int : Text → Option (Bool × ℕ)
unfolding parse_signed read_sign trim_start
parse_int s = parse_signed (read_sign (trim_start s))

-- The part of `String(v ?? "")` that `parseInt` can read: an array is joined by commas, and what is
-- behind the first comma is never reached; an object begins with a bracket.
abbrev mutual
  pub leading_text : Json → Text
  leading_text null = []
  leading_text (bool true) = codes "true"
  leading_text (bool false) = codes "false"
  leading_text (number n) = n.text
  leading_text (text s) = s
  leading_text (array js) = leading_item js
  leading_text (object fs) = codes "[object Object]"

  pub leading_item : Items → Text
  leading_item nil = []
  leading_item (cons j js) = leading_text j

-- `n >= min && n <= max` and `Math.floor(n)` for a whole `min` and `max`.
pub in_range : ℕ → ℕ → Bool → ℕ → Bool → Option ℕ
in_range min max negative whole fraction =
    let zero_ok = whole == 0 && (not fraction && min == 0) in
    let fits = leb min whole && (ltb whole max || (whole == max && not fraction)) in
    if negative then (if zero_ok then some 0 else none) else if fits then some whole else none

parsed_in_range : ℕ → ℕ → Option (Bool × ℕ) → Option ℕ
unfolding in_range
parsed_in_range min max none = none
parsed_in_range min max (some (negative, n)) = in_range min max negative n false

-- `num(v, min, max, fallback)`, with `none` for the fallback.
unfoldable pub num : Json → ℕ → ℕ → Option ℕ
unfolding in_range parsed_in_range parse_int
num (number n) min max = if n.finite then in_range min max n.negative n.whole n.fraction else none
num null min max = parsed_in_range min max (parse_int [])
num (bool b) min max = parsed_in_range min max (parse_int (leading_text (bool b)))
num (text s) min max = parsed_in_range min max (parse_int s)
num (array js) min max = parsed_in_range min max (parse_int (leading_item js))
num (object fs) min max = parsed_in_range min max (parse_int (codes "[object Object]"))

abbrev pub num_or : Option ℕ → ℕ → ℕ
num_or none d = d
num_or (some n) d = n

-- `String(num(v, 1, 65535, "") || "")`.
pub port_text : Option ℕ → Text
unfolding show_ℕ
port_text none = []
port_text (some n) = if n == 0 then [] else show_ℕ n

-- `VALID_SSL`.
abbrev pub valid_ssl : List Text
valid_ssl =
    codes "none"
    ∷ codes "preferred"
    ∷ codes "required"
    ∷ codes "verify_ca"
    ∷ codes "verify_full"
    ∷ []

unfoldable pub member : Text → List Text → Bool
unfolding text_eq
member s ts = any (text_eq s) ts

abbrev pub or_text : Text → Text → Text
or_text [] t = t
or_text (c ∷ s) t = c ∷ s

abbrev pub max_timeout : ℕ
max_timeout = 24 * 60 * 60 * 1000

abbrev pub max_rows : ℕ
max_rows = 10_000_000

-- The record that is returned, once the checks have passed.
pub clean_record : Fields → Text → Text → Text → Text → Connection
unfolding trim num port_text member text_eq
clean_record fs id kind host path =
    let file = text_eq kind (codes "sqlite") in
    let ssl = as_text (get_field (codes "sslMode") fs) in
    record {
      id = id;
      kind = kind;
      name = or_text (trim (as_text (get_field (codes "name") fs))) (or_text host path);
      host = if file then [] else host;
      port = if file then [] else port_text (num (get_field (codes "port") fs) 1 65535);
      user = if file then [] else as_text (get_field (codes "user") fs);
      database = if file then [] else as_text (get_field (codes "database") fs);
      sqlite_path = if file then path else [];
      sqlite_read_only = as_bool (get_field (codes "sqliteReadOnly") fs);
      allow_writes = as_bool (get_field (codes "allow_writes") fs);
      ssl_mode = if member ssl valid_ssl then ssl else codes "none";
      ssh_tunnel = as_text (get_field (codes "sshTunnel") fs);
      query_timeout_ms = num_or (num (get_field (codes "query_timeout_ms") fs) 0 max_timeout) 30000;
      row_limit = num_or (num (get_field (codes "row_limit") fs) 0 max_rows) 10000;
    }

sanitize_fields : Fields → List Text → Option Connection
unfolding clean_record trim member text_eq
sanitize_fields fs valid_kinds =
    let id = trim (as_text (get_field (codes "id") fs)) in
    let kind = trim (as_text (get_field (codes "kind") fs)) in
    let path = trim (as_text (get_field (codes "sqlitePath") fs)) in
    let host = trim (as_text (get_field (codes "host") fs)) in
    if is_empty id || not (member kind valid_kinds)
    then none
    else if (if text_eq kind (codes "sqlite") then is_empty path else is_empty host)
    then none
    else some (clean_record fs id kind host path)

-- `sanitizeConnection(raw, validKinds)`.
unfoldable pub sanitize_connection : Json → List Text → Option Connection
unfolding sanitize_fields
sanitize_connection (object fs) valid_kinds = sanitize_fields fs valid_kinds
sanitize_connection null valid_kinds = none
sanitize_connection (bool b) valid_kinds = none
sanitize_connection (number n) valid_kinds = none
sanitize_connection (text s) valid_kinds = none
sanitize_connection (array js) valid_kinds = none
