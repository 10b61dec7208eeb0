-- ===== src/Backup/RoundTrip.antt =====
-- A connection that is written into a backup file is read back as it was (src/connections/backup.js).
use tedi_sql_explorer.Base.{
  ℕ, ◌≤◌, Bool, true, false, ◌==◌, ◌≡◌, ◌≢◌, refl, sym, ap, ◌∙◌, inl, inr, some, List, [], ◌∷◌,
  arith, Text, codes, text_eq, is_empty, trim, trim_start, if◌then◌else◌, show_ℕ, show-Digits,
  show-ne-nil, read-show, read_digits, is_digit, is_space, Digits, Bool-cases,
}
use tedi_sql_explorer.Connection.{Connection}
use tedi_sql_explorer.Json.{Json, Fields, bool, number, text, object, end, field, get_field}
use tedi_sql_explorer.Backup.{
  in_range, parsed_in_range, parse_int, parse_signed, read_sign, starts_digit, num, num_or,
  port_text, member, or_text, as_text, max_timeout, max_rows, clean_record, sanitize_fields,
  sanitize_connection,
}
use tedi_sql_explorer.Backup.Sound.{IsSound, PortOk}

abbrev natural : ℕ → Json
natural n =
    number
      (record { text = show_ℕ n; finite = true; negative = false; whole = n; fraction = false })

-- The record as `buildBackup` writes it: every field of the connection, and no password.
unfoldable pub file_fields : Connection → Fields
file_fields c = field (codes "id") (text c.id) (
    field (codes "kind") (text c.kind) (
      field (codes "name") (text c.name) (
        field (codes "host") (text c.host) (
          field (codes "port") (text c.port) (
            field (codes "user") (text c.user) (
              field (codes "database") (text c.database) (
                field (codes "sqlitePath") (text c.sqlite_path) (
                  field (codes "sqliteReadOnly") (bool c.sqlite_read_only) (
                    field (codes "allow_writes") (bool c.allow_writes) (
                      field (codes "sslMode") (text c.ssl_mode) (
                        field (codes "sshTunnel") (text c.ssh_tunnel) (
                          field (codes "query_timeout_ms") (natural c.query_timeout_ms)
                            (field (codes "row_limit") (natural c.row_limit) end)))))))))))))

digit-not-space : (c : ℕ) → is_digit c ≡ true → is_space c ≡ false
unfolding is_digit is_space
digit-not-space c h = ground arith

digit-not-sign : (c : ℕ) → is_digit c ≡ true → ((c == b'-') ≡ false) × ((c == b'+') ≡ false)
unfolding is_digit
digit-not-sign c h = ground arith

parse_int-Digits : (s : Text) → s ≢ [] → Digits s → parse_int s ≡ some (false, read_digits 0 s)
unfolding parse_int parse_signed read_sign starts_digit trim_start
parse_int-Digits [] h ds = absurd (h refl)
parse_int-Digits (c ∷ s) h ds =
    rw (digit-not-space c ds.0, (digit-not-sign c ds.0).0, (digit-not-sign c ds.0).1, ds.0)

in_range_lem : (min max n : ℕ) → min ≤ n → n ≤ max → in_range min max false n false ≡ some n
unfolding in_range
in_range_lem min max n h k = ground arith

-- A port is read back from its text.
port_lem : (p : Text) → PortOk p → port_text (num (text p) 1 65535) ≡ p
port_lem p (inl e) = rw e (unfold num port_text in refl)
port_lem p (inr (n, low, high, e)) = rw (e, num-show n low high) (unfold port_text in ground arith)
  where
    num-show : (m : ℕ) → 1 ≤ m → m ≤ 65535 → num (text (show_ℕ m)) 1 65535 ≡ some m
    num-show m lo hi =
        unfold num parsed_in_range in
        rw (parse_int-Digits (show_ℕ m) (show-ne-nil m) (show-Digits m), read-show m)
          (in_range_lem 1 65535 m lo hi)

number_lem : (n max d : ℕ) → n ≤ max → num_or (num (natural n) 0 max) d ≡ n
unfolding num
number_lem n max d h = rw (in_range_lem 0 max n (omega arith) h)

sanitize_fields_lem :
    (fs : Fields) (kinds : List Text) {id kind host path : Text}
    → trim (as_text (get_field (codes "id") fs)) ≡ id
    → trim (as_text (get_field (codes "kind") fs)) ≡ kind
    → trim (as_text (get_field (codes "host") fs)) ≡ host
    → trim (as_text (get_field (codes "sqlitePath") fs)) ≡ path
    → is_empty id ≡ false
    → member kind kinds ≡ true
    → (if text_eq kind (codes "sqlite") then is_empty path else is_empty host) ≡ false
    → sanitize_fields fs kinds ≡ some (clean_record fs id kind host path)
unfolding sanitize_fields
sanitize_fields_lem fs kinds ei ek eh ep named known address =
    rw (ei, ek, eh, ep, named, known, address)

module _ (kinds : List Text) (c : Connection) (s : IsSound kinds c) where
  name_lem : or_text (trim c.name) (or_text c.host c.sqlite_path) ≡ c.name
  name_lem = rw s.name_trimmed (go c.name s.name_set)
    where
      go : (n : Text) → n ≢ [] → or_text n (or_text c.host c.sqlite_path) ≡ n
      go [] h = absurd (h refl)
      go (x ∷ n) h = refl

  -- What a file engine blanks is blank already.
  blank : (b : Bool) (x : Text) → (b ≡ true → x ≡ []) → (if b then [] else x) ≡ x
  blank true x h = sym (h refl)
  blank false x h = refl

  blank' : (b : Bool) (x : Text) → (b ≡ false → x ≡ []) → (if b then x else []) ≡ x
  blank' true x h = refl
  blank' false x h = sym (h refl)

  clean_lem : clean_record (file_fields c) c.id c.kind c.host c.sqlite_path ≡ c
  unfolding clean_record file_fields text_eq
  clean_lem = λ i. record {
    id = c.id;
    kind = c.kind;
    name = name_lem i;
    host = blank (text_eq c.kind (codes "sqlite")) c.host (λ e. (s.file e).1) i;
    port =
        (ap (λ p. if text_eq c.kind (codes "sqlite") then [] else p) (port_lem c.port s.port_ok)
            ∙ blank (text_eq c.kind (codes "sqlite")) c.port (λ e. (s.file e).2))
          i;
    user = blank (text_eq c.kind (codes "sqlite")) c.user (λ e. (s.file e).3) i;
    database = blank (text_eq c.kind (codes "sqlite")) c.database (λ e. (s.file e).4) i;
    sqlite_path = blank' (text_eq c.kind (codes "sqlite")) c.sqlite_path (λ e. (s.server e).1) i;
    sqlite_read_only = c.sqlite_read_only;
    allow_writes = c.allow_writes;
    ssl_mode = ap (λ b. if b then c.ssl_mode else codes "none") s.ssl_known i;
    ssh_tunnel = c.ssh_tunnel;
    query_timeout_ms = number_lem c.query_timeout_ms max_timeout 30000 s.timeout_ok i;
    row_limit = number_lem c.row_limit max_rows 10000 s.rows_ok i;
  }

  id_passes : is_empty c.id ≡ false
  id_passes = go c.id s.id_set
    where
      go : (t : Text) → t ≢ [] → is_empty t ≡ false
      go [] h = absurd (h refl)
      go (x ∷ t) h = refl

  address_passes :
      (if text_eq c.kind (codes "sqlite") then is_empty c.sqlite_path else is_empty c.host) ≡ false
  address_passes = elim (Bool-cases (text_eq c.kind (codes "sqlite"))) [
    | inl e ↦ rw e (go c.sqlite_path (s.file e).0)
    | inr e ↦ rw e (go c.host (s.server e).0)
  ]
    where
      go : (t : Text) → t ≢ [] → is_empty t ≡ false
      go [] h = absurd (h refl)
      go (x ∷ t) h = refl

  -- A record that satisfies the checks, written into a backup as `buildBackup` writes it, passes the
  -- checks again and comes back with every field as it was.
  pub sanitize-file_fields : sanitize_connection (object (file_fields c)) kinds ≡ some c
  unfolding sanitize_connection
  sanitize-file_fields =
      sanitize_fields_lem (file_fields c) kinds {id = c.id} {kind = c.kind} {host = c.host}
        {path = c.sqlite_path} (unfold file_fields text_eq in s.id_trimmed)
        (unfold file_fields text_eq in s.kind_trimmed)
        (unfold file_fields text_eq in s.host_trimmed)
        (unfold file_fields text_eq in s.path_trimmed) id_passes s.kind_known address_passes
      ∙ ap some clean_lem
