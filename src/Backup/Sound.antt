-- ===== src/Backup/Sound.antt =====
-- What every record that `sanitizeConnection` lets through satisfies (src/connections/backup.js).
use tedi_sql_explorer.Base.{
  ℕ, ◌≤◌, Bool, true, false, ◌||◌, not, ◌==◌, ◌≡◌, ◌≢◌, refl, ◌⊎◌, inl, inr, Option, none, some,
  List, [], ◌∷◌, arith, Text, codes, text_eq, is_empty, trim, trim_idem, if◌then◌else◌, show_ℕ,
  Bool-cases,
}
use mathlib.Core.Path.{subst}
use tedi_sql_explorer.Connection.{Connection}
use tedi_sql_explorer.Json.{Json, Fields, null, bool, number, text, array, object, get_field}
use tedi_sql_explorer.Backup.{
  in_range, parsed_in_range, parse_int, leading_text, leading_item, num, num_or, port_text,
  valid_ssl, member, or_text, as_text, max_timeout, max_rows, clean_record, sanitize_fields,
  sanitize_connection,
}

abbrev pub is_file : Connection → Bool
is_file c = text_eq c.kind (codes "sqlite")

-- A port is blank, or the decimal print of a TCP port.
abbrev pub PortOk : Text → Type 0
PortOk p = (p ≡ []) ⊎ ((n : ℕ) × (1 ≤ n) × (n ≤ 65535) × (p ≡ show_ℕ n))

pub record IsSound (kinds : List Text) (c : Connection) : Type 0 where
  pub id_set : c.id ≢ []
  pub id_trimmed : trim c.id ≡ c.id
  pub kind_known : member c.kind kinds ≡ true
  pub kind_trimmed : trim c.kind ≡ c.kind
  pub name_set : c.name ≢ []
  pub name_trimmed : trim c.name ≡ c.name
  pub host_trimmed : trim c.host ≡ c.host
  pub path_trimmed : trim c.sqlite_path ≡ c.sqlite_path
  pub file :
      text_eq c.kind (codes "sqlite") ≡ true
      → (c.sqlite_path ≢ []) × (c.host ≡ []) × (c.port ≡ []) × (c.user ≡ []) × (c.database ≡ [])
  pub server : text_eq c.kind (codes "sqlite") ≡ false → (c.host ≢ []) × (c.sqlite_path ≡ [])
  pub port_ok : PortOk c.port
  pub ssl_known : member c.ssl_mode valid_ssl ≡ true
  pub timeout_ok : c.query_timeout_ms ≤ max_timeout
  pub rows_ok : c.row_limit ≤ max_rows

in_range_bounds :
    (min max : ℕ) (negative : Bool) (whole : ℕ) (fraction : Bool) {n : ℕ}
    → in_range min max negative whole fraction ≡ some n
    → (min ≤ n) × (n ≤ max)
unfolding in_range
in_range_bounds min max negative whole fraction h = ground arith

parsed_bounds :
    (min max : ℕ) (p : Option (Bool × ℕ)) {n : ℕ}
    → parsed_in_range min max p ≡ some n
    → (min ≤ n) × (n ≤ max)
unfolding parsed_in_range
parsed_bounds min max none h = cc
parsed_bounds min max (some (negative, m)) h = in_range_bounds min max negative m false h

-- `num` never leaves its bounds.
num_bounds : (v : Json) (min max : ℕ) {n : ℕ} → num v min max ≡ some n → (min ≤ n) × (n ≤ max)
unfolding num
num_bounds (number m) min max h =
    ground (arith, in_range_bounds min max m.negative m.whole m.fraction)
num_bounds null min max h = parsed_bounds min max (parse_int []) h
num_bounds (bool b) min max h = parsed_bounds min max (parse_int (leading_text (bool b))) h
num_bounds (text s) min max h = parsed_bounds min max (parse_int s) h
num_bounds (array js) min max h = parsed_bounds min max (parse_int (leading_item js)) h
num_bounds (object fs) min max h = parsed_bounds min max (parse_int (codes "[object Object]")) h

num_or_bound : (v : Json) (max d : ℕ) → d ≤ max → num_or (num v 0 max) d ≤ max
num_or_bound v max d h = go (num v 0 max) refl
  where
    go : (o : Option ℕ) → num v 0 max ≡ o → num_or o d ≤ max
    go none e = h
    go (some n) e = (num_bounds v 0 max e).1

port-PortOk : (v : Json) → PortOk (port_text (num v 1 65535))
unfolding port_text
port-PortOk v = go (num v 1 65535) refl
  where
    go : (o : Option ℕ) → num v 1 65535 ≡ o → PortOk (port_text o)
    go none e = inl refl
    go (some n) e = elim (Bool-cases (n == 0)) [
      | inl z ↦ absurd (ground (arith, num_bounds v 1 65535 e))
      | inr nz ↦ rw nz (inr (n, (num_bounds v 1 65535 e).0, (num_bounds v 1 65535 e).1, refl))
    ]

or_text-ne-nil : (s t : Text) → t ≢ [] → or_text s t ≢ []
or_text-ne-nil [] t h = h
or_text-ne-nil (c ∷ s) t h = λ e. cc

or_text-trimmed : (s t : Text) → trim s ≡ s → trim t ≡ t → trim (or_text s t) ≡ or_text s t
or_text-trimmed [] t hs ht = ht
or_text-trimmed (c ∷ s) t hs ht = hs

ssl-known : (s : Text) → member (if member s valid_ssl then s else codes "none") valid_ssl ≡ true
ssl-known s = elim (Bool-cases (member s valid_ssl)) [
  | inl e ↦ rw e e
  | inr e ↦ rw e (unfold member text_eq in refl)
]

or_text-ne-nil_left : (s t : Text) → s ≢ [] → or_text s t ≢ []
or_text-ne-nil_left [] t h = absurd (h refl)
or_text-ne-nil_left (c ∷ s) t h = λ e. cc

trim-nil : trim [] ≡ []
unfolding trim
trim-nil = refl

if-trimmed : (b : Bool) (s : Text) → trim s ≡ s → trim (if b then [] else s) ≡ (if b then [] else s)
if-trimmed true s h = trim-nil
if-trimmed false s h = h

if-trimmed' :
    (b : Bool) (s : Text) → trim s ≡ s → trim (if b then s else []) ≡ (if b then s else [])
if-trimmed' true s h = h
if-trimmed' false s h = trim-nil

if-PortOk : (b : Bool) (p : Text) → PortOk p → PortOk (if b then [] else p)
if-PortOk true p h = inl refl
if-PortOk false p h = h

module _ (kinds : List Text) (fs : Fields) (id kind host path : Text) where
  name_source :
      (text_eq kind (codes "sqlite") ≡ true → path ≢ [])
      → (text_eq kind (codes "sqlite") ≡ false → host ≢ [])
      → or_text host path ≢ []
  name_source file server = elim (Bool-cases (text_eq kind (codes "sqlite"))) [
    | inl e ↦ or_text-ne-nil host path (file e)
    | inr e ↦ or_text-ne-nil_left host path (server e)
  ]

  pub clean_record-IsSound :
      id ≢ []
      → trim id ≡ id
      → member kind kinds ≡ true
      → trim kind ≡ kind
      → trim host ≡ host
      → trim path ≡ path
      → (text_eq kind (codes "sqlite") ≡ true → path ≢ [])
      → (text_eq kind (codes "sqlite") ≡ false → host ≢ [])
      → IsSound kinds (clean_record fs id kind host path)
  unfolding clean_record
  clean_record-IsSound i ti k tk th tp file server = record {
    id_set = i;
    id_trimmed = ti;
    kind_known = k;
    kind_trimmed = tk;
    name_set = or_text-ne-nil _ _ (name_source file server);
    name_trimmed =
        or_text-trimmed _ _ (trim_idem (as_text (get_field (codes "name") fs)))
          (or_text-trimmed host path th tp);
    host_trimmed = if-trimmed _ host th;
    path_trimmed = if-trimmed' _ path tp;
    file = λ e. rw e (file e, refl, refl, refl, refl);
    server = λ e. rw e (server e, refl);
    port_ok = if-PortOk _ _ (port-PortOk (get_field (codes "port") fs));
    ssl_known = ssl-known (as_text (get_field (codes "sslMode") fs));
    timeout_ok =
        num_or_bound (get_field (codes "query_timeout_ms") fs) max_timeout 30000 (omega arith);
    rows_ok = num_or_bound (get_field (codes "row_limit") fs) max_rows 10000 (omega arith);
  }

not-empty : (s : Text) → is_empty s ≡ false → s ≢ []
not-empty [] h = cc
not-empty (c ∷ s) h = λ e. cc

both_pass :
    (a b : Bool) {x c : Connection}
    → (if a then none else if b then none else some x) ≡ some c
    → (a ≡ false) × (b ≡ false) × (x ≡ c)
both_pass true b h = cc
both_pass false true h = cc
both_pass false false h = (refl, refl, ground arith)

no_path : (b x y : Bool) → (if b then x else y) ≡ false → b ≡ true → x ≡ false
no_path b x y h e = ground arith

no_host : (b x y : Bool) → (if b then x else y) ≡ false → b ≡ false → y ≡ false
no_host b x y h e = ground arith

first_false : (a b : Bool) → a || not b ≡ false → (a ≡ false) × (b ≡ true)
first_false a b h = ground arith

sanitize_fields-IsSound :
    (fs : Fields) (kinds : List Text) {c : Connection}
    → sanitize_fields fs kinds ≡ some c
    → IsSound kinds c
unfolding sanitize_fields
sanitize_fields-IsSound fs kinds {c} h =
    let id = trim (as_text (get_field (codes "id") fs)) in
    let kind = trim (as_text (get_field (codes "kind") fs)) in
    let path = trim (as_text (get_field (codes "sqlitePath") fs)) in
    let host = trim (as_text (get_field (codes "host") fs)) in
    let file = text_eq kind (codes "sqlite") in
    let (named, found, e) =
      both_pass (is_empty id || not (member kind kinds))
        (if file then is_empty path else is_empty host) h in
    let (i, k) = first_false (is_empty id) (member kind kinds) named in
    subst (IsSound kinds) e (
      clean_record-IsSound kinds fs id kind host path (not-empty id i)
        (trim_idem (as_text (get_field (codes "id") fs))) k
        (trim_idem (as_text (get_field (codes "kind") fs)))
        (trim_idem (as_text (get_field (codes "host") fs)))
        (trim_idem (as_text (get_field (codes "sqlitePath") fs)))
        (λ f. not-empty path (no_path file (is_empty path) (is_empty host) found f))
        (λ f. not-empty host (no_host file (is_empty path) (is_empty host) found f)))

-- Every record that passes, whatever the file held, can be dialled and is within its bounds: the id
-- and the name are not empty, the kind is registered, a file engine has a path and no server fields,
-- a server engine has a host and no path, the port is blank or the print of 1 to 65535, the TLS mode
-- is a known one, and the time and row limits are in range.
pub sanitize-IsSound :
    (raw : Json) (kinds : List Text) {c : Connection}
    → sanitize_connection raw kinds ≡ some c
    → IsSound kinds c
unfolding sanitize_connection
sanitize-IsSound (object fs) kinds h = sanitize_fields-IsSound fs kinds h
sanitize-IsSound null kinds h = cc
sanitize-IsSound (bool b) kinds h = cc
sanitize-IsSound (number n) kinds h = cc
sanitize-IsSound (text s) kinds h = cc
sanitize-IsSound (array js) kinds h = cc
