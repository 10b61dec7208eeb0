-- ===== src/Backup/File.antt =====
-- `parseBackupFile`, `sanitizeSecrets` and `applyBackup` of src/connections/backup.js. The keychain
-- and the host's seal are not part of the repository: they are the parameters of a section.
pub mod Laws
pub mod Parsing
use tedi_sql_explorer.Base.{
  ℕ, zero, suc, ◌+◌, Bool, true, false, ◌&&◌, ◌||◌, not, ltb, ◌==◌, Option, none, some, List, [],
  ◌∷◌, ◌++◌, Text, codes, text_eq, is_empty, any, map, if◌then◌else◌, is_some,
}
use tedi_sql_explorer.Connection.{Connection}
use tedi_sql_explorer.Json.{
  Json, Items, Fields, Number, null, bool, number, text, array, object, nil, cons, end, field,
  get_field, items,
}
use tedi_sql_explorer.Dialects.{Dialect, dialects}
use tedi_sql_explorer.Backup.{sanitize_connection, member}

pub data Failure : Type 0 where
  no_passphrase invalid_json not_backup other_kind newer_version no_secrets nothing_usable : Failure
  cannot_open unreadable_secrets : Failure

pub data Reading (A : Type 0) : Type 0 where
  rejected : Failure → Reading A
  accepted : A → Reading A

-- What comes after a check that may have thrown.
infixl 5 ◌>>=◌
abbrev pub ◌>>=◌ : {A B : Type 0} → Reading A → (A → Reading B) → Reading B
rejected why >>= next = rejected why
accepted value >>= next = next value

-- `if (!passed) throw why`, before the rest.
abbrev pub guarded : {A : Type 0} → Bool → Failure → Reading A → Reading A
guarded passed why rest = if passed then rest else rejected why

-- `new Set(listDialects().map((d) => d.id))`.
abbrev pub valid_kinds : List Text
valid_kinds = map (λ (d : Dialect). d.id) dialects

pub record Parsed : Type 0 where
  pub connections : List Connection
  pub secrets : Fields
  pub skipped : ℕ

abbrev keep_entry : Option Connection → List Connection × ℕ → List Connection × ℕ
keep_entry none (cs, skipped) = (cs, suc skipped)
keep_entry (some c) (cs, skipped) = (c ∷ cs, skipped)

-- The loop over the entries: those that pass, in their order, and the number of those that do not.
unfoldable pub clean_entries : List Json → List Connection × ℕ
unfolding sanitize_connection
clean_entries [] = ([], 0)
clean_entries (entry ∷ rest) =
    keep_entry (sanitize_connection entry valid_kinds) (clean_entries rest)

-- `raw.kind === BACKUP_KIND`.
is_backup_kind : Json → Bool
unfolding text_eq
is_backup_kind (text s) = text_eq s (codes "tedi-sql-connections")
is_backup_kind null = false
is_backup_kind (bool b) = false
is_backup_kind (number n) = false
is_backup_kind (array js) = false
is_backup_kind (object fs) = false

-- `typeof raw.version === "number" && !(raw.version > BACKUP_VERSION)`.
unfoldable pub is_known_version : Json → Bool
is_known_version (number n) =
    n.negative || (n.finite && (ltb n.whole 1 || (n.whole == 1 && not n.fraction)))
is_known_version null = false
is_known_version (bool b) = false
is_known_version (text s) = false
is_known_version (array js) = false
is_known_version (object fs) = false

as_record : Json → Failure → Reading Fields
as_record (object fs) e = accepted fs
as_record null e = rejected e
as_record (bool b) e = rejected e
as_record (number n) e = rejected e
as_record (text s) e = rejected e
as_record (array js) e = rejected e

unfoldable pub as_list : Json → List Json
unfolding items
as_list (array js) = items js
as_list null = []
as_list (bool b) = []
as_list (number n) = []
as_list (text s) = []
as_list (object fs) = []

some_usable : Fields → List Connection × ℕ → Reading Parsed
some_usable secrets ([], skipped) = rejected nothing_usable
some_usable secrets (c ∷ cs, skipped) =
    accepted (record { connections = c ∷ cs; secrets = secrets; skipped = skipped })

-- `parseBackupFile(raw)`.
unfoldable pub parse_backup_file : Json → Reading Parsed
unfolding as_record is_backup_kind is_known_version as_list clean_entries some_usable
parse_backup_file raw = do
  fs ← as_record raw not_backup
  guarded (is_backup_kind (get_field (codes "kind") fs)) other_kind (
      guarded (is_known_version (get_field (codes "version") fs)) newer_version (do
        secrets ← as_record (get_field (codes "secrets") fs) no_secrets
        some_usable secrets (clean_entries (as_list (get_field (codes "connections") fs)))))

-- `sanitizeSecrets(raw)`: only passwords that are a text and not empty survive.
keep_password : Text → Json → List (Text × Text) → List (Text × Text)
keep_password id (text []) out = out
keep_password id (text (c ∷ s)) out = (id, c ∷ s) ∷ out
keep_password id null out = out
keep_password id (bool b) out = out
keep_password id (number n) out = out
keep_password id (array js) out = out
keep_password id (object fs) out = out

keep_secret : Text → Json → List (Text × Text) → List (Text × Text)
unfolding keep_password
keep_secret id (object fs) out = keep_password id (get_field (codes "password") fs) out
keep_secret id null out = out
keep_secret id (bool b) out = out
keep_secret id (number n) out = out
keep_secret id (text s) out = out
keep_secret id (array js) out = out

secrets_of : Fields → List (Text × Text)
unfolding keep_secret
secrets_of end = []
secrets_of (field id v fs) = keep_secret id v (secrets_of fs)

unfoldable pub sanitize_secrets : Json → List (Text × Text)
unfolding secrets_of
sanitize_secrets (object fs) = secrets_of fs
sanitize_secrets null = []
sanitize_secrets (bool b) = []
sanitize_secrets (number n) = []
sanitize_secrets (text s) = []
sanitize_secrets (array js) = []

unfoldable pub find_secret : Text → List (Text × Text) → Option Text
unfolding text_eq
find_secret id [] = none
find_secret id ((j, p) ∷ rest) = if text_eq id j then some p else find_secret id rest

unfoldable pub has_id : Text → List Connection → Bool
unfolding text_eq
has_id id [] = false
has_id id (c ∷ cs) = text_eq c.id id || has_id id cs

-- `connections.map((c) => (c.id === conn.id ? conn : c))`.
unfoldable pub replace_connection : Connection → List Connection → List Connection
unfolding text_eq
replace_connection conn [] = []
replace_connection conn (c ∷ cs) =
    (if text_eq c.id conn.id then conn else c) ∷ replace_connection conn cs

-- The keychain of the host: what is stored, how it is read, and what `setSecret` and `deleteSecret`
-- do to it, failures included.
pub record Keychain : Type 1 where
  pub Vault : Type 0
  pub read : Vault → Text → Option Text
  pub write : Vault → Text → Text → Vault
  pub wipe : Vault → Text → Vault

pub record Counts : Type 0 where
  pub added : ℕ
  pub replaced : ℕ
  pub without_secrets : ℕ
  pub tunnels_dropped : ℕ

pub record Import (K : Keychain) : Type 0 where
  pub connections : List Connection
  pub vault : K.Vault
  pub counts : Counts

-- A tunnel to an SSH host that this machine does not know is dropped.
unfoldable pub drop_tunnel : List Text → Connection → Connection × Bool
unfolding member
drop_tunnel known_ssh conn =
    if not (is_empty conn.ssh_tunnel) && not (member conn.ssh_tunnel known_ssh)
    then (record conn { ssh_tunnel = [] }, true)
    else (conn, false)

abbrev bump : Bool → ℕ → ℕ
bump true n = suc n
bump false n = n

module _ (K : Keychain) where
  -- What becomes of the stored password of one imported connection.
  unfoldable pub import_secret : Option Text → Bool → Bool → Text → K.Vault → K.Vault
  import_secret (some password) file existed id v = K.write v id password
  import_secret none true existed id v = v
  import_secret none false true id v = K.wipe v id
  import_secret none false false id v = v

  -- One round of the loop of `applyBackup`. `existing` are the connections before the import.
  unfoldable pub import_one :
      List Text → List (Text × Text) → List Connection → Import K → Connection → Import K
  unfolding drop_tunnel find_secret has_id replace_connection import_secret
  import_one known_ssh secrets existing st raw =
      let (conn, dropped) = drop_tunnel known_ssh raw in
      let password = find_secret conn.id secrets in
      let file = text_eq conn.kind (codes "sqlite") in
      let existed = has_id conn.id existing in
      record {
        connections =
            if existed
            then replace_connection conn st.connections
            else st.connections ++ (conn ∷ []);
        vault = import_secret password file existed conn.id st.vault;
        counts = record {
          added = bump (not existed) st.counts.added;
          replaced = bump existed st.counts.replaced;
          without_secrets = bump (not file && not (is_some password)) st.counts.without_secrets;
          tunnels_dropped = bump dropped st.counts.tunnels_dropped;
        };
      }

  unfoldable pub import_all :
      List Text → List (Text × Text) → List Connection → Import K → List Connection → Import K
  unfolding import_one
  import_all known_ssh secrets existing st [] = st
  import_all known_ssh secrets existing st (conn ∷ rest) =
      import_all known_ssh secrets existing (import_one known_ssh secrets existing st conn) rest

  as_result : Option Json → Failure → Reading Json
  as_result none e = rejected e
  as_result (some j) e = accepted j

  as_opened : Option Text → Reading Text
  as_opened none = rejected cannot_open
  as_opened (some t) = accepted t

  -- `applyBackup(text, passphrase)`. The parameters are `JSON.parse`, the host's `backup_open` and the
  -- ids of the SSH hosts that it lists. An error leaves the state of the caller as it was.
  unfoldable pub apply_backup :
      (Text → Option Json)
      → (Fields → Text → Option Text)
      → List Text
      → List Connection
      → K.Vault
      → Text
      → Text
      → Reading (Import K × ℕ)
  unfolding as_result as_opened parse_backup_file sanitize_secrets import_all
  apply_backup json_parse backup_open known_ssh connections vault file passphrase =
      guarded (not (is_empty passphrase)) no_passphrase (do
        raw ← as_result (json_parse file) invalid_json
        parsed ← parse_backup_file raw
        plain ← as_opened (backup_open parsed.secrets passphrase)
        secrets ← as_result (json_parse plain) unreadable_secrets
        accepted (
          import_all known_ssh (sanitize_secrets secrets) connections
              (record {
                connections = connections;
                vault = vault;
                counts = record {
                  added = 0;
                  replaced = 0;
                  without_secrets = 0;
                  tunnels_dropped = 0;
                };
              })
              parsed.connections,
          parsed.skipped,
        ))
