-- ===== src/Managed.antt =====
-- src/connections/managed.js: the rows that the Dev Environment publishes. The host's file access and
-- `JSON.parse` are outside the repository: the file is the value that was read, or `none`.
pub mod Merge
mod Tests
use tedi_sql_explorer.Base.{
  ℕ, Bool, true, false, ◌&&◌, not, ◌==◌, Option, none, some, List, [], ◌∷◌, ◌++◌, Text, codes,
  text_eq, filter, if◌then◌else◌, is_empty, starts_with, ◌||◌,
}
use tedi_sql_explorer.Connection.{Connection}
use tedi_sql_explorer.Json.{
  Json, Items, Fields, Number, null, bool, number, text, array, object, nil, cons, end, field,
  get_field,
}
use tedi_sql_explorer.Backup.{sanitize_connection}
use tedi_sql_explorer.Backup.File.{valid_kinds, as_list, is_known_version}

abbrev pub managed_prefix : Text
managed_prefix = codes "devenv:"

-- `home.replace(/[\/]+$/, "")`.
unfoldable pub drop_slashes : Text → Text
drop_slashes [] = []
drop_slashes (c ∷ s) = elim (drop_slashes s) [
  | [] ↦ if c == b'/' then [] else c ∷ []
  | d ∷ t ↦ c ∷ d ∷ t
]

-- `handoffFile(c)`; the empty text when the host cannot say where home is.
unfoldable pub handoff_file : Text → Bool → Text
unfolding drop_slashes
handoff_file home windows =
    let dir = drop_slashes home in
    let sep = if windows then codes "\\" else codes "/" in
    if is_empty dir
    then []
    else dir ++ (sep ++ (codes ".tedi" ++ (sep ++ codes "dev-environment.json")))

-- `raw?.kind === HANDOFF_KIND`.
unfoldable pub is_handoff_kind : Json → Bool
unfolding text_eq
is_handoff_kind (text s) = text_eq s (codes "tedi-dev-environment")
is_handoff_kind null = false
is_handoff_kind (bool b) = false
is_handoff_kind (number n) = false
is_handoff_kind (array js) = false
is_handoff_kind (object fs) = false

abbrev pub is_managed : Text → Bool
unfolding starts_with
is_managed id = starts_with id managed_prefix

abbrev keep_managed : Option Connection → List Connection → List Connection
unfolding is_managed
keep_managed none out = out
keep_managed (some c) out = if is_managed c.id then c ∷ out else out

-- The loop over the file's entries.
unfoldable pub offers : List Json → List Connection
unfolding sanitize_connection keep_managed
offers [] = []
offers (entry ∷ rest) = keep_managed (sanitize_connection entry valid_kinds) (offers rest)

unfoldable pub offered_fields : Fields → List Connection
unfolding is_handoff_kind is_known_version as_list offers
offered_fields fs =
    let out = offers (as_list (get_field (codes "connections") fs)) in
    if not (is_handoff_kind (get_field (codes "kind") fs))
    then []
    else if not (is_known_version (get_field (codes "version") fs))
    then []
    else out

-- `readOfferedConnections()`, from what the file holds.
unfoldable pub read_offered : Option Json → List Connection
unfolding offered_fields
read_offered none = []
read_offered (some (object fs)) = offered_fields fs
read_offered (some null) = []
read_offered (some (bool b)) = []
read_offered (some (number n)) = []
read_offered (some (text s)) = []
read_offered (some (array js)) = []

-- `byId.get(id)`: the last entry of an id is the one that a `Map` keeps.
unfoldable pub offer_of : Text → List Connection → Option Connection
unfolding text_eq
offer_of id [] = none
offer_of id (c ∷ cs) = elim (offer_of id cs) [
  | none ↦ if text_eq c.id id then some c else none
  | some d ↦ some d
]

-- Only the address is taken from an offer.
unfoldable pub readdress : Connection → Connection → Connection
readdress conn offer = record conn {
  kind = offer.kind;
  host = offer.host;
  port = offer.port;
  user = offer.user;
}

abbrev moved : Connection → Option Connection → List Connection → List Connection
unfolding readdress
moved conn none out = out
moved conn (some offer) out = readdress conn offer ∷ out

-- The first loop of `syncManagedConnections`.
unfoldable pub keep_rows : List Connection → List Connection → List Connection
unfolding is_managed moved offer_of
keep_rows offered [] = []
keep_rows offered (conn ∷ rest) =
    let out = keep_rows offered rest in
    if not (is_managed conn.id) then conn ∷ out else moved conn (offer_of conn.id offered) out

-- `seen.has(id)` for the id of an offer: a managed row of that id was there.
unfoldable pub is_seen : Text → List Connection → Bool
unfolding text_eq is_managed
is_seen id [] = false
is_seen id (c ∷ cs) = (is_managed c.id && text_eq c.id id) || is_seen id cs

-- The second loop.
unfoldable pub new_rows : List Connection → List Connection → List Connection
unfolding is_seen
new_rows saved [] = []
new_rows saved (offer ∷ rest) =
    let out = new_rows saved rest in if is_seen offer.id saved then out else offer ∷ out

-- The list that `syncManagedConnections()` saves.
unfoldable pub merge : List Connection → List Connection → List Connection
unfolding keep_rows new_rows
merge offered saved = keep_rows offered saved ++ new_rows saved offered
