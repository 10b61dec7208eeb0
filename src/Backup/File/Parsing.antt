-- ===== src/Backup/File/Parsing.antt =====
-- What an accepted backup file yields (src/connections/backup.js).
use tedi_sql_explorer.Base.{
  ℕ, suc, ◌+◌, ◌≡◌, ◌≢◌, refl, sym, ◌∙◌, Bool, true, false, Option, none, some, List, [], ◌∷◌,
  arith, codes, All, length,
}
use mathlib.Core.Path.{subst, ap₂}
use tedi_sql_explorer.Connection.{Connection}
use tedi_sql_explorer.Json.{Json, Fields, null, bool, number, text, array, object, get_field}
use tedi_sql_explorer.Backup.{sanitize_connection}
use tedi_sql_explorer.Backup.Sound.{IsSound, sanitize-IsSound}
use tedi_sql_explorer.Backup.File.{
  valid_kinds, keep_entry, clean_entries, Reading, accepted, rejected, Failure, other_kind,
  newer_version, no_secrets, guarded, ◌>>=◌, Parsed, some_usable, parse_backup_file, as_record,
  as_list, is_backup_kind, is_known_version,
}

clean_entries_lem :
    (js : List Json)
    → All (IsSound valid_kinds) (clean_entries js).0
      × (length (clean_entries js).0 + (clean_entries js).1 ≡ length js)
unfolding clean_entries
clean_entries_lem [] = (tt, omega arith)
clean_entries_lem (j ∷ js) = step (sanitize_connection j valid_kinds) refl (clean_entries_lem js)
  where
    step :
        (o : Option Connection)
        → sanitize_connection j valid_kinds ≡ o
        → All (IsSound valid_kinds) (clean_entries js).0
          × (length (clean_entries js).0 + (clean_entries js).1 ≡ length js)
        → All (IsSound valid_kinds) (keep_entry o (clean_entries js)).0
          × (length (keep_entry o (clean_entries js)).0 + (keep_entry o (clean_entries js)).1
              ≡ suc (length js))
    step none e (sound, count) = (sound, omega arith)
    step (some c) e (sound, count) = ((sanitize-IsSound j valid_kinds e, sound), omega arith)

>>=-accepted :
    {A B : Type 0} (m : Reading A) (f : A → Reading B) {b : B}
    → (m >>= f) ≡ accepted b
    → (a : A) × (m ≡ accepted a) × (f a ≡ accepted b)
>>=-accepted (accepted a) f h = (a, refl, h)
>>=-accepted (rejected e) f h = cc

guarded-accepted :
    {A : Type 0} (b : Bool) (e : Failure) (r : Reading A) {a : A}
    → guarded b e r ≡ accepted a
    → (b ≡ true) × (r ≡ accepted a)
guarded-accepted true e r h = (refl, h)
guarded-accepted false e r h = cc

some_usable_lem :
    (secrets : Fields) (r : List Connection × ℕ) {p : Parsed}
    → some_usable secrets r ≡ accepted p
    → (p.connections ≡ r.0) × (p.skipped ≡ r.1) × (p.secrets ≡ secrets) × (r.0 ≢ [])
unfolding some_usable
some_usable_lem secrets ([], n) h = cc
some_usable_lem secrets (c ∷ cs, n) {p} h = (ground arith, ground arith, ground arith, λ e. cc)

-- The entries of the file's list of connections.
abbrev pub entries_of : Json → List Json
entries_of (object fs) = as_list (get_field (codes "connections") fs)
entries_of null = []
entries_of (bool b) = []
entries_of (number n) = []
entries_of (text s) = []
entries_of (array js) = []

parse_fields :
    (fs : Fields) {p : Parsed}
    → parse_backup_file (object fs) ≡ accepted p
    → (secrets : Fields) × (some_usable secrets
          (clean_entries (as_list (get_field (codes "connections") fs)))
        ≡ accepted p)
unfolding parse_backup_file as_record
parse_fields fs h =
    let kind = is_backup_kind (get_field (codes "kind") fs) in
    let version = is_known_version (get_field (codes "version") fs) in
    let (_, h1) = guarded-accepted kind other_kind _ h in
    let (_, h2) = guarded-accepted version newer_version _ h1 in
    let (secrets, _, h3) =
      >>=-accepted (as_record (get_field (codes "secrets") fs) no_secrets) _ h2 in
    (secrets, h3)

-- A file that is accepted yields at least one connection, every one of them passed the checks, and
-- each entry of the file's list was either kept or counted as skipped.
pub parse_backup-IsSound :
    (raw : Json) {p : Parsed}
    → parse_backup_file raw ≡ accepted p
    → (p.connections ≢ [])
      × All (IsSound valid_kinds) p.connections
      × (length p.connections + p.skipped ≡ length (entries_of raw))
parse_backup-IsSound (object fs) {p} h =
    let (secrets, e) = parse_fields fs h in
    let (ec, es, _, ne) = some_usable_lem secrets _ e in
    let (sound, count) = clean_entries_lem (as_list (get_field (codes "connections") fs)) in
    (
      λ empty. ne (sym ec ∙ empty),
      subst (All (IsSound valid_kinds)) (sym ec) sound,
      ap₂ (λ (cs : List Connection) (n : ℕ). length cs + n) ec es ∙ count,
    )
parse_backup-IsSound null h = unfold parse_backup_file as_record in cc
parse_backup-IsSound (bool b) h = unfold parse_backup_file as_record in cc
parse_backup-IsSound (number n) h = unfold parse_backup_file as_record in cc
parse_backup-IsSound (text s) h = unfold parse_backup_file as_record in cc
parse_backup-IsSound (array js) h = unfold parse_backup_file as_record in cc
