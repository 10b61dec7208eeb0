-- ===== src/Columns/Untouched.antt =====
-- A cell whose widget is left as it was opened is not changed (src/gridedit/typedEditor.js and
-- src/gridedit/cellEdit.js), and the insert dialog reads a widget as the cell editor does.
use tedi_sql_explorer.Base.{
  Bool, true, false, ◌≡◌, refl, some, List, Text, codes, text_eq, is_empty, trim, if◌then◌else◌,
}
use tedi_sql_explorer.Cell.{Cell, null, num, str, bytes, json}
use tedi_sql_explorer.Columns.{Class, text, boolean, date, time, datetime, integer, number, enum}
use tedi_sql_explorer.Columns.Values.{iso_date, iso_time, iso_datetime}
use tedi_sql_explorer.Connection.{Connection}
use tedi_sql_explorer.Sql.{Values}
use tedi_sql_explorer.TableGrid.Edits.{boolish}
use tedi_sql_explorer.Columns.Widgets.{
  Engine, null_choice, default_choice, resolve_sel, resolve_value, insert_value, iso_text,
  truth_cell,
}

pick : (b : Bool) (c : Cell) → (if b then some null else some c) ≡ some (if b then null else c)
pick true c = refl
pick false c = refl

module _ (e : Engine) where
  -- What the widget of a column of the class can show without changing it.
  pub data Shown : Class → Bool → Cell → Type 0 where
    truth : (nullable b : Bool) (c : Cell) → boolish c ≡ some b → Shown boolean nullable c
    blank_truth : Shown boolean true null
    choice :
        (os : List Text) (nullable : Bool) (s : Text)
        → text_eq s null_choice ≡ false
        → Shown (enum os) nullable (str s)
    blank_choice : (os : List Text) → Shown (enum os) true null
    day :
        (nullable : Bool) (c : Cell)
        → trim (iso_text e iso_date c) ≡ iso_text e iso_date c
        → Shown date nullable c
    clock :
        (nullable : Bool) (c : Cell)
        → trim (iso_text e iso_time c) ≡ iso_text e iso_time c
        → Shown time nullable c
    moment :
        (nullable : Bool) (c : Cell)
        → trim (iso_text e iso_datetime c) ≡ iso_text e iso_datetime c
        → Shown datetime nullable c
    whole :
        (nullable : Bool) (n : Text)
        → is_empty n ≡ false
        → e.number n ≡ some n
        → e.trunc n ≡ n
        → Shown integer nullable (num n)
    decimal :
        (nullable : Bool) (n : Text)
        → is_empty n ≡ false
        → e.number n ≡ some n
        → Shown number nullable (num n)
    document :
        (nullable : Bool) (s : Text)
        → is_empty (e.pretty s) ≡ false
        → e.parse (e.pretty s) ≡ some (json s)
        → Shown Class.json nullable (json s)
    written : (nullable : Bool) (s : Text) → is_empty s ≡ false → Shown text nullable (str s)
    blank_whole : (nullable : Bool) → Shown integer nullable null
    blank_decimal : (nullable : Bool) → Shown number nullable null
    blank_document : (nullable : Bool) → Shown Class.json nullable null
    blank_written : (nullable : Bool) → Shown text nullable null

  -- `boolean` and `enum` are picked from a list; a document is typed as text in the insert dialog, and
  -- parsed in the cell editor.
  pub data Typed : Class → Type 0 where
    by_list : (os : List Text) → Typed (enum os)
    by_truth : Typed boolean
    by_date : Typed date
    by_time : Typed time
    by_datetime : Typed datetime
    by_integer : Typed integer
    by_number : Typed number
    by_text : Typed text
    by_bytes : Typed Class.bytes

  -- The insert dialog and the cell editor make the same cell of the same text, for every class of
  -- column but a document's, when the text is not left as the dialog shows it: it is not blank, and
  -- not the marker of the default.
  pub insert_value-resolve_value :
      (kind : Class) (tiny : Bool) (v : Text)
      → Typed kind
      → is_empty v ≡ false
      → is_empty (trim v) ≡ false
      → text_eq v default_choice ≡ false
      → insert_value e kind tiny v ≡ some (resolve_value e kind tiny v)
  unfolding insert_value resolve_value resolve_sel
  insert_value-resolve_value _ tiny v (by_list os) full trimmed h =
      rw h (pick (text_eq v null_choice) (str v))
  insert_value-resolve_value _ tiny v by_truth full trimmed h =
      rw h (pick (text_eq v null_choice) (truth_cell tiny (text_eq v (codes "true"))))
  insert_value-resolve_value _ tiny v by_date full trimmed h = rw trimmed refl
  insert_value-resolve_value _ tiny v by_time full trimmed h = rw trimmed refl
  insert_value-resolve_value _ tiny v by_datetime full trimmed h = rw trimmed refl
  insert_value-resolve_value _ tiny v by_integer full trimmed h = rw full refl
  insert_value-resolve_value _ tiny v by_number full trimmed h = rw full refl
  insert_value-resolve_value _ tiny v by_text full trimmed h = rw full refl
  insert_value-resolve_value _ tiny v by_bytes full trimmed h = rw full refl
