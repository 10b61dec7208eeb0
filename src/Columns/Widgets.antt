-- ===== src/Columns/Widgets.antt =====
-- src/gridedit/typedEditor.js and `makeInsertField` of src/gridedit/rowOps.js: the text that the widget
-- of a cell starts with, and the cell that its text stands for. `Number`, `JSON` and `String` of an
-- object are parameters.
use tedi_sql_explorer.Base.{
  Bool, true, false, Option, none, some, List, [], ◌∷◌, Text, codes, text_eq, is_empty, trim,
  if◌then◌else◌,
}
use tedi_sql_explorer.Cell.{Cell, absent, null, bool, num, str, bytes, unsupported, json}
use tedi_sql_explorer.Columns.{Class, text, boolean, date, time, datetime, integer, number, enum}
use tedi_sql_explorer.Columns.Values.{input_value_to_iso, iso_date, iso_time, iso_datetime}
use tedi_sql_explorer.TableGrid.Edits.{boolish}

abbrev pub null_choice : Text
null_choice = codes "__tsqlx_null__"

abbrev pub default_choice : Text
default_choice = codes "__tsqlx_default__"

-- What the widgets ask of the engine: `number t` is the text of `Number(t)`, or `none` for `NaN`.
pub record Engine : Type 0 where
  pub number : Text → Option Text
  pub is_safe : Text → Bool
  pub trunc : Text → Text
  pub parse : Text → Option Cell
  pub pretty : Text → Text
  pub object_string : Text → Text

abbrev pub is_null : Cell → Bool
is_null absent = true
is_null null = true
is_null (bool b) = false
is_null (num n) = false
is_null (str s) = false
is_null (bytes size t) = false
is_null (unsupported pg_type t) = false
is_null (json s) = false

-- The values that the dropdown of a boolean or enum cell offers.
abbrev pub null_option : Bool → List Text → List Text
null_option true vs = null_choice ∷ vs
null_option false vs = vs

abbrev pub choices : Class → List Text
choices (enum os) = os
choices _ = codes "true" ∷ codes "false" ∷ []

unfoldable pub options : Class → Bool → List Text
options kind nullable = null_option nullable (choices kind)

abbrev pub blank_choice : Bool → Text → Text
blank_choice true otherwise = null_choice
blank_choice false otherwise = otherwise

abbrev pub first_choice : List Text → Text
first_choice [] = codes "undefined"
first_choice (o ∷ os) = o

abbrev pub truth_choice : Option Bool → Bool → Text
truth_choice (some true) nullable = codes "true"
truth_choice (some false) nullable = codes "false"
truth_choice none nullable = blank_choice nullable (codes "false")

abbrev pub truth_name : Bool → Text
truth_name true = codes "true"
truth_name false = codes "false"

-- `isTiny ? 1 : true`, and `isTiny ? 0 : false`.
abbrev pub truth_cell : Bool → Bool → Cell
truth_cell true true = num (codes "1")
truth_cell true false = num (codes "0")
truth_cell false b = bool b

-- `resolveSel(v)`; the flag says that the column is a `tinyint`.
unfoldable pub resolve_sel : Class → Bool → Text → Cell
unfolding text_eq
resolve_sel (enum os) tiny v = if text_eq v null_choice then null else str v
resolve_sel _ tiny v =
    if text_eq v null_choice then null else truth_cell tiny (text_eq v (codes "true"))

module _ (e : Engine) where
  -- `String(v)` of a value that is not `null`.
  abbrev pub string_of : Cell → Text
  string_of absent = codes "undefined"
  string_of null = codes "null"
  string_of (bool b) = truth_name b
  string_of (num n) = n
  string_of (str s) = s
  string_of (bytes size t) = e.object_string t
  string_of (unsupported pg_type t) = e.object_string t
  string_of (json s) = e.object_string s

  -- `initial`: the option that the dropdown shows.
  unfoldable pub initial : Class → Bool → Cell → Text
  unfolding boolish
  initial (enum os) nullable original =
      if is_null original then blank_choice nullable (first_choice os) else string_of original
  initial _ nullable original = truth_choice (boolish original) nullable

  abbrev pub whole : Text → Cell
  whole n = if e.is_safe n then num (e.trunc n) else num n

  abbrev pub number_cell : Bool → Text → Option Text → Cell
  number_cell int typed none = str typed
  number_cell true typed (some n) = whole n
  number_cell false typed (some n) = num n

  abbrev pub json_cell : Text → Option Cell → Cell
  json_cell typed none = str typed
  json_cell typed (some c) = c

  -- `JSON.stringify(original)` of an object, and `String(original)` of anything else.
  abbrev pub plain_text : Cell → Text
  plain_text (bytes size t) = t
  plain_text (unsupported pg_type t) = t
  plain_text (json s) = s
  plain_text absent = []
  plain_text null = []
  plain_text (bool b) = truth_name b
  plain_text (num n) = n
  plain_text (str s) = s

  abbrev pub pretty_text : Cell → Text
  pretty_text (bytes size t) = e.pretty t
  pretty_text (unsupported pg_type t) = e.pretty t
  pretty_text (json s) = e.pretty s
  pretty_text absent = []
  pretty_text null = []
  pretty_text (bool b) = truth_name b
  pretty_text (num n) = n
  pretty_text (str s) = s

  abbrev pub input_text : Cell → Text
  input_text original = if is_null original then [] else string_of original

  abbrev pub iso_text : (Text → Text) → Cell → Text
  iso_text f original = if is_null original then [] else f (string_of original)

  -- The text that the widget holds before it is touched.
  unfoldable pub editor_text : Class → Bool → Cell → Text
  unfolding initial iso_date iso_time iso_datetime
  editor_text boolean nullable original = initial boolean nullable original
  editor_text (enum os) nullable original = initial (enum os) nullable original
  editor_text date nullable original = iso_text iso_date original
  editor_text time nullable original = iso_text iso_time original
  editor_text datetime nullable original = iso_text iso_datetime original
  editor_text integer nullable original = input_text original
  editor_text number nullable original = input_text original
  editor_text Class.json nullable original = pretty_text original
  editor_text Class.bytes nullable original = plain_text original
  editor_text text nullable original = plain_text original

  abbrev pub filled : Text → Cell → Cell
  filled typed c = if is_empty typed then null else c

  -- The cell that is committed for the text of the widget.
  unfoldable pub resolve_value : Class → Bool → Text → Cell
  unfolding resolve_sel input_value_to_iso trim
  resolve_value boolean tiny v = resolve_sel boolean tiny v
  resolve_value (enum os) tiny v = resolve_sel (enum os) tiny v
  resolve_value date tiny v = input_value_to_iso (trim v)
  resolve_value time tiny v = input_value_to_iso (trim v)
  resolve_value datetime tiny v = input_value_to_iso (trim v)
  resolve_value integer tiny v = filled v (number_cell true v (e.number v))
  resolve_value number tiny v = filled v (number_cell false v (e.number v))
  resolve_value Class.json tiny v = filled v (json_cell v (e.parse v))
  resolve_value Class.bytes tiny v = filled v (str v)
  resolve_value text tiny v = filled v (str v)

  -- `baseline` of src/gridedit/cellEdit.js: a date or time as its picker writes it.
  unfoldable pub baseline : Class → Cell → Cell
  unfolding iso_date iso_time iso_datetime input_value_to_iso
  baseline date original = input_value_to_iso (iso_text iso_date original)
  baseline time original = input_value_to_iso (iso_text iso_time original)
  baseline datetime original = input_value_to_iso (iso_text iso_datetime original)
  baseline boolean original = original
  baseline (enum os) original = original
  baseline integer original = original
  baseline number original = original
  baseline Class.json original = original
  baseline Class.bytes original = original
  baseline text original = original

  abbrev pub given : Text → Cell → Option Cell
  given typed c = if is_empty typed then none else some c

  abbrev pub picked : Text → Cell → Option Cell
  picked v c =
      if text_eq v default_choice then none else if text_eq v null_choice then some null else some c

  -- `makeInsertField(col)`: the cell that `resolve()` includes, or `none` where the field is left out.
  unfoldable pub insert_value : Class → Bool → Text → Option Cell
  unfolding text_eq input_value_to_iso trim
  insert_value boolean tiny v = picked v (truth_cell tiny (text_eq v (codes "true")))
  insert_value (enum os) tiny v = picked v (str v)
  insert_value date tiny v = given (trim v) (input_value_to_iso (trim v))
  insert_value time tiny v = given (trim v) (input_value_to_iso (trim v))
  insert_value datetime tiny v = given (trim v) (input_value_to_iso (trim v))
  insert_value integer tiny v = given v (number_cell true v (e.number v))
  insert_value number tiny v = given v (number_cell false v (e.number v))
  insert_value Class.json tiny v = given v (str v)
  insert_value Class.bytes tiny v = given v (str v)
  insert_value text tiny v = given v (str v)

  -- The values of the insert dialog's dropdown.
  unfoldable pub insert_options : Class → Bool → List Text
  unfolding options
  insert_options kind nullable = default_choice ∷ options kind nullable
