-- ===== src/TableGrid/Edits.antt =====
-- src/gridedit/cellEdit.js and the deletion of src/gridedit/rowOps.js: what an edit of a cell and the
-- deletion of a row ask, send and show. The confirmation and the helper's answer are parameters.
pub mod Requests
use tedi_sql_explorer.Base.{
  ℕ, zero, suc, ◌==◌, Bool, true, false, not, ◌&&◌, ◌||◌, Option, none, some, List, [], ◌∷◌, Text,
  codes, text_eq, get_elem?, if◌then◌else◌, or_else, length,
}
use tedi_sql_explorer.Connection.{Connection}
use tedi_sql_explorer.Cell.{Cell, absent, null, bool, num, str, bytes, unsupported, json}
use tedi_sql_explorer.Session.{Target}
use tedi_sql_explorer.Sql.{Values, build_update_sql, build_delete_sql}
use tedi_sql_explorer.TableGrid.{Snapshot}

-- `isBytesCell(value)`.
unfoldable pub is_bytes_cell : Cell → Bool
is_bytes_cell (bytes size text) = true
is_bytes_cell (unsupported pg_type text) = true
is_bytes_cell absent = false
is_bytes_cell null = false
is_bytes_cell (bool b) = false
is_bytes_cell (num n) = false
is_bytes_cell (str s) = false
is_bytes_cell (json s) = false

-- `isBoolish(v)`, with the truth that the value stands for.
unfoldable pub boolish : Cell → Option Bool
unfolding text_eq
boolish (bool b) = some b
boolish (num n) =
    if text_eq n (codes "0") then some false else if text_eq n (codes "1") then some true else none
boolish (str s) =
    if text_eq s (codes "0") then some false else if text_eq s (codes "1") then some true else none
boolish absent = none
boolish null = none
boolish (bytes size text) = none
boolish (unsupported pg_type text) = none
boolish (json s) = none

abbrev pub same_truth : Bool → Bool → Bool
same_truth true b = b
same_truth false b = not b

-- Two values of which at least one is not boolish: equal values of the same type.
unfoldable pub plain_equal : Cell → Cell → Bool
unfolding text_eq
plain_equal (bool a) (bool b) = same_truth a b
plain_equal (num a) (num b) = text_eq a b
plain_equal (str a) (str b) = text_eq a b
plain_equal (bytes m a) (bytes n b) = text_eq a b
plain_equal (unsupported m a) (unsupported n b) = text_eq a b
plain_equal (json a) (json b) = text_eq a b
plain_equal null null = true
plain_equal absent absent = true
plain_equal _ _ = false

abbrev pub both_boolish : Option Bool → Option Bool → Bool → Bool
both_boolish (some a) (some b) otherwise = same_truth a b
both_boolish (some a) none otherwise = otherwise
both_boolish none b otherwise = otherwise

-- `deepEqual(a, b)`.
unfoldable pub deep_equal : Cell → Cell → Bool
unfolding boolish plain_equal
deep_equal a b = both_boolish (boolish a) (boolish b) (plain_equal a b)

-- `snap.columns.indexOf(pk)`.
unfoldable pub index_of : Text → List Text → Option ℕ
unfolding text_eq
index_of name [] = none
index_of name (c ∷ cs) =
    let rest = index_of name cs in
    if text_eq c name then some 0 else elim rest [ none ↦ none | some i ↦ some (suc i) ]

abbrev pub cell_of : List Cell → Option ℕ → Option Cell
cell_of row none = none
cell_of row (some i) = some (or_else (get_elem? row i) absent)

abbrev pub with_key : Text → Option Cell → Option Values → Option Values
with_key pk (some v) (some rest) = some ((pk, v) ∷ rest)
with_key pk (some v) none = none
with_key pk none rest = none

-- The primary key of a row, by column; `none` when a key column is not in the grid.
unfoldable pub pk_map : List Text → List Text → List Cell → Option Values
unfolding index_of
pk_map columns [] row = some []
pk_map columns (pk ∷ pks) row =
    with_key pk (cell_of row (index_of pk columns)) (pk_map columns pks row)

-- What the helper answers: the number of rows, or a failure.
pub data Answer : Type 0 where
  affected : ℕ → Answer
  unknown failed : Answer

-- What an edit does, in order.
pub data Act : Type 0 where
  warned reverted : Act
  asked : Text → Act
  sent_update : Values → Text → Cell → Act
  sent_delete : Values → Act
  written : Cell → Act
  reported_missing reported_error reported_done reloaded : Act

abbrev pub after_update : Cell → Answer → List Act
after_update next failed = reverted ∷ reported_error ∷ []
after_update next unknown = written next ∷ []
after_update next (affected zero) = reverted ∷ reported_missing ∷ []
after_update next (affected (suc n)) = written next ∷ []

module _ (conns : List Connection) (conn_id : Text) (table : Target) (ok : Bool)
    (answer : Answer) where
  unfoldable pub confirmed_update : Text → Cell → Option Values → List Act
  unfolding build_update_sql
  confirmed_update col next none = warned ∷ reverted ∷ []
  confirmed_update col next (some pk) =
      asked (build_update_sql conns conn_id table pk ((col, next) ∷ []))
      ∷ (if ok then sent_update pk col next ∷ after_update next answer else reverted ∷ [])

  -- The `commit` of `editCell`: `baseline` is the value that the widget started from.
  unfoldable pub commit : Cell → Text → Cell → Option Values → List Act
  unfolding deep_equal confirmed_update
  commit baseline col next pk =
      if deep_equal next baseline then reverted ∷ [] else confirmed_update col next pk

  -- `beginCellEdit` with the value that the user enters.
  unfoldable pub edit_cell : List Text → List Text → List Cell → Cell → Text → Cell → List Act
  unfolding commit pk_map is_bytes_cell
  edit_cell pks columns row original col next =
      let done = commit original col next (pk_map columns pks row) in
      elim pks [
        | [] ↦ warned ∷ []
        | pk ∷ rest ↦ if is_bytes_cell original then warned ∷ [] else done
      ]

  abbrev pub after_delete : Answer → List Act
  after_delete failed = reported_error ∷ []
  after_delete unknown = reloaded ∷ reported_done ∷ []
  after_delete (affected zero) = reloaded ∷ reported_missing ∷ []
  after_delete (affected (suc n)) = reloaded ∷ reported_done ∷ []

  unfoldable pub confirmed_delete : Option Values → List Act
  unfolding build_delete_sql
  confirmed_delete none = warned ∷ []
  confirmed_delete (some pk) =
      asked (build_delete_sql conns conn_id table pk)
      ∷ (if ok then sent_delete pk ∷ after_delete answer else [])

  -- `deleteRowFromGrid(session, rowIdx)`.
  unfoldable pub delete_row : List Text → List Text → List Cell → List Act
  unfolding confirmed_delete pk_map
  delete_row pks columns row =
      let done = confirmed_delete (pk_map columns pks row) in
      elim pks [ [] ↦ warned ∷ [] | pk ∷ rest ↦ done ]
