-- ===== src/Columns.antt =====
-- src/columns.js: type labels and the class of a column's type.
-- `toLowerCase` is a parameter.
pub mod Enums
pub mod Values
pub mod Widgets
pub mod Untouched
mod Tests
use tedi_sql_explorer.Base.{
  ℕ, zero, suc, ◌+◌, ◌-◌, Bool, true, false, not, ◌&&◌, ◌||◌, Option, none, some, List, [], ◌∷◌,
  ◌++◌, Text, codes, text_eq, is_empty, includes, starts_with, strip_prefix, join, take, drop,
  length, any, all, if◌then◌else◌, is_digit, boundary, test, ◌==◌,
}
use tedi_sql_explorer.Cell.{Cell, absent, null, str}
use tedi_sql_explorer.Sql.Scan.{string_literal}
use tedi_sql_explorer.TableGrid.{Column}

abbrev pub or_text : Text → Text → Text
or_text [] t = t
or_text (c ∷ s) t = c ∷ s

-- The widget family of a column; an enum carries its options.
pub data Class : Type 0 where
  text boolean date time datetime integer number json bytes : Class
  enum : List Text → Class

-- `/\btinyint\(1\)/`.
unfoldable pub tiny_at : Option ℕ → Text → Bool
unfolding boundary starts_with
tiny_at prev s = boundary prev s && starts_with s (codes "tinyint(1)")

-- `.` of a regular expression matches no line terminator.
unfoldable pub on_line : ℕ → Bool
on_line c = not (c == 10 || c == 13 || c == 0x2028 || c == 0x2029)

unfoldable pub one_line : Text → Bool
unfolding on_line
one_line s = all on_line s

-- A text that ends with `)`, without it.
unfoldable pub before_bracket : Text → Option Text
before_bracket [] = none
before_bracket (c ∷ []) = if c == b')' then some [] else none
before_bracket (c ∷ d ∷ s) = elim (before_bracket (d ∷ s)) [ none ↦ none | some t ↦ some (c ∷ t) ]

abbrev pub inner : Option Text → Option Text
unfolding before_bracket one_line
inner none = none
inner (some s) = elim (before_bracket s) [
  | none ↦ none
  | some t ↦ if is_empty t || not (one_line t) then none else some t
]

-- The group of `/^enum\((.+)\)$/`.
unfoldable pub enum_spec : Text → Option Text
unfolding strip_prefix inner
enum_spec ft = inner (strip_prefix (codes "enum(") ft)

-- `s.replace(/''/g, "'")`.
unfoldable pub unpair : Text → Text
unpair [] = []
unpair (c ∷ []) = c ∷ []
unpair (c ∷ d ∷ s) =
    let paired = unpair s in
    let single = unpair (d ∷ s) in if c == b'\'' && d == b'\'' then c ∷ paired else c ∷ single

-- The loop over `/'((?:[^']|'')*)'/g`; the first argument counts the code units of a match that are
-- still to be passed over.
unfoldable pub options_from : ℕ → Text → List Text
unfolding string_literal unpair
options_from skip [] = []
options_from (suc skip) (c ∷ s) = options_from skip s
options_from zero (c ∷ s) = elim (string_literal (c ∷ s)) [
  | none ↦ options_from zero s
  | some n ↦ unpair (take (n - 2) s) ∷ options_from (n - 1) s
]

abbrev pub enum_class : List Text → Option Class
enum_class [] = none
enum_class (o ∷ os) = some (enum (o ∷ os))

abbrev pub spec_class : Option Text → Option Class
unfolding options_from
spec_class none = none
spec_class (some spec) = enum_class (options_from zero spec)

unfoldable pub is_one_of : Text → List Text → Bool
unfolding text_eq
is_one_of s ts = any (text_eq s) ts

abbrev pub integer_types : List Text
integer_types =
    codes "smallint"
    ∷ codes "mediumint"
    ∷ codes "int"
    ∷ codes "integer"
    ∷ codes "bigint"
    ∷ codes "tinyint"
    ∷ codes "int2"
    ∷ codes "int4"
    ∷ codes "int8"
    ∷ codes "serial"
    ∷ codes "smallserial"
    ∷ codes "bigserial"
    ∷ codes "year"
    ∷ []

abbrev pub number_types : List Text
number_types =
    codes "float"
    ∷ codes "double"
    ∷ codes "real"
    ∷ codes "float4"
    ∷ codes "float8"
    ∷ codes "decimal"
    ∷ codes "numeric"
    ∷ codes "money"
    ∷ []

-- What is decided by the name of the type alone.
unfoldable pub plain_class : Text → Class
unfolding is_one_of starts_with includes
plain_class dt =
    if is_one_of dt (codes "date" ∷ [])
    then date
    else if is_one_of dt (codes "time" ∷ codes "timetz" ∷ [])
        || starts_with dt (codes "time without")
    then time
    else if is_one_of dt (codes "datetime" ∷ codes "timestamp" ∷ codes "timestamptz" ∷ [])
        || starts_with dt (codes "timestamp ")
    then datetime
    else if is_one_of dt integer_types
    then integer
    else if is_one_of dt number_types
    then number
    else if includes dt (codes "json")
    then json
    else if includes dt (codes "binary")
        || includes dt (codes "blob")
        || includes dt (codes "bytea")
    then bytes
    else text

abbrev pub or_plain : Option Class → Text → Class
unfolding plain_class
or_plain none dt = plain_class dt
or_plain (some c) dt = c

-- `classifyColumnType(colInfo)`, from the two names in lower case.
unfoldable pub class_of : Text → Text → Class
unfolding is_one_of tiny_at test enum_spec spec_class or_plain
class_of dt ft =
    if is_empty dt && is_empty ft
    then text
    else if is_one_of dt (codes "bool" ∷ codes "boolean" ∷ [])
    then boolean
    else if is_one_of dt (codes "tinyint" ∷ []) && test tiny_at ft
    then boolean
    else or_plain (if is_one_of dt (codes "enum" ∷ []) then spec_class (enum_spec ft) else none) dt

module _ (lower : Text → Text) where
  -- `shortTypeLabel(meta)`.
  unfoldable pub short_type_label : Column → Text
  short_type_label c = lower (or_text c.full_type c.data_type)

  -- `columnHeaderTooltip(col, meta)`.
  abbrev pub bit : Bool → Text → List Text → List Text
  bit true t rest = t ∷ rest
  bit false t rest = rest

  unfoldable pub column_header_tooltip : Text → Option Column → Text
  unfolding join
  column_header_tooltip col none = col ++ codes ": click to sort"
  column_header_tooltip col (some c) =
      let kind = or_text c.full_type c.data_type in
      let bits = bit (not (is_empty kind)) kind (
        bit c.is_primary (codes "PRIMARY KEY") (
          (if c.nullable then codes "nullable" else codes "NOT NULL")
          ∷ bit c.is_auto_increment (codes "auto-increment")
              (bit (not (is_empty c.default_value)) (codes "default " ++ c.default_value) []))) in
      col ++ (32 ∷ 183 ∷ 32 ∷ join (32 ∷ 183 ∷ 32 ∷ []) bits)

  unfoldable pub classify : Option Column → Class
  unfolding class_of
  classify none = text
  classify (some c) = class_of (lower c.data_type) (lower c.full_type)
