-- ===== src/Columns/Tests.antt =====
-- Runs of src/columns.js and of the widgets at concrete columns.
use tedi_sql_explorer.Base.{◌≡◌, refl, true, false, none, some, [], codes}
use tedi_sql_explorer.Cell.{null, str}
use tedi_sql_explorer.Columns.{text, boolean, integer, class_of}
use tedi_sql_explorer.Columns.Values.{iso_datetime}
use tedi_sql_explorer.Columns.Widgets.{Engine, resolve_value, editor_text}

class_run : class_of (codes "tinyint") (codes "tinyint(1) unsigned") ≡ boolean
unfolding class_of
class_run = refl

plain_run : class_of (codes "bigint") (codes "bigint unsigned") ≡ integer
unfolding class_of
plain_run = refl

iso_run : iso_datetime (codes "2024-01-02 03:04:05+00:00") ≡ codes "2024-01-02T03:04:05"
unfolding iso_datetime
iso_run = refl

abbrev engine : Engine
engine = record {
  number = λ t. some t;
  is_safe = λ t. true;
  trunc = λ t. t;
  parse = λ t. none;
  pretty = λ t. t;
  object_string = λ t. codes "[object Object]";
}

-- An empty text is committed as NULL, which is not the value of the cell.
empty_text_run : resolve_value engine text false (editor_text engine text true (str [])) ≡ null
unfolding resolve_value editor_text
empty_text_run = refl
