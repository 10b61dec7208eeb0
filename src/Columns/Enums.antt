-- ===== src/Columns/Enums.antt =====
-- The options of an enum column, as `classifyColumnType` of src/columns.js reads them.
use tedi_sql_explorer.Base.{List, Text, codes, map, join}
use tedi_sql_explorer.Sql.{quoted}

spelled : List Text → Text
spelled os = join (codes ",") (map quoted os)
