-- ===== src/Dialects/Words.antt =====
-- src/dialects/sqlWords.js, and the engine-specific words of the descriptors beside it.
use tedi_sql_explorer.Base.{List, [], ◌∷◌, Text, codes}

-- `COMMON_KEYWORDS`.
abbrev pub common_keywords : List Text
common_keywords =
    codes "SELECT"
    ∷ codes "FROM"
    ∷ codes "WHERE"
    ∷ codes "INSERT"
    ∷ codes "INTO"
    ∷ codes "VALUES"
    ∷ codes "UPDATE"
    ∷ codes "SET"
    ∷ codes "DELETE"
    ∷ codes "JOIN"
    ∷ codes "INNER"
    ∷ codes "LEFT"
    ∷ codes "RIGHT"
    ∷ codes "OUTER"
    ∷ codes "FULL"
    ∷ codes "CROSS"
    ∷ codes "ON"
    ∷ codes "USING"
    ∷ codes "AS"
    ∷ codes "AND"
    ∷ codes "OR"
    ∷ codes "NOT"
    ∷ codes "NULL"
    ∷ codes "IS"
    ∷ codes "IN"
    ∷ codes "BETWEEN"
    ∷ codes "LIKE"
    ∷ codes "ORDER"
    ∷ codes "BY"
    ∷ codes "GROUP"
    ∷ codes "HAVING"
    ∷ codes "LIMIT"
    ∷ codes "OFFSET"
    ∷ codes "DISTINCT"
    ∷ codes "UNION"
    ∷ codes "ALL"
    ∷ codes "EXCEPT"
    ∷ codes "INTERSECT"
    ∷ codes "EXISTS"
    ∷ codes "CREATE"
    ∷ codes "TABLE"
    ∷ codes "INDEX"
    ∷ codes "VIEW"
    ∷ codes "SCHEMA"
    ∷ codes "DATABASE"
    ∷ codes "DROP"
    ∷ codes "ALTER"
    ∷ codes "ADD"
    ∷ codes "COLUMN"
    ∷ codes "RENAME"
    ∷ codes "TO"
    ∷ codes "PRIMARY"
    ∷ codes "KEY"
    ∷ codes "FOREIGN"
    ∷ codes "REFERENCES"
    ∷ codes "UNIQUE"
    ∷ codes "DEFAULT"
    ∷ codes "CONSTRAINT"
    ∷ codes "CHECK"
    ∷ codes "IF"
    ∷ codes "ELSE"
    ∷ codes "ELSIF"
    ∷ codes "CASE"
    ∷ codes "WHEN"
    ∷ codes "THEN"
    ∷ codes "END"
    ∷ codes "BEGIN"
    ∷ codes "COMMIT"
    ∷ codes "ROLLBACK"
    ∷ codes "TRANSACTION"
    ∷ codes "SAVEPOINT"
    ∷ codes "WITH"
    ∷ codes "RECURSIVE"
    ∷ codes "RETURNING"
    ∷ codes "NATURAL"
    ∷ codes "TRUE"
    ∷ codes "FALSE"
    ∷ codes "ASC"
    ∷ codes "DESC"
    ∷ codes "CASCADE"
    ∷ codes "RESTRICT"
    ∷ codes "GRANT"
    ∷ codes "REVOKE"
    ∷ codes "EXPLAIN"
    ∷ codes "ANALYZE"
    ∷ codes "SHOW"
    ∷ codes "DESCRIBE"
    ∷ codes "TRUNCATE"
    ∷ codes "REPLACE"
    ∷ codes "MERGE"
    ∷ []

-- `COMMON_FUNCTIONS`.
abbrev pub common_functions : List Text
common_functions =
    codes "COUNT"
    ∷ codes "SUM"
    ∷ codes "AVG"
    ∷ codes "MIN"
    ∷ codes "MAX"
    ∷ codes "COALESCE"
    ∷ codes "NULLIF"
    ∷ codes "CAST"
    ∷ codes "CONVERT"
    ∷ codes "NOW"
    ∷ codes "CURRENT_TIMESTAMP"
    ∷ codes "CURRENT_DATE"
    ∷ codes "CURRENT_TIME"
    ∷ codes "DATE"
    ∷ codes "DATETIME"
    ∷ codes "TIME"
    ∷ codes "EXTRACT"
    ∷ codes "CONCAT"
    ∷ codes "SUBSTRING"
    ∷ codes "SUBSTR"
    ∷ codes "LENGTH"
    ∷ codes "CHAR_LENGTH"
    ∷ codes "TRIM"
    ∷ codes "LTRIM"
    ∷ codes "RTRIM"
    ∷ codes "UPPER"
    ∷ codes "LOWER"
    ∷ codes "REPLACE"
    ∷ codes "ROUND"
    ∷ codes "FLOOR"
    ∷ codes "CEIL"
    ∷ codes "CEILING"
    ∷ codes "ABS"
    ∷ codes "MOD"
    ∷ codes "POWER"
    ∷ codes "SQRT"
    ∷ codes "RANDOM"
    ∷ codes "RAND"
    ∷ codes "GREATEST"
    ∷ codes "LEAST"
    ∷ codes "ROW_NUMBER"
    ∷ codes "RANK"
    ∷ codes "DENSE_RANK"
    ∷ codes "LAG"
    ∷ codes "LEAD"
    ∷ codes "FIRST_VALUE"
    ∷ codes "LAST_VALUE"
    ∷ codes "OVER"
    ∷ codes "PARTITION"
    ∷ []

-- `COMMON_TYPES`.
abbrev pub common_types : List Text
common_types =
    codes "INT"
    ∷ codes "INTEGER"
    ∷ codes "BIGINT"
    ∷ codes "SMALLINT"
    ∷ codes "TINYINT"
    ∷ codes "FLOAT"
    ∷ codes "DOUBLE"
    ∷ codes "DECIMAL"
    ∷ codes "NUMERIC"
    ∷ codes "REAL"
    ∷ codes "VARCHAR"
    ∷ codes "CHAR"
    ∷ codes "TEXT"
    ∷ codes "LONGTEXT"
    ∷ codes "MEDIUMTEXT"
    ∷ codes "BLOB"
    ∷ codes "BINARY"
    ∷ codes "VARBINARY"
    ∷ codes "DATE"
    ∷ codes "DATETIME"
    ∷ codes "TIMESTAMP"
    ∷ codes "TIME"
    ∷ codes "YEAR"
    ∷ codes "BOOLEAN"
    ∷ codes "BOOL"
    ∷ codes "JSON"
    ∷ []

-- `keywords` of mysql.js.
abbrev pub mysql_keywords : List Text
mysql_keywords =
    codes "AUTO_INCREMENT"
    ∷ codes "UNSIGNED"
    ∷ codes "ZEROFILL"
    ∷ codes "ENGINE"
    ∷ codes "CHARSET"
    ∷ codes "COLLATE"
    ∷ codes "MEDIUMINT"
    ∷ codes "LONGBLOB"
    ∷ codes "MEDIUMBLOB"
    ∷ codes "TINYBLOB"
    ∷ codes "ENUM"
    ∷ codes "DUAL"
    ∷ codes "USE"
    ∷ codes "LOCK"
    ∷ codes "UNLOCK"
    ∷ codes "DELIMITER"
    ∷ codes "STRAIGHT_JOIN"
    ∷ codes "STORAGE"
    ∷ codes "MEMORY"
    ∷ codes "INNODB"
    ∷ codes "MYISAM"
    ∷ []

-- `functions` of mysql.js.
abbrev pub mysql_functions : List Text
mysql_functions =
    codes "DATE_ADD"
    ∷ codes "DATE_SUB"
    ∷ codes "DATEDIFF"
    ∷ codes "TIMESTAMPDIFF"
    ∷ codes "IFNULL"
    ∷ codes "IF"
    ∷ codes "FIND_IN_SET"
    ∷ codes "GROUP_CONCAT"
    ∷ codes "JSON_EXTRACT"
    ∷ codes "JSON_OBJECT"
    ∷ codes "JSON_ARRAY"
    ∷ []

-- `keywords` of postgres.js.
abbrev pub postgres_keywords : List Text
postgres_keywords =
    codes "SERIAL"
    ∷ codes "BIGSERIAL"
    ∷ codes "SMALLSERIAL"
    ∷ codes "JSONB"
    ∷ codes "UUID"
    ∷ codes "ILIKE"
    ∷ codes "ARRAY"
    ∷ codes "CONFLICT"
    ∷ codes "INTERVAL"
    ∷ codes "SIMILAR"
    ∷ codes "LATERAL"
    ∷ codes "MATERIALIZED"
    ∷ codes "FILTER"
    ∷ codes "WINDOW"
    ∷ codes "TABLESAMPLE"
    ∷ codes "GENERATED"
    ∷ codes "ALWAYS"
    ∷ codes "IDENTITY"
    ∷ codes "STORED"
    ∷ []

-- `functions` of postgres.js.
abbrev pub postgres_functions : List Text
postgres_functions =
    codes "TO_CHAR"
    ∷ codes "TO_DATE"
    ∷ codes "TO_TIMESTAMP"
    ∷ codes "AGE"
    ∷ codes "DATE_TRUNC"
    ∷ codes "DATE_PART"
    ∷ codes "STRING_AGG"
    ∷ codes "ARRAY_AGG"
    ∷ codes "JSONB_BUILD_OBJECT"
    ∷ codes "JSONB_AGG"
    ∷ []

-- `keywords` of sqlite.js.
abbrev pub sqlite_keywords : List Text
sqlite_keywords =
    codes "AUTOINCREMENT"
    ∷ codes "ROWID"
    ∷ codes "PRAGMA"
    ∷ codes "ATTACH"
    ∷ codes "DETACH"
    ∷ codes "VACUUM"
    ∷ codes "GLOB"
    ∷ codes "INDEXED"
    ∷ codes "ABORT"
    ∷ codes "FAIL"
    ∷ codes "IGNORE"
    ∷ []

-- `functions` of sqlite.js.
abbrev pub sqlite_functions : List Text
sqlite_functions =
    codes "IFNULL"
    ∷ codes "IIF"
    ∷ codes "DATETIME"
    ∷ codes "STRFTIME"
    ∷ codes "JULIANDAY"
    ∷ codes "JSON"
    ∷ codes "JSON_EXTRACT"
    ∷ []
