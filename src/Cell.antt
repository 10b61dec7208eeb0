-- ===== src/Cell.antt =====
-- A value of a grid cell, as the helper's JSON delivers it. A number is kept as the text `String(n)`
-- of it, which tells any two numbers of JSON apart; an object or array as its `JSON.stringify`, with
-- the marker objects of a blob (`bytes`, with its size) and of a type that the helper cannot render
-- (`unsupported`, with the type's name) apart. `absent` is `undefined`.
use tedi_sql_explorer.Base.{Bool, Text}

pub data Cell : Type 0 where
  absent null : Cell
  bool : Bool → Cell
  num : Text → Cell
  str : Text → Cell
  bytes : Text → Text → Cell
  unsupported : Text → Text → Cell
  json : Text → Cell
