-- ===== src/Json.antt =====
-- Values of `JSON.parse`, as far as the import code of src/connections/backup.js reads them.
use tedi_sql_explorer.Base.{ℕ, Bool, List, [], ◌∷◌, Text, text_eq, if◌then◌else◌}

-- A number: `String(n)` of it, and its value as a sign, a whole part and whether it has a fraction.
-- One that is not finite (JSON's `1e999`) has `finite` false.
pub record Number : Type 0 where
  pub text : Text
  pub finite : Bool
  pub negative : Bool
  pub whole : ℕ
  pub fraction : Bool

mutual
  pub data Json : Type 0 where
    null : Json
    bool : Bool → Json
    number : Number → Json
    text : Text → Json
    array : Items → Json
    object : Fields → Json

  pub data Items : Type 0 where
    nil : Items
    cons : Json → Items → Items

  pub data Fields : Type 0 where
    end : Fields
    field : Text → Json → Fields → Fields

-- A property of an object; `null` stands for one that is missing.
abbrev pub get_field : Text → Fields → Json
get_field k end = null
get_field k (field j v fs) = if text_eq k j then v else get_field k fs

unfoldable pub items : Items → List Json
items nil = []
items (cons j js) = j ∷ items js
