-- ===== src/Tree.antt =====
-- The node ids of src/tree/data.js: the parts of a node, joined by a control character.
pub mod Ids
pub mod Nodes
pub mod Sets
pub mod Loading
pub mod Fetch
pub mod Cache
pub mod Menu
pub mod Ddl
mod Tests
use tedi_sql_explorer.Base.{ℕ, List, [], ◌∷◌, Text, join, split}

-- `parseNid(id)`: a part that is missing is empty.
pub record Node : Type 0 where
  pub kind : Text
  pub conn_id : Text
  pub db : Text
  pub schema : Text
  pub table : Text

abbrev pub tree_sep : ℕ
tree_sep = 1

-- `nid(kind, connId, db, schema, table)`.
unfoldable pub nid : Node → Text
unfolding join
nid n = join (tree_sep ∷ []) (n.kind ∷ n.conn_id ∷ n.db ∷ n.schema ∷ n.table ∷ [])

abbrev pub node_of : List Text → Node
node_of [] = record { kind = []; conn_id = []; db = []; schema = []; table = [] }
node_of (k ∷ []) = record { kind = k; conn_id = []; db = []; schema = []; table = [] }
node_of (k ∷ c ∷ []) = record { kind = k; conn_id = c; db = []; schema = []; table = [] }
node_of (k ∷ c ∷ d ∷ []) = record { kind = k; conn_id = c; db = d; schema = []; table = [] }
node_of (k ∷ c ∷ d ∷ s ∷ []) = record { kind = k; conn_id = c; db = d; schema = s; table = [] }
node_of (k ∷ c ∷ d ∷ s ∷ t ∷ rest) = record { kind = k; conn_id = c; db = d; schema = s; table = t }

unfoldable pub parse_nid : Text → Node
unfolding split
parse_nid id = node_of (split tree_sep id)
