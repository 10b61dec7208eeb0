-- ===== src/Tree/Ids.antt =====
-- A node is read back from its id (src/tree/data.js).
use tedi_sql_explorer.Base.{◌≡◌, ap, [], ◌∷◌, Lacks, split, split-one, split-part}
use tedi_sql_explorer.Tree.{Node, tree_sep, nid, node_of, parse_nid}

-- No part of the node holds the separator.
record IsNode (n : Node) : Type 0 where
  pub kind : Lacks tree_sep n.kind
  pub conn_id : Lacks tree_sep n.conn_id
  pub db : Lacks tree_sep n.db
  pub schema : Lacks tree_sep n.schema
  pub table : Lacks tree_sep n.table

split-nid :
    (n : Node)
    → IsNode n
    → split tree_sep (nid n) ≡ n.kind ∷ n.conn_id ∷ n.db ∷ n.schema ∷ n.table ∷ []
unfolding nid
split-nid n h = split-part tree_sep n.kind _ n.conn_id (n.db ∷ n.schema ∷ n.table ∷ []) h.kind (
    split-part tree_sep n.conn_id _ n.db (n.schema ∷ n.table ∷ []) h.conn_id (
      split-part tree_sep n.db _ n.schema (n.table ∷ []) h.db (
        split-part tree_sep n.schema n.table n.table [] h.schema
          (split-one tree_sep n.table h.table))))

-- A node whose parts do not hold the separator is read back from its id, part by part, so different
-- nodes of this kind have different ids.
parse_nid-nid : (n : Node) → IsNode n → parse_nid (nid n) ≡ n
unfolding parse_nid
parse_nid-nid n h = ap node_of (split-nid n h)
