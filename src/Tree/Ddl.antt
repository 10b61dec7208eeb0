-- ===== src/Tree/Ddl.antt =====
-- What the statements of a table's menu depend on, and what they change (src/tree/menu.js).
use tedi_sql_explorer.Base.{Bool, false, ◌≡◌, Option, none, some}
use tedi_sql_explorer.Connection.{Connection}
use tedi_sql_explorer.TableGrid.{Table}
use tedi_sql_explorer.Tree.{Node}
use tedi_sql_explorer.Tree.Nodes.{Tree}
use tedi_sql_explorer.Tree.Menu.{shows}

-- The grid shows the table of the node.
pub shown_in : Node → Option Table → Bool
unfolding shows
shown_in m none = false
shown_in m (some g) = shows m g.session.active_table

-- The grid no longer shows the table, and is the one from before where it did not show it.
pub record Closed (m : Node) (grid grid' : Option Table) : Type 0 where
  pub closed : shown_in m grid' ≡ false
  pub kept : shown_in m grid ≡ false → grid' ≡ grid
