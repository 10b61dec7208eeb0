-- ===== src/Lib.antt =====
-- TEDI SQL Explorer: a database workbench for the TEDI terminal. The extension (JavaScript under
-- src/) keeps saved connections, starts a helper process that talks to the databases over HTTP,
-- and shows what comes back in grids that can be edited.
--
-- Parts and files. Base holds texts (UTF-16 code units), lists and regular expressions as
-- matchers. Connection, Cell, Session and Workbench are the records of src/runtime.js and of the
-- sessions of src/connections/store.js. Dialects models src/dialects: the engines as data,
-- `quoteIdent` and the connection URL. Sql models src/sql.js: literals, the statement builders,
-- `bareSql` and `destructiveReason`. Json and Backup model src/connections/backup.js:
-- `sanitizeConnection`, the envelope and `applyBackup`. Store models src/connections/store.js,
-- Managed models src/connections/managed.js, History models src/query/history.js, and Lifecycle
-- models src/connections/lifecycle.js with the status of src/tree/connState.js. Sidecar models
-- src/sidecar.js. ResultGrid models src/grid/resultGrid.js; TableGrid models src/grid/tableData.js
-- and the metadata of src/columns.js, TableGrid.Pager the pager of src/grid/tableGrid.js,
-- TableGrid.Edits the edits of src/gridedit/cellEdit.js and src/gridedit/rowOps.js. Query models
-- src/query/run.js, Query.Editable and Query.Contexts src/query/editContext.js, and
-- Query.References src/query/sqlRefs.js. Tree models the node ids of src/tree/data.js, Tree.Nodes
-- the expanding, loading, refreshing and reloading of src/tree/view.js and src/tree/menu.js,
-- Tree.Fetch the loads of src/tree/data.js, and Tree.Menu the menu of a table. Columns models the
-- types and date values of src/columns.js, Columns.Widgets the cell editors of
-- src/gridedit/typedEditor.js and the insert fields of src/gridedit/rowOps.js. Dates models
-- src/dom/dateParts.js and Dates.Picker src/dom/datePicker.js. CopyInfo models
-- src/connections/copyInfo.js, Tunnel src/connections/tunnel.js, Assistant src/ai.js, and
-- Completions src/render/completions.js.
--
-- How they interact. Backup and Managed let a foreign record in only through `sanitizeConnection`;
-- Lifecycle dials with the body that Dialects and Store build and drops the state of Workbench,
-- History and the keychain together; Query asks `destructiveReason` before it sends, and TableGrid
-- shows the statement that Sql builds before it sends an edit. Columns chooses the widget whose
-- value goes to the commit of TableGrid.Edits; for dates the widget is Dates.Picker. Tree dials
-- with Lifecycle and opens sessions with Store; the command of CopyInfo is for the connection
-- whose URL Dialects builds; Assistant asks the gates of Sql.
--
-- Steps. Tree.Nodes has the loads that are in flight as a list, and a step for each click and each
-- answer, in any order. Dates.Picker runs over a list of events. The boot of Sidecar runs over the
-- polls that the deadline leaves room for.
--
-- Bounds and fuel. `Sidecar.request` runs on fuel, and three fetches are shown to be enough. The
-- retries of a connection are structural on the attempts that are left. Everything else is
-- structural on its data.
--
-- Not modelled. The Rust helper, the DOM, styles and dialogs; the rows of the sidebar that
-- src/tree/items.js builds, the panel, src/export.js and src/gridedit/structure.js. The host, the
-- network, the clock, JSON.parse, Number, toLowerCase and localeCompare are parameters. A dialect
-- named like a member of every JavaScript object is not modelled.
mod Base
pub mod Connection
pub mod Cell
pub mod Session
pub mod Dialects
pub mod Sql
pub mod Workbench
pub mod Store
pub mod Json
pub mod Backup
pub mod History
pub mod Lifecycle
pub mod Sidecar
pub mod ResultGrid
pub mod TableGrid
pub mod Query
pub mod Managed
pub mod Tree
pub mod Dates
pub mod Columns
pub mod CopyInfo
pub mod Tunnel
pub mod Assistant
pub mod Completions
