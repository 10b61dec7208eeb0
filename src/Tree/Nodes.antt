-- ===== src/Tree/Nodes.antt =====
-- The lazy tree of src/tree/data.js, src/tree/view.js and src/tree/menu.js: which nodes are expanded,
-- which are loading, the children that were loaded, and the loads that are in flight. What the helper
-- answers is a parameter of each load's end.
use tedi_sql_explorer.Base.{
  ◌≡◌, Bool, true, false, Option, none, some, List, [], ◌∷◌, ◌++◌, Text, text_eq, if◌then◌else◌,
}
use tedi_sql_explorer.Workbench.{lookup, assign, discard}

-- A child of a node, `{ kind, name, tableKind, schema }`.
pub data Child : Type 0 where
  db schema : Text → Child
  table : Text → Text → Text → Child

-- `treeExpanded`, `treeLoadingNodes` and `treeChildren`, with the calls of `onTreeToggle` that wait for
-- their children, in the order in which they began.
pub record Tree : Type 0 where
  pub expanded : List Text
  pub loading : List Text
  pub children : List (Text × List Child)
  pub pending : List Text

-- `set.has(id)`, `set.add(id)` and `set.delete(id)`.
unfoldable pub has : Text → List Text → Bool
unfolding text_eq
has id [] = false
has id (x ∷ xs) = if text_eq id x then true else has id xs

unfoldable pub add : Text → List Text → List Text
unfolding has
add id xs = if has id xs then xs else xs ++ (id ∷ [])

unfoldable pub delete : Text → List Text → List Text
unfolding text_eq
delete id [] = []
delete id (x ∷ xs) = let rest = delete id xs in if text_eq id x then rest else x ∷ rest

-- One call that waits for `id`, taken out.
unfoldable pub take_one : Text → List Text → List Text
unfolding text_eq
take_one id [] = []
take_one id (x ∷ xs) = let rest = take_one id xs in if text_eq id x then xs else x ∷ rest

unfoldable pub begun : Text → Option (List Child) → Tree → Tree
unfolding add
begun id (some kids) t = t
begun id none t = record t { loading = add id t.loading; pending = t.pending ++ (id ∷ []) }

-- The node is expanded, and its children are loaded where they are not known.
unfoldable pub expand : Text → Tree → Tree
unfolding add begun lookup
expand id t = begun id (lookup id t.children) (record t { expanded = add id t.expanded })

-- `onTreeToggle(id)`, up to where it waits.
unfoldable pub toggle : Text → Tree → Tree
unfolding has delete expand
toggle id t =
    if has id t.expanded then record t { expanded = delete id t.expanded } else expand id t

-- Its end: the children are set or, where the load failed, the node is collapsed; in both cases the
-- node is no longer loading.
unfoldable pub settle : Text → Option (List Child) → Tree → Tree
unfolding delete take_one assign
settle id none t = record t {
  expanded = delete id t.expanded;
  loading = delete id t.loading;
  pending = take_one id t.pending;
}
settle id (some kids) t = record t {
  children = assign id kids t.children;
  loading = delete id t.loading;
  pending = take_one id t.pending;
}

-- `reloadTree()`: the calls that wait go on waiting.
unfoldable pub reload_tree : Tree → Tree
reload_tree t = record t { expanded = []; loading = []; children = [] }

-- `refreshNode(id, view)`.
unfoldable pub refresh_node : Text → Tree → Tree
unfolding has delete discard toggle
refresh_node id t =
    if has id t.expanded
    then toggle id (record t { children = discard id t.children; expanded = delete id t.expanded })
    else record t { children = discard id t.children }

-- What happens to the tree, one event at a time. A load ends only where one is in flight.
pub data Step : Tree → Tree → Type 0 where
  toggled : (id : Text) (t : Tree) → Step t (toggle id t)
  settled :
      (id : Text) (kids : Option (List Child)) (t : Tree)
      → has id t.pending ≡ true
      → Step t (settle id kids t)
  reloaded : (t : Tree) → Step t (reload_tree t)
  refreshed : (id : Text) (t : Tree) → Step t (refresh_node id t)

-- The trees that the sidebar can show.
pub data Reached : Tree → Type 0 where
  start : Reached (record { expanded = []; loading = []; children = []; pending = [] })
  then_step : (t t' : Tree) → Reached t → Step t t' → Reached t'
