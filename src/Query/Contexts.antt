-- ===== src/Query/Contexts.antt =====
-- The whole of `resolveQueryEditContext` of src/query/editContext.js, from the text of the statement.
use tedi_sql_explorer.Base.{◌≡◌, sym, ap, ◌∙◌, Bool, Option, List, ◌++◌, Text}
use tedi_sql_explorer.Cell.{str}
use tedi_sql_explorer.Session.{CacheEntry}
use tedi_sql_explorer.TableGrid.{Column}
use tedi_sql_explorer.Dialects.Quoting.{NotQuote}
use tedi_sql_explorer.Base.{Lacks}
use tedi_sql_explorer.Sql.{sql_lit}
use tedi_sql_explorer.Sql.Scan.{bare_sql}
use tedi_sql_explorer.Sql.Literals.{NoComment}
use tedi_sql_explorer.Sql.Verdicts.{bare-literal}
use tedi_sql_explorer.Query.Editable.{EditContext, resolve}
use tedi_sql_explorer.Query.References.{
  single_table, references_in, is_single_table_select, parse_sql_references,
}

module _ (lower : Text → Text) where
  -- `resolveQueryEditContext(session, sql, columns)`.
  unfoldable pub resolve_query_edit_context :
      Bool
      → (CacheEntry → List Column)
      → Text
      → List CacheEntry
      → List Text
      → Text
      → Option EditContext
  unfolding is_single_table_select parse_sql_references resolve
  resolve_query_edit_context locked fetch current cache columns sql =
      resolve lower (is_single_table_select sql) (parse_sql_references lower sql) locked fetch
        current cache columns

  context_of_bare :
      (locked : Bool) (fetch : CacheEntry → List Column) (current : Text) (cache : List CacheEntry)
      (columns : List Text) (a b : Text)
      → bare_sql a ≡ bare_sql b
      → resolve_query_edit_context locked fetch current cache columns a
        ≡ resolve_query_edit_context locked fetch current cache columns b
  unfolding resolve_query_edit_context is_single_table_select parse_sql_references
  context_of_bare locked fetch current cache columns a b h =
      ap
        (λ t.
          resolve lower (single_table t) (references_in lower t) locked fetch current cache columns)
        h

  -- What the first literal of a statement holds does not change whether its result can be edited, nor
  -- which table and columns an edit goes to: two statements without `-` and `/` that differ only in
  -- that literal get the same answer, whatever keywords and names stand in it.
  pub edit_context_literal :
      (locked : Bool) (fetch : CacheEntry → List Column) (current : Text) (cache : List CacheEntry)
      (columns : List Text) (pre s t post : Text)
      → NoComment pre
      → NoComment s
      → NoComment t
      → NoComment post
      → Lacks b'\'' pre
      → NotQuote b'\'' post
      → resolve_query_edit_context locked fetch current cache columns
          (pre ++ (sql_lit (str s) ++ post))
        ≡ resolve_query_edit_context locked fetch current cache columns
            (pre ++ (sql_lit (str t) ++ post))
  unfolding sql_lit
  edit_context_literal locked fetch current cache columns pre s t post p hs ht q lp nq =
      context_of_bare locked fetch current cache columns _ _
        (bare-literal pre s post p hs q lp nq ∙ sym (bare-literal pre t post p ht q lp nq))
