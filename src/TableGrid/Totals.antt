-- ===== src/TableGrid/Totals.antt =====
-- When the count of a table's rows is asked for again (src/grid/tableData.js).
use tedi_sql_explorer.Base.{
  ℕ, ◌≡◌, refl, true, false, none, some, List, [], ◌∷◌, Text, text_eq_refl,
}
use tedi_sql_explorer.Session.{Session, Target}
use tedi_sql_explorer.TableGrid.{
  Table, Snapshot, open_table, rows_body, after_rows, reuse_total, total_key_of,
  invalidate_row_count, learn_columns, load_table_rows,
}

learn_columns-key :
    (target : Target) (cs : List Text) (s : Session)
    → total_key_of target (learn_columns target cs s) ≡ total_key_of target s
unfolding learn_columns total_key_of
learn_columns-key target [] s = refl
learn_columns-key target (c ∷ cs) s = refl

reuse-fresh :
    (key : Text) (n : ℕ) (t : Table)
    → t.total_key ≡ some key
    → t.total ≡ some n
    → reuse_total key t ≡ some n
unfolding reuse_total
reuse-fresh key n t hk hn = rw (hk, text_eq_refl key) hn

-- Opening a table, and every change that drops the count, makes the next page ask for it. Once a page
-- came back with a count, the following pages of the same table and search do not ask again.
rows_body-total :
    (target : Target) (page : ℕ) (t : Table)
    → ((rows_body target page (open_table target t)).want_total ≡ true)
      × ((rows_body target page (invalidate_row_count t)).want_total ≡ true)
      × ((snap : Snapshot) (n : ℕ)
          → snap.total ≡ some n
          → reuse_total (total_key_of target t.session) t ≡ none
          → (rows_body target page (load_table_rows target (some snap) t)).want_total ≡ false)
unfolding rows_body open_table invalidate_row_count reuse_total load_table_rows after_rows
rows_body-total target page t = (
  refl,
  refl,
  λ snap n hn hr. rw (
    hr,
    learn_columns-key target snap.columns t.session,
    text_eq_refl (total_key_of target t.session),
    hn,
  ),
)
