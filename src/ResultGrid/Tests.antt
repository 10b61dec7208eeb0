-- ===== src/ResultGrid/Tests.antt =====
-- Runs of src/grid/resultGrid.js at a concrete result.
use Prim.Native.Nat.{Ordering}
use tedi_sql_explorer.Base.{◌≡◌, refl, ◌≤◌, ◌<◌, arith, true, List, [], ◌∷◌, codes, length}
use tedi_sql_explorer.Cell.{null, str}
use tedi_sql_explorer.ResultGrid.{
  Row, Engine, new_grid, sort_rows, total_pages, redraw, previous, next,
}
use tedi_sql_explorer.ResultGrid.Paging.{pages, pages_all, redraw_lem}

abbrev plain : Engine
plain = record { lower = λ s. s; collate = λ s t. Ordering.eq; subtract = λ s t. Ordering.eq }

abbrev rows : List Row
rows = (str (codes "a") ∷ []) ∷ (null ∷ []) ∷ (str (codes "b") ∷ []) ∷ []

-- The sign turns the place of the NULLs round too.
descending_run :
    sort_rows plain 0 true rows ≡ (null ∷ []) ∷ (str (codes "a") ∷ []) ∷ (str (codes "b") ∷ []) ∷ []
unfolding sort_rows
descending_run = refl

pages_all_example :
    pages 2 (total_pages 2 (length (new_grid rows).filtered)) 0 (new_grid rows).filtered
    ≡ (new_grid rows).filtered
pages_all_example = pages_all 2 (new_grid rows) (omega arith)

redraw_lem_example :
    ((redraw 2 (new_grid rows)).0.page < total_pages 2 (length (new_grid rows).filtered))
    × ((previous 2 (new_grid rows)).page < total_pages 2 (length (new_grid rows).filtered))
    × ((next 2 (new_grid rows)).page < total_pages 2 (length (new_grid rows).filtered))
    × (length (redraw 2 (new_grid rows)).1 ≤ 2)
redraw_lem_example = redraw_lem 2 (new_grid rows)
