-- ===== src/TableGrid/Pager.antt =====
-- src/grid/tableGrid.js: the click on a column's header, and the pager below the table.
use tedi_sql_explorer.Base.{
  ℕ, ◌+◌, ◌-◌, ◌/◌, ltb, ◌==◌, ◌≡◌, refl, ap, ◌∙◌, Bool, true, false, Option, none, some, [], Text,
  codes, text_eq, text_eq_refl, if◌then◌else◌,
}
use tedi_sql_explorer.Session.{Session}

-- Unsorted, ascending, descending, and unsorted again; another column begins at ascending. The first
-- page is loaded afterwards.
unfoldable pub click_header : Text → Session → Session
unfolding text_eq
click_header col s =
    if text_eq s.order_by col
    then if text_eq s.order_dir (codes "asc")
      then record s { order_dir = codes "desc" }
      else record s { order_by = []; order_dir = codes "asc" }
    else record s { order_by = col; order_dir = codes "asc" }

-- The last page, where the total is known and not an estimate.
unfoldable pub last_page : Bool → Option ℕ → ℕ → Option ℕ
last_page true total size = none
last_page false none size = none
last_page false (some n) size = some ((n + (size - 1)) / size - 1)

unfoldable pub has_prev : ℕ → Bool
has_prev page = ltb 0 page

-- Without a last page, a full page may have another one behind it.
unfoldable pub has_next : Option ℕ → ℕ → ℕ → ℕ → Bool
has_next none page rows size = rows == size
has_next (some last) page rows size = ltb page last

ascending : Text → Session → Session
ascending col s = record s { order_by = col; order_dir = codes "asc" }

first_click :
    (col : Text) (s : Session)
    → text_eq s.order_by col ≡ false
    → click_header col s ≡ ascending col s
unfolding click_header ascending
first_click col s h = rw h refl

second_click :
    (col : Text) (s : Session)
    → click_header col (ascending col s) ≡ record (ascending col s) { order_dir = codes "desc" }
unfolding click_header ascending
second_click col s = rw (text_eq_refl col) (unfold text_eq in refl)

third_click :
    (col : Text) (s : Session)
    → click_header col (record (ascending col s) { order_dir = codes "desc" })
      ≡ record s { order_by = []; order_dir = codes "asc" }
unfolding click_header ascending
third_click col s = rw (text_eq_refl col) (unfold text_eq in refl)

-- Three clicks on one header of a grid that is sorted by another column, or by none, leave it unsorted;
-- nothing else of the session changes.
click_header_cycle :
    (col : Text) (s : Session)
    → text_eq s.order_by col ≡ false
    → click_header col (click_header col (click_header col s))
      ≡ record s { order_by = []; order_dir = codes "asc" }
click_header_cycle col s h =
    ap (λ t. click_header col (click_header col t)) (first_click col s h)
    ∙ ap (click_header col) (second_click col s)
    ∙ third_click col s
