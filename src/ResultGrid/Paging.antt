-- ===== src/ResultGrid/Paging.antt =====
-- The pages of a query result (src/grid/resultGrid.js).
use Prim.Native.Nat.{max}
use native.Mathlib.Nat.{lt-div-mul-add, suc-mul, zero-mul}
use tedi_sql_explorer.Base.{
  ℕ, zero, suc, ◌+◌, ◌-◌, ◌*◌, ◌/◌, ◌≤◌, ◌<◌, leb, ltb, ◌≡◌, refl, sym, ◌∙◌, ap, none, List, [],
  ◌∷◌, ◌++◌, arith, length, length-take, take, drop, if◌then◌else◌, ==_refl,
}
use tedi_sql_explorer.ResultGrid.{
  Row, Engine, Grid, total_pages, shown_page, slice, redraw, previous, next, apply_filter,
  toggle_sort,
}

-- Pages one after the other, from page `first` on.
pub pages : ℕ → ℕ → ℕ → List Row → List Row
pages size zero first rs = []
pages size (suc n) first rs = slice size first rs ++ pages size n (suc first) rs

at_least_one : (q size total : ℕ) → total ≤ q * size → total ≤ max 1 q * size
at_least_one zero size total h = omega (arith, h, zero-mul size)
at_least_one (suc q) size total h = let e : max 1 (suc q) ≡ suc q = omega arith in rw e h

enough_pages : (size total : ℕ) → 1 ≤ size → total ≤ total_pages size total * size
unfolding total_pages
enough_pages size total h =
    at_least_one ((total + (size - 1)) / size) size total
      (omega (arith, lt-div-mul-add {a = total + (size - 1)} {b = size} h))

take-add : {A : Type 0} (m n : ℕ) (xs : List A) → take (m + n) xs ≡ take m xs ++ take n (drop m xs)
take-add zero n xs = let e : 0 + n ≡ n = omega arith in rw e
take-add (suc m) n [] = let e : suc m + n ≡ suc (m + n) = omega arith in rw e (sym (take_nil n))
  where
    take_nil : {A : Type 0} (n : ℕ) → take {A = A} n [] ≡ []
    take_nil zero = refl
    take_nil (suc n) = refl
take-add (suc m) n (x ∷ xs) =
    let e : suc m + n ≡ suc (m + n) = omega arith in rw e (ap (λ ys. x ∷ ys) (take-add m n xs))

drop-add : {A : Type 0} (m n : ℕ) (xs : List A) → drop (m + n) xs ≡ drop n (drop m xs)
drop-add zero n xs = let e : 0 + n ≡ n = omega arith in rw e
drop-add (suc m) zero [] = let e : suc m + 0 ≡ suc m = omega arith in rw e
drop-add (suc m) (suc n) [] = let e : suc m + suc n ≡ suc (m + suc n) = omega arith in rw e
drop-add (suc m) n (x ∷ xs) =
    let e : suc m + n ≡ suc (m + n) = omega arith in rw e (drop-add m n xs)

take_all : {A : Type 0} (n : ℕ) (xs : List A) → length xs ≤ n → take n xs ≡ xs
take_all zero [] h = refl
take_all zero (x ∷ xs) h = absurd (omega arith)
take_all (suc n) [] h = refl
take_all (suc n) (x ∷ xs) h = ap (λ ys. x ∷ ys) (take_all n xs (omega arith))

pages_lem :
    (size n first : ℕ) (rs : List Row)
    → pages size n first rs ≡ take (n * size) (drop (first * size) rs)
unfolding pages slice
pages_lem size zero first rs = rw (zero-mul size)
pages_lem size (suc n) first rs =
    let e : suc first * size ≡ first * size + size = omega (arith, suc-mul first size) in
    let e' : suc n * size ≡ size + n * size = omega (arith, suc-mul n size) in
    ap (λ ys. take size (drop (first * size) rs) ++ ys)
      (pages_lem size n (suc first) rs
        ∙ ap (λ k. take (n * size) (drop k rs)) e
        ∙ ap (take (n * size)) (drop-add (first * size) size rs))
    ∙ sym (
        ap (λ k. take k (drop (first * size) rs)) e'
        ∙ take-add size (n * size) (drop (first * size) rs))

-- The pages from the first to the last show every row that the filter kept, each once and in order;
-- the page size is not 0.
pub pages_all :
    (size : ℕ) (g : Grid)
    → 1 ≤ size
    → pages size (total_pages size (length g.filtered)) 0 g.filtered ≡ g.filtered
pages_all size g h =
    let n = total_pages size (length g.filtered) in
    pages_lem size n 0 g.filtered
    ∙ ap (λ k. take (n * size) (drop k g.filtered)) (zero-mul size)
    ∙ take_all (n * size) g.filtered (enough_pages size (length g.filtered) h)

total_pages-pos : (size total : ℕ) → 1 ≤ total_pages size total
unfolding total_pages
total_pages-pos size total = omega arith

shown_page-bound : (size : ℕ) (g : Grid) → shown_page size g < total_pages size (length g.filtered)
unfolding shown_page
shown_page-bound size g =
    bounded (total_pages size (length g.filtered)) g.page (total_pages-pos size (length g.filtered))
  where
    bounded : (n p : ℕ) → 1 ≤ n → (if leb n p then n - 1 else p) < n
    bounded n p h = ground arith

-- Whatever is searched, sorted or clicked, the page that is drawn exists, and so does the page that
-- `Prev` and `Next` lead to; a page never holds more rows than its size.
pub redraw_lem :
    (size : ℕ) (g : Grid)
    → ((redraw size g).0.page < total_pages size (length g.filtered))
      × ((previous size g).page < total_pages size (length g.filtered))
      × ((next size g).page < total_pages size (length g.filtered))
      × (length (redraw size g).1 ≤ size)
unfolding redraw previous next slice
redraw_lem size g =
    let b = shown_page-bound size g in
    (
      b,
      lower (shown_page size g) (total_pages size (length g.filtered)) b,
      higher (shown_page size g) (total_pages size (length g.filtered)) b,
      omega (arith, length-take size (drop (shown_page size g * size) g.filtered)),
    )
  where
    lower :
        (p n : ℕ)
        → p < n
        → (if ltb 0 p then record g { page = p - 1 } else record g { page = p }).page < n
    lower p n h = ground arith

    higher :
        (p n : ℕ)
        → p < n
        → (if ltb p (n - 1) then record g { page = p + 1 } else record g { page = p }).page < n
    higher p n h = ground arith

-- Three clicks on the same header, on a grid that is not sorted, leave it not sorted again, with the
-- rows that the search gives.
toggle_sort_lem :
    (e : Engine) (rows : List Row) (ci : ℕ) (g : Grid)
    → g.sort_col ≡ none
    → ((toggle_sort e rows ci (toggle_sort e rows ci (toggle_sort e rows ci g))).sort_col ≡ none)
      × ((toggle_sort e rows ci (toggle_sort e rows ci (toggle_sort e rows ci g))).filtered
          ≡ (apply_filter e rows g.query g).filtered)
unfolding toggle_sort apply_filter
toggle_sort_lem e rows ci g h = rw (h, ==_refl ci, ==_refl ci) (refl, refl)
