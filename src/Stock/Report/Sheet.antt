-- ===== src/Stock/Report/Sheet.antt =====
-- The columns of the sheet agree with one another, and its first row is the columns' sums.
use hai_compnay.Common.{ℕ, List, [], ◌∷◌, map, ◌≡◌, refl, ◌∙◌, All}
use hai_compnay.Common.Int.{ℤ, pos, ◌+ℤ◌, ◌-ℤ◌, total, int_laws}
use hai_compnay.Common.Dict.{Dict}
use hai_compnay.Stock.Report.{
  Tables, Wizard, Row, select_row, query, add_row, no_totals, totals_loop, get_data, location_data,
  stock_quant_data,
}

-- What there was at the start, with what came in and without what went out, is what there is at the
-- end, in quantity and in value.
abbrev pub IsBalanced : Row → Type 0
IsBalanced r =
    (r.start_quantity +ℤ r.quantity_in -ℤ r.quantity_out ≡ r.end_quantity)
    × (r.start_value +ℤ r.value_in -ℤ r.value_out ≡ r.end_value)

-- The row holds the sums of the columns.
pub record IsTotal (row : Row) (rows : List Row) : Type 0 where
  pub end_quantity : row.end_quantity ≡ total (λ r. r.end_quantity) rows
  pub end_value : row.end_value ≡ total (λ r. r.end_value) rows
  pub quantity_in : row.quantity_in ≡ total (λ r. r.quantity_in) rows
  pub quantity_out : row.quantity_out ≡ total (λ r. r.quantity_out) rows
  pub value_in : row.value_in ≡ total (λ r. r.value_in) rows
  pub value_out : row.value_out ≡ total (λ r. r.value_out) rows
  pub start_quantity : row.start_quantity ≡ total (λ r. r.start_quantity) rows
  pub start_value : row.start_value ≡ total (λ r. r.start_value) rows

select_row-IsBalanced :
    (t : Tables) (w : Wizard) (locations : List ℕ) (p : ℕ × ℤ)
    → IsBalanced (select_row t w locations p)
unfolding select_row
select_row-IsBalanced t w locations (product, quantity) = (omega int_laws, omega int_laws)

map-select_row-IsBalanced :
    (t : Tables) (w : Wizard) (locations : List ℕ) (ps : Dict ℕ ℤ)
    → All IsBalanced (map (select_row t w locations) ps)
map-select_row-IsBalanced t w locations [] = tt
map-select_row-IsBalanced t w locations (p ∷ ps) =
    (select_row-IsBalanced t w locations p, map-select_row-IsBalanced t w locations ps)

add_balanced :
    (start in_ out end start' in' out' end' : ℤ)
    → start +ℤ in_ -ℤ out ≡ end
    → start' +ℤ in' -ℤ out' ≡ end'
    → start +ℤ start' +ℤ (in_ +ℤ in') -ℤ (out +ℤ out') ≡ end +ℤ end'
add_balanced start in_ out end start' in' out' end' h h' = rw (← h, ← h') (omega int_laws)

totals_loop-IsBalanced :
    (totals : Row) (rows : List Row)
    → IsBalanced totals
    → All IsBalanced rows
    → IsBalanced (totals_loop totals rows)
unfolding totals_loop
totals_loop-IsBalanced totals [] h hs = h
totals_loop-IsBalanced totals (row ∷ rows) (q, v) ((rq, rv), hs) =
    totals_loop-IsBalanced (add_row totals row) rows
      (
        add_balanced totals.start_quantity totals.quantity_in totals.quantity_out
            totals.end_quantity row.start_quantity row.quantity_in row.quantity_out row.end_quantity
            q rq,
        add_balanced totals.start_value totals.value_in totals.value_out totals.end_value
            row.start_value row.value_in row.value_out row.end_value v rv,
      )
      hs

-- A column that the totals add up.
totals_loop_column :
    (column : Row → ℤ) (totals : Row) (rows : List Row)
    → ((acc row : Row) → column (add_row acc row) ≡ column acc +ℤ column row)
    → column (totals_loop totals rows) ≡ column totals +ℤ total column rows
unfolding totals_loop
totals_loop_column column totals [] h = omega int_laws
totals_loop_column column totals (row ∷ rows) h =
    totals_loop_column column (add_row totals row) rows h ∙ rw (h totals row) (omega int_laws)

column_total :
    (column : Row → ℤ) (rows : List Row)
    → ((acc row : Row) → column (add_row acc row) ≡ column acc +ℤ column row)
    → column no_totals ≡ pos 0
    → column (totals_loop no_totals rows) ≡ total column rows
column_total column rows h empty_ =
    totals_loop_column column no_totals rows h ∙ rw empty_ (omega int_laws)

-- In every row of the sheet, the row of totals included, start, movements and end agree; the first
-- row holds the sums of the columns of the others.
pub get_data-IsBalanced :
    (t : Tables) (w : Wizard) (warehouse : ℕ)
    → All IsBalanced (get_data t w warehouse)
      × (row : Row) × (get_data t w warehouse ≡ row ∷ query t w warehouse)
      × IsTotal row (query t w warehouse)
unfolding get_data query
get_data-IsBalanced t w warehouse =
    let locations = location_data t w warehouse in
    let rows = map (select_row t w locations) (stock_quant_data t w locations) in
    let balanced = map-select_row-IsBalanced t w locations (stock_quant_data t w locations) in
    (
      (totals_loop-IsBalanced no_totals rows (omega int_laws, omega int_laws) balanced, balanced),
      totals_loop no_totals rows,
      refl,
      record {
        end_quantity = column_total (λ r. r.end_quantity) rows (λ acc row. refl) refl;
        end_value = column_total (λ r. r.end_value) rows (λ acc row. refl) refl;
        quantity_in = column_total (λ r. r.quantity_in) rows (λ acc row. refl) refl;
        quantity_out = column_total (λ r. r.quantity_out) rows (λ acc row. refl) refl;
        value_in = column_total (λ r. r.value_in) rows (λ acc row. refl) refl;
        value_out = column_total (λ r. r.value_out) rows (λ acc row. refl) refl;
        start_quantity = column_total (λ r. r.start_quantity) rows (λ acc row. refl) refl;
        start_value = column_total (λ r. r.start_value) rows (λ acc row. refl) refl;
      },
    )
