-- ===== src/Stock/Report/History.antt =====
-- The report against the history of the stock: its quantities are the levels that the moves give.
use hai_compnay.Common.{
  ℕ, List, [], ◌∷◌, map, ◌≡◌, refl, ◌∙◌, some, Bool, if◌then◌else◌, ◌&&◌, All, ◌≤◌, nat_key,
}
use hai_compnay.Common.Int.{ℤ, pos, total}
use hai_compnay.Common.Dict.{Dict}
use hai_compnay.Stock.Report.{
  StockMove, Tables, Wizard, Row, location_data, quantity_in_of, quantity_out_of, when_done,
  after_end, in_period, stock_move_quantity, coalesce, select_row, stock_quant_data, query,
}
use hai_compnay.Stock.Report.Moves.{
  counts, net, moved, coalesce-stock_move_quantity, moved-part, IsDated, before, until, sel,
  IsSplitLevel, move_levels, total_levels,
}

-- The stock that the moves of a product with such a date have brought.
abbrev pub level : Tables → Wizard → List ℕ → (ℕ → Bool) → ℕ → ℤ
level t w locations test product =
    total (λ m. if counts w product m && when_done test m.date_done then net locations m else pos 0)
      t.stock_move

total_ext :
    (f g : StockMove → ℤ) (ms : List StockMove)
    → ((m : StockMove) → f m ≡ g m)
    → total f ms ≡ total g ms
total_ext f g [] h = refl
total_ext f g (m ∷ ms) h = rw (h m, total_ext f g ms h) refl

-- The columns of the query, as sums of the moves' parts.
column_in :
    (t : Tables) (w : Wizard) (locations : List ℕ) (test : ℕ → Bool) (product : ℕ)
    → coalesce product (stock_move_quantity t w locations test (quantity_in_of locations))
      ≡ total
          (λ m. sel (counts w product m) (when_done test m.date_done) (quantity_in_of locations m))
          t.stock_move
column_in t w locations test product =
    coalesce-stock_move_quantity t w locations test (quantity_in_of locations) product
    ∙ total_ext (moved w locations test (quantity_in_of locations) product)
        (λ m. sel (counts w product m) (when_done test m.date_done) (quantity_in_of locations m))
        t.stock_move (λ m. (moved-part w locations test product m).0)

column_out :
    (t : Tables) (w : Wizard) (locations : List ℕ) (test : ℕ → Bool) (product : ℕ)
    → coalesce product (stock_move_quantity t w locations test (quantity_out_of locations))
      ≡ total
          (λ m. sel (counts w product m) (when_done test m.date_done) (quantity_out_of locations m))
          t.stock_move
column_out t w locations test product =
    coalesce-stock_move_quantity t w locations test (quantity_out_of locations) product
    ∙ total_ext (moved w locations test (quantity_out_of locations) product)
        (λ m. sel (counts w product m) (when_done test m.date_done) (quantity_out_of locations m))
        t.stock_move (λ m. (moved-part w locations test product m).1)

IsDated-All :
    (w : Wizard) (locations : List ℕ) (product : ℕ) (ms : List StockMove)
    → w.start_date ≤ w.end_date
    → All (IsDated w locations) ms
    → All
        (λ m.
          IsSplitLevel
            (counts w product m)
            (when_done (after_end w) m.date_done)
            (when_done (until w.end_date) m.date_done)
            (when_done (in_period w) m.date_done)
            (when_done (before w.start_date) m.date_done)
            (quantity_in_of locations m)
            (quantity_out_of locations m))
        ms
IsDated-All w locations product [] h hs = tt
IsDated-All w locations product (m ∷ ms) h (d, ds) =
    (move_levels w locations product m h d, IsDated-All w locations product ms h ds)

-- The row of a product that has such a total.
row_levels :
    (t : Tables) (w : Wizard) (locations : List ℕ) (product : ℕ) (quantity : ℤ)
    → w.start_date ≤ w.end_date
    → All (IsDated w locations) t.stock_move
    → quantity ≡ total (λ m. if counts w product m then net locations m else pos 0) t.stock_move
    → ((select_row t w locations (product, quantity)).end_quantity
        ≡ level t w locations (until w.end_date) product)
      × ((select_row t w locations (product, quantity)).start_quantity
          ≡ level t w locations (before w.start_date) product)
unfolding select_row
row_levels t w locations product quantity h dated q =
    let (e, s) =
      total_levels (counts w product) (λ m. when_done (after_end w) m.date_done)
        (λ m. when_done (until w.end_date) m.date_done) (λ m. when_done (in_period w) m.date_done)
        (λ m. when_done (before w.start_date) m.date_done) (quantity_in_of locations)
        (quantity_out_of locations) t.stock_move
        (IsDated-All w locations product t.stock_move h dated) in
    let end_level : (select_row t w locations (product, quantity)).end_quantity
        ≡ level t w locations (until w.end_date) product =
      rw
        (
          q,
          column_in t w locations (after_end w) product,
          column_out t w locations (after_end w) product,
        )
        e in
    (
      end_level,
      rw
          (
            end_level,
            column_in t w locations (in_period w) product,
            column_out t w locations (in_period w) product,
          )
          s,
    )

-- The stock that is counted now is what the moves brought.
abbrev pub IsCounted : Tables → Wizard → List ℕ → ℕ × ℤ → Type 0
IsCounted t w locations (product, quantity) =
    quantity ≡ total (λ m. if counts w product m then net locations m else pos 0) t.stock_move

-- The row's product has the stock levels that the moves give.
abbrev pub IsLevel : Tables → Wizard → List ℕ → Row → Type 0
IsLevel t w locations row =
    (product : ℕ) × (row.product_id ≡ some product)
    × (row.end_quantity ≡ level t w locations (until w.end_date) product)
    × (row.start_quantity ≡ level t w locations (before w.start_date) product)

map-select_row-IsLevel :
    (t : Tables) (w : Wizard) (locations : List ℕ) (ps : Dict ℕ ℤ)
    → w.start_date ≤ w.end_date
    → All (IsDated w locations) t.stock_move
    → All (IsCounted t w locations) ps
    → All (IsLevel t w locations) (map (select_row t w locations) ps)
unfolding select_row
map-select_row-IsLevel t w locations [] h dated qs = tt
map-select_row-IsLevel t w locations ((product, quantity) ∷ ps) h dated (q, qs) = (
  (
    product,
    refl,
    (row_levels t w locations product quantity h dated q).0,
    (row_levels t w locations product quantity h dated q).1,
  ),
  map-select_row-IsLevel t w locations ps h dated qs,
)

-- Where the period does not end before it starts, every move of the company from or to one of the
-- warehouse's locations has a date up to the beginning of today, and the stock counted for each
-- product is what those moves brought less what they took: every row that the query returns shows as
-- end quantity what the product's moves up to the end date gave, and as start quantity what its
-- moves before the start date gave.
pub query-IsLevel :
    (t : Tables) (w : Wizard) (warehouse : ℕ)
    → w.start_date ≤ w.end_date
    → All (IsDated w (location_data t w warehouse)) t.stock_move
    → All
        (IsCounted t w (location_data t w warehouse))
        (stock_quant_data t w (location_data t w warehouse))
    → All (IsLevel t w (location_data t w warehouse)) (query t w warehouse)
unfolding query
query-IsLevel t w warehouse h dated counted =
    map-select_row-IsLevel t w (location_data t w warehouse)
      (stock_quant_data t w (location_data t w warehouse)) h dated counted
