-- ===== src/Stock/Report.antt =====
-- The report of what came in and went out: a1_stock_report/wizards/in_out_stock_report.py. Each
-- common table of the query of `get_data` is a definition; a table grouped by product is a dict,
-- and a left join with COALESCE a lookup with a default.
pub mod Sheet
mod Moves
pub mod History
use hai_compnay.Common.{
  ℕ, List, [], ◌∷◌, ◌++◌, map, Option, none, some, Bool, true, false, if◌then◌else◌, filtered, any,
  ltb, leb, ◌==◌, ◌&&◌, ◌||◌, nat_key,
}
use hai_compnay.Common.Int.{ℤ, pos, ◌+ℤ◌, ◌-ℤ◌, ◌*ℤ◌, abs, ltb_ℤ}
use hai_compnay.Common.Dict.{Dict, get_or, lookup}
use hai_compnay.Common.Dict.Group.{accumulate}

pub record Location : Type 0 where
  pub id : ℕ
  pub company_id : ℕ
  pub warehouse_id : ℕ
  pub is_internal : Bool

pub record Quant : Type 0 where
  pub product_id : ℕ
  pub company_id : ℕ
  pub location_id : ℕ
  pub quantity : ℤ

-- A row of stock_move, with the date of its picking (`none` where it has no picking, or one that is
-- not done: SQL's NULL).
pub record StockMove : Type 0 where
  pub id : ℕ
  pub product_id : ℕ
  pub company_id : ℕ
  pub location_id : ℕ
  pub location_dest_id : ℕ
  pub quantity : ℤ
  pub date_done : Option ℕ

pub record Layer : Type 0 where
  pub stock_move_id : ℕ
  pub value : ℤ

pub record Cost : Type 0 where
  pub product_id : ℕ
  pub cost : ℤ

pub record Tables : Type 0 where
  pub stock_location : List Location
  pub stock_quant : List Quant
  pub stock_move : List StockMove
  pub stock_valuation_layer : List Layer
  pub sh_warehouse_cost : List Cost

-- The company and the times, in seconds: the first day's beginning, the last day's 23:59:59, and
-- the beginning of today.
pub record Wizard : Type 0 where
  pub company_id : ℕ
  pub start_date : ℕ
  pub end_date : ℕ
  pub today : ℕ

-- A row of the sheet; the row of totals has no product.
pub record Row : Type 0 where
  pub product_id : Option ℕ
  pub end_quantity : ℤ
  pub end_value : ℤ
  pub quantity_in : ℤ
  pub quantity_out : ℤ
  pub value_in : ℤ
  pub value_out : ℤ
  pub start_quantity : ℤ
  pub start_value : ℤ

abbrev pub mem : ℕ → List ℕ → Bool
mem i = any (λ j. i == j)

abbrev pub location_id_of : Location → ℕ
location_id_of l = l.id

-- location_data
unfoldable pub location_data : Tables → Wizard → ℕ → List ℕ
location_data t w warehouse = map location_id_of (
    filtered (λ l. (l.company_id == w.company_id) && l.is_internal && (l.warehouse_id == warehouse))
      t.stock_location)

abbrev pub product_of_quant : Quant → ℕ
product_of_quant q = q.product_id

abbrev pub quantity_of_quant : Quant → ℤ
quantity_of_quant q = q.quantity

-- stock_quant_data
unfoldable pub stock_quant_data : Tables → Wizard → List ℕ → Dict ℕ ℤ
stock_quant_data t w locations =
    accumulate product_of_quant quantity_of_quant []
      (filtered (λ q. (q.company_id == w.company_id) && mem q.location_id locations) t.stock_quant)

abbrev pub product_of_move : StockMove → ℕ
product_of_move m = m.product_id

-- The two sums' cases.
abbrev pub quantity_in_of : List ℕ → StockMove → ℤ
quantity_in_of locations m = if mem m.location_dest_id locations then m.quantity else pos 0

abbrev pub quantity_out_of : List ℕ → StockMove → ℤ
quantity_out_of locations m = if mem m.location_id locations then m.quantity else pos 0

-- A comparison with NULL is not true.
abbrev pub when_done : (ℕ → Bool) → Option ℕ → Bool
when_done test none = false
when_done test (some d) = test d

-- `date_done > end_date AND date_done <= today`, and `BETWEEN start_date AND end_date`
abbrev pub after_end : Wizard → ℕ → Bool
after_end w d = ltb w.end_date d && leb d w.today

abbrev pub in_period : Wizard → ℕ → Bool
in_period w d = leb w.start_date d && leb d w.end_date

-- The WHERE of the four tables over moves, with their test on the date.
abbrev pub is_moved : Wizard → List ℕ → (ℕ → Bool) → StockMove → Bool
is_moved w locations test m =
    (m.company_id == w.company_id)
    && when_done test m.date_done
    && (mem m.location_id locations || mem m.location_dest_id locations)

-- stock_move_quantity_end_current and stock_move_quantity_data: what came in, or went out.
unfoldable pub stock_move_quantity :
    Tables → Wizard → List ℕ → (ℕ → Bool) → (StockMove → ℤ) → Dict ℕ ℤ
stock_move_quantity t w locations test quantity =
    accumulate product_of_move quantity [] (filtered (is_moved w locations test) t.stock_move)

-- sh_warehouse_cost_data: `MAX(cost)` of a product, over all warehouses; 0 without a row.
abbrev pub max_of : Option ℤ → ℤ → Option ℤ
max_of none c = some c
max_of (some d) c = if ltb_ℤ d c then some c else some d

abbrev pub max_loop : Option ℤ → List Cost → Option ℤ
max_loop best [] = best
max_loop best (c ∷ cs) = max_loop (max_of best c.cost) cs

unfoldable pub sh_warehouse_cost_data : Tables → ℕ → ℤ
sh_warehouse_cost_data t product =
    get_or (max_loop none (filtered (λ c. c.product_id == product) t.sh_warehouse_cost)) (pos 0)

-- The rows of the join of moves and valuation layers: the move, and the layer's value.
abbrev pub with_move : StockMove → Layer → StockMove × ℤ
with_move m l = (m, l.value)

abbrev pub join_layers : List Layer → List StockMove → List (StockMove × ℤ)
join_layers layers [] = []
join_layers layers (m ∷ ms) =
    map (with_move m) (filtered (λ l. m.id == l.stock_move_id) layers) ++ join_layers layers ms

abbrev pub product_of_joined : StockMove × ℤ → ℕ
product_of_joined (m, v) = m.product_id

abbrev pub value_in_of : List ℕ → StockMove × ℤ → ℤ
value_in_of locations (m, v) = if mem m.location_dest_id locations then v else pos 0

abbrev pub value_out_of : List ℕ → StockMove × ℤ → ℤ
value_out_of locations (m, v) = if mem m.location_id locations then v else pos 0

-- stock_move_value_data, before its `ABS`.
unfoldable pub stock_move_value : Tables → Wizard → List ℕ → (StockMove × ℤ → ℤ) → Dict ℕ ℤ
stock_move_value t w locations value = accumulate product_of_joined value [] (
    join_layers t.stock_valuation_layer
      (filtered (is_moved w locations (in_period w)) t.stock_move))

abbrev pub coalesce : ℕ → Dict ℕ ℤ → ℤ
coalesce product d = get_or (lookup product d) (pos 0)

-- The columns that the query selects for a row of stock_quant_data.
unfoldable pub select_row : Tables → Wizard → List ℕ → ℕ × ℤ → Row
select_row t w locations (product, total_quantity) =
    let moved = stock_move_quantity t w locations in
    let end_quantity =
      total_quantity
      -ℤ coalesce product (moved (after_end w) (quantity_in_of locations))
      +ℤ coalesce product (moved (after_end w) (quantity_out_of locations)) in
    let quantity_in = coalesce product (moved (in_period w) (quantity_in_of locations)) in
    let quantity_out = coalesce product (moved (in_period w) (quantity_out_of locations)) in
    let value_in =
      abs (coalesce product (stock_move_value t w locations (value_in_of locations))) in
    let value_out =
      abs (coalesce product (stock_move_value t w locations (value_out_of locations))) in
    let end_value = end_quantity *ℤ sh_warehouse_cost_data t product in
    record {
      product_id = some product;
      end_quantity = end_quantity;
      end_value = end_value;
      quantity_in = quantity_in;
      quantity_out = quantity_out;
      value_in = value_in;
      value_out = value_out;
      start_quantity = end_quantity -ℤ quantity_in +ℤ quantity_out;
      start_value = end_value -ℤ value_in +ℤ value_out;
    }

-- The rows that the query returns.
unfoldable pub query : Tables → Wizard → ℕ → List Row
query t w warehouse =
    let locations = location_data t w warehouse in
    map (select_row t w locations) (stock_quant_data t w locations)

-- The totals, one column at a time.
abbrev pub add_row : Row → Row → Row
add_row totals row = record {
  product_id = none;
  end_quantity = totals.end_quantity +ℤ row.end_quantity;
  end_value = totals.end_value +ℤ row.end_value;
  quantity_in = totals.quantity_in +ℤ row.quantity_in;
  quantity_out = totals.quantity_out +ℤ row.quantity_out;
  value_in = totals.value_in +ℤ row.value_in;
  value_out = totals.value_out +ℤ row.value_out;
  start_quantity = totals.start_quantity +ℤ row.start_quantity;
  start_value = totals.start_value +ℤ row.start_value;
}

abbrev pub no_totals : Row
no_totals = record {
  product_id = none;
  end_quantity = pos 0;
  end_value = pos 0;
  quantity_in = pos 0;
  quantity_out = pos 0;
  value_in = pos 0;
  value_out = pos 0;
  start_quantity = pos 0;
  start_value = pos 0;
}

unfoldable pub totals_loop : Row → List Row → Row
totals_loop totals [] = totals
totals_loop totals (row ∷ rows) = totals_loop (add_row totals row) rows

-- `get_data`: the row of totals, then the products'.
unfoldable pub get_data : Tables → Wizard → ℕ → List Row
get_data t w warehouse = let rows = query t w warehouse in totals_loop no_totals rows ∷ rows
