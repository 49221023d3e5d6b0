-- ===== src/Transfer/Purchase.antt =====
-- The purchase order between companies that a request leads to: models/stock_transfer_request.py
-- (`_create_purchase_order_inter_company`, for what a request asks) and models/stock_picking.py (for
-- what a picking moves). An amount of money is a fraction, a numerator over a denominator.
pub mod Priced
use hai_compnay.Common.{
  ℕ, List, [], ◌∷◌, Option, none, some, Bool, true, false, Result, ok, err, ◌>>=◌, ◌>>◌, raise_if,
  is_nonempty, if◌then◌else◌, ◌&&◌,
}
use hai_compnay.Common.Int.{ℤ, pos, ◌+ℤ◌, ◌*ℤ◌, eqb_ℤ, total}
use hai_compnay.Common.Dict.{Dict}
use hai_compnay.Transfer.Model.{Request, Picking, Env, Error, no_price, attribute_error}
use hai_compnay.Transfer.Status.{is_missing}
use hai_compnay.Transfer.Available.{
  get_product_request_total_qty, get_product_export_total_qty, validate_request_available_qty,
  validate_picking_available_qty,
}

pub record Fraction : Type 0 where
  pub numerator : ℤ
  pub denominator : ℤ

pub record OrderLine : Type 0 where
  pub product_id : ℕ
  pub product_qty : ℤ
  pub taxes_id : List ℕ
  pub price_unit : Fraction
  pub product_uom : ℕ

-- What the code reads of Odoo, for the companies of a request: the request's date; the seller's price of a product for a
-- quantity, today (`_select_seller`), the price of the pricelist (`_get_product_price`), the supplier taxes
-- of the company, the amounts of the source company's included taxes, in percent, the unit of a product,
-- whether the company is a household company, the partner of the source company, and the first
-- incoming picking type of a location's warehouse.
pub record Market : Type 0 where
  pub request_date : Option ℕ
  pub select_seller : ℕ → ℤ → Option ℤ
  pub get_product_price : ℕ → ℤ → Option ℤ
  pub supplier_taxes_id : ℕ → List ℕ
  pub included_tax_amounts : ℕ → List ℤ
  pub uom_id : ℕ → ℕ
  pub is_household_company : Bool
  pub source_partner : ℕ
  pub incoming_picking_type : ℕ → Option ℕ

-- A round of the loop of both `_prepare_purchase_order_line`s: the line, or the product if there is
-- no price, before what the further rounds give.
abbrev pub add_line : ℕ → Option OrderLine → List OrderLine × List ℕ → List OrderLine × List ℕ
add_line product none (order_lines, unpriced) = (order_lines, product ∷ unpriced)
add_line product (some line) (order_lines, unpriced) = (line ∷ order_lines, unpriced)

unfoldable pub order_lines_loop : (ℕ × ℤ → Option OrderLine) → Dict ℕ ℤ → List OrderLine × List ℕ
order_lines_loop line_of [] = ([], [])
order_lines_loop line_of ((product, qty) ∷ quantities) =
    add_line product (line_of (product, qty)) (order_lines_loop line_of quantities)

unfoldable pub prepare_order_lines :
    (ℕ × ℤ → Option OrderLine) → Dict ℕ ℤ → Result Error (List OrderLine)
prepare_order_lines line_of quantities =
    let (order_lines, unpriced) = order_lines_loop line_of quantities in
    raise_if (is_nonempty unpriced) (no_price unpriced) >> ok order_lines

-- The values that both functions append for a product.
abbrev pub order_line : Market → ℕ → ℤ → Fraction → OrderLine
order_line market product qty price = record {
  product_id = product;
  product_qty = qty;
  taxes_id = market.supplier_taxes_id product;
  price_unit = price;
  product_uom = market.uom_id product;
}

-- One round of `StockTransferRequest._prepare_purchase_order_line`.
abbrev pub seller_line : Market → ℕ × ℤ → Option OrderLine
seller_line market (product, qty) = elim (market.select_seller product qty) [
  | none ↦ none
  | some price ↦
      some (order_line market product qty record { numerator = price; denominator = pos 1 })
]

-- `StockTransferRequest._prepare_purchase_order_line`: `self.request_date.date()` in the first round
-- wants a date, and what follows it is `date.today()`.
unfoldable pub prepare_purchase_order_line : Market → Dict ℕ ℤ → Result Error (List OrderLine)
prepare_purchase_order_line market quantities =
    raise_if (is_nonempty quantities && is_missing market.request_date) attribute_error
    >> prepare_order_lines (seller_line market) quantities

-- `export_qty or 1.0`
abbrev pub or_one : ℤ → ℤ
or_one qty = if eqb_ℤ qty (pos 0) then pos 1 else qty

-- One round of `StockPicking._prepare_purchase_order_line`; `unit_price / (1 + sum(…) / 100)` where
-- the company is a household company.
abbrev pub pricelist_line : Market → ℕ × ℤ → Option OrderLine
pricelist_line market (product, qty) = elim (market.get_product_price product (or_one qty)) [
  | none ↦ none
  | some unit_price ↦
      let price_unit_exclude_tax : Fraction = record {
        numerator = unit_price *ℤ pos 100;
        denominator = pos 100 +ℤ total (λ amount. amount) (market.included_tax_amounts product);
      } in
      some (
        order_line market product qty (
          if market.is_household_company
          then price_unit_exclude_tax
          else record { numerator = unit_price; denominator = pos 1 }))
]

-- The values of the order; the date and the company are left out.
pub record PurchaseVals : Type 0 where
  pub partner_id : ℕ
  pub x_stock_transfer_request_id : ℕ
  pub picking_type_id : Option ℕ
  pub order_line : List OrderLine

-- `_prepare_purchase_order_values` of the request, and of one of its pickings: the location is the
-- request's, or the picking's.
unfoldable pub prepare_purchase_order_values : Market → Request → ℕ → List OrderLine → PurchaseVals
prepare_purchase_order_values market r location lines = record {
  partner_id = market.source_partner;
  x_stock_transfer_request_id = r.id;
  picking_type_id = market.incoming_picking_type location;
  order_line = lines;
}

-- `_create_purchase_order_inter_company`, up to the values of the order that is created.
unfoldable pub create_purchase_order_inter_company :
    Env → Market → ℕ → Request → Result Error PurchaseVals
create_purchase_order_inter_company env market source_warehouse r = do
  let quantities = get_product_request_total_qty r
  validate_request_available_qty env source_warehouse quantities
  order_lines ← prepare_purchase_order_line market quantities
  ok (prepare_purchase_order_values market r (env.lot_stock_id r.transfer_warehouse_id) order_lines)

-- `_create_inter_company_purchase` on a picking that it does not skip, up to the values of the order
-- that is created.
unfoldable pub create_inter_company_purchase :
    Env → Market → ℕ → Request → Picking → Result Error PurchaseVals
create_inter_company_purchase env market source_warehouse r p = do
  let quantities = get_product_export_total_qty p
  validate_picking_available_qty env source_warehouse quantities
  order_lines ← prepare_order_lines (pricelist_line market) quantities
  ok (prepare_purchase_order_values market r p.location_id order_lines)
