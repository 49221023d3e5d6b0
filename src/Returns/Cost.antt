-- ===== src/Returns/Cost.antt =====
-- Cost differences of purchase returns: `_prepare_cog_return_move_line` and
-- `_prepare_pdiff_cog_aml_vals` of a1_purchase_return/models/account_move_line.py, and
-- `_create_diff_cog_return_invoice` of a1_purchase_return/models/account_move.py.
pub mod Balanced
use hai_compnay.Common.{
  ℕ, List, [], ◌∷◌, ◌++◌, Option, none, some, Bool, true, false, Result, ok, err, ◌>>=◌,
  if◌then◌else◌, filtered, is_nonempty, not, ◌&&◌,
}
use hai_compnay.Common.Int.{ℤ, pos, ◌-ℤ◌, ◌*ℤ◌, abs, ltb_ℤ, leb_ℤ, eqb_ℤ}

-- A line of a vendor's refund. `layers` holds the unit prices of the valuation layers that the
-- method finds for it, `valued` says that it has a product whose costing is not standard.
pub record RefundLine : Type 0 where
  pub id : ℕ
  pub partner_id : ℕ
  pub currency_id : ℕ
  pub product_id : ℕ
  pub product_uom_id : ℕ
  pub purchase_line_id : ℕ
  pub product_account_id : ℕ
  pub quantity : ℤ
  pub gross_unit_price : ℤ
  pub layers : List ℤ
  pub valued : Bool

-- What Odoo computes with fractions: whether a quantity is zero to the unit's rounding, conversions
-- between the line's and the company's currency and between the line's and the product's unit (of a
-- price and of a quantity), and the rounding of an amount.
pub record Convert : Type 0 where
  pub float_is_zero : RefundLine → ℤ → Bool
  pub to_company_currency : RefundLine → ℤ → ℤ
  pub to_line_currency : RefundLine → ℤ → ℤ
  pub price_to_product_uom : RefundLine → ℤ → ℤ
  pub price_to_line_uom : RefundLine → ℤ → ℤ
  pub quantity_to_product_uom : RefundLine → ℤ → ℤ
  pub round : ℤ → ℤ

pub record Company : Type 0 where
  pub x_diff_cog_return_expense_id : Option ℕ
  pub x_diff_cog_return_income_id : Option ℕ

-- A journal item; the side that the source leaves out is 0.
pub record AmlVals : Type 0 where
  pub partner_id : ℕ
  pub currency_id : ℕ
  pub product_id : ℕ
  pub product_uom_id : ℕ
  pub purchase_line_id : ℕ
  pub debit : ℤ
  pub credit : ℤ
  pub account_id : ℕ

pub data CostError : Type 0 where
  no_expense_account no_income_account : CostError

abbrev pub aml_vals : RefundLine → ℤ → ℤ → ℕ → AmlVals
aml_vals line debit credit account = record {
  partner_id = line.partner_id;
  currency_id = line.currency_id;
  product_id = line.product_id;
  product_uom_id = line.product_uom_id;
  purchase_line_id = line.purchase_line_id;
  debit = debit;
  credit = credit;
  account_id = account;
}

abbrev pub balance_of : Convert → RefundLine → ℤ → ℤ → ℤ
balance_of c line aml_qty difference_curr =
    c.round (c.to_company_currency line (aml_qty *ℤ difference_curr))

unfoldable pub prepare_pdiff_cog_aml_vals : Convert → RefundLine → ℤ → ℤ → ℕ → List AmlVals
prepare_pdiff_cog_aml_vals c line aml_qty difference_curr account =
    let balance = balance_of c line aml_qty difference_curr in
    let debit_account = if leb_ℤ (pos 0) balance then account else line.product_account_id in
    let credit_account = if ltb_ℤ balance (pos 0) then account else line.product_account_id in
    aml_vals line (abs balance) (pos 0) debit_account
    ∷ aml_vals line (pos 0) (abs balance) credit_account
    ∷ []

-- The difference of a unit's value in the layer to its price on the line, in the company's currency.
abbrev pub unit_valuation_difference : Convert → RefundLine → ℤ → ℤ
unit_valuation_difference c line layer_price =
    abs layer_price
    -ℤ c.price_to_product_uom line (c.to_company_currency line (abs line.gross_unit_price))

-- The items of a line whose first layer has this price.
unfoldable pub layer_vals : Convert → ℕ → ℕ → RefundLine → ℤ → List AmlVals
layer_vals c expense income line layer_price =
    let difference = unit_valuation_difference c line layer_price in
    let difference_curr = c.price_to_line_uom line (c.to_line_currency line difference) in
    if eqb_ℤ difference (pos 0)
    then []
    else prepare_pdiff_cog_aml_vals c line (c.quantity_to_product_uom line line.quantity)
        difference_curr (if ltb_ℤ (pos 0) difference_curr then expense else income)

abbrev pub layers_vals : Convert → ℕ → ℕ → RefundLine → List ℤ → List AmlVals
layers_vals c expense income line [] = []
layers_vals c expense income line (layer ∷ layers) = layer_vals c expense income line layer

-- The loop of `_prepare_cog_return_move_line`.
unfoldable pub cog_loop : Convert → ℕ → ℕ → List RefundLine → List AmlVals
cog_loop c expense income [] = []
cog_loop c expense income (line ∷ lines) =
    (if c.float_is_zero line line.quantity
      then []
      else layers_vals c expense income line line.layers)
    ++ cog_loop c expense income lines

unfoldable pub prepare_cog_return_move_line :
    Convert → Company → List RefundLine → Result CostError (List AmlVals)
prepare_cog_return_move_line c company lines = elim company.x_diff_cog_return_expense_id [
  | none ↦ err no_expense_account
  | some expense ↦ elim company.x_diff_cog_return_income_id [
    | none ↦ err no_income_account
    | some income ↦ ok (cog_loop c expense income lines)
  ]
]

-- A posted move; `first_order_is_return` says that the first purchase order of its lines is a return.
pub record Invoice : Type 0 where
  pub id : ℕ
  pub is_in_refund : Bool
  pub first_order_is_return : Bool
  pub invoice_line_ids : List RefundLine

-- The new move: its items and the invoice that it comes from.
pub record CogMove : Type 0 where
  pub x_origin_cog_move_id : ℕ
  pub line_ids : List AmlVals

abbrev pub valued_lines : Invoice → List RefundLine
valued_lines invoice =
    if invoice.first_order_is_return then filtered (λ l. l.valued) invoice.invoice_line_ids else []

abbrev pub cog_moves : Invoice → List AmlVals → List CogMove
cog_moves invoice [] = []
cog_moves invoice (v ∷ vs) = record { x_origin_cog_move_id = invoice.id; line_ids = v ∷ vs } ∷ []

unfoldable pub create_diff_cog_return_invoice :
    Convert → Company → List Invoice → Result CostError (List CogMove)
create_diff_cog_return_invoice c company [] = ok []
create_diff_cog_return_invoice c company (invoice ∷ invoices) =
    let rest = create_diff_cog_return_invoice c company invoices in
    if not (invoice.is_in_refund && is_nonempty (valued_lines invoice))
    then rest
    else (prepare_cog_return_move_line c company (valued_lines invoice) >>= λ vals.
        rest >>= λ moves. ok (cog_moves invoice vals ++ moves))
