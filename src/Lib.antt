-- ===== src/Lib.antt =====
-- Verification of the A1 add-ons for Odoo 18: requests that move stock between warehouses,
-- returns of sales and purchases, moves for taxes that the company pays for a vendor, the payment
-- status of sale orders, the codes of products and the report of the stock.
--
-- How the parts interact. A transfer request (a1_stock_transfer_request) is posted and approved
-- by a manager and an area manager; the approval makes pickings into a transit location, their
-- validation makes pickings out of it, and the pickings' states move the request on to in transit
-- and done. A return (a1_sale_return, a1_purchase_return) is an order that a wizard makes from
-- the delivered or received lines of other orders. When vendor bills are posted, a1_account makes
-- further moves that owe a tax to the tax authority. A sale order's payment status follows from
-- its posted invoices (a1_sale). Products get their internal references and bar codes in
-- a1_product. The report of a1_stock_report reads the stock, the
-- moves and their values from the database. The parts share lists, dicts, integers and raised errors (Common), and no state.
--
-- Which file models what:
--   Transfer/Model        the records and states: models/stock_transfer_request.py,
--                         stock_transfer_request_line.py, stock_picking.py and stock_move.py of
--                         a1_stock_transfer_request
--   Transfer/Lines        quantities and values of a line: stock_transfer_request_line.py
--                         (`_compute_quantity`, `_prepare_stock_move_vals`)
--   Transfer/Status       the buttons, checks and `_check_and_update_state`:
--                         stock_transfer_request.py, wizards/reject_stock_transfer_request.py
--   Transfer/Outgoing     `action_am_approve` and the pickings it makes: stock_transfer_request.py
--   Transfer/Available    the checks of the stock in a warehouse: `_validate_available_qty` of
--                         stock_transfer_request.py and stock_picking.py
--   Transfer/Incoming     `_create_picking_in` and what validation calls: stock_picking.py
--   Transfer/Lots         the loop there that copies lots to the new picking
--   Transfer/Purchase     orders between companies: `_create_purchase_order_inter_company` of
--                         stock_transfer_request.py, `_create_inter_company_purchase` of
--                         stock_picking.py, up to the values of the order
--   Transfer/Import       what `load` checks and `create` fills in: stock_transfer_request.py
--   Transfer/Lifecycle    the calls on one request as a step relation
--   Returns/Wizard        the loops of a1_sale_return/wizard/sale_return_wizard.py
--   Returns/Sale          that wizard's values
--   Returns/Returned      `_compute_returned_qty` of both kinds of order lines
--   Returns/Purchase      a1_purchase_return/wizard/purchase_return_wizard.py
--   Returns/Bill          a1_purchase_return/wizard/purchase_bill_return_wizard.py
--   Returns/Picking       wizard/stock_return_picking.py of a1_stock_return_picking, a1_sale_return
--                         and a1_purchase_return
--   Returns/Orders        `button_confirm` and the check of products of
--                         a1_purchase_return/models/purchase_order.py
--   Returns/Cost          a1_purchase_return/models/account_move_line.py and, of account_move.py
--                         beside it, `_create_diff_cog_return_invoice`
--   Returns/Cascade       `button_draft` and `button_cancel` there
--   Returns/SaleOrders    return orders: models/sale_order.py, sale_order_line.py and stock_rule.py
--                         of a1_sale_return
--   Returns/Valuation     `_prepare_common_svl_vals`: a1_sale_return/models/stock_move.py
--   Account/TaxSubstitute `_post` and what it calls: a1_account/models/account_move.py
--   Sale/Payment          `_compute_x_payment_status`: a1_sale/models/sale_order.py
--   Sale/Words            amounts in words: a1_sale/models/convert_amount_in_words.py
--   Product/Ean13, Product/DefaultCode
--                         a1_product/models/product_product.py
--   Stock/Report          `get_data`: a1_stock_report/wizards/in_out_stock_report.py
--   Stock/Lot             names of lots: a1_stock/models/stock_lot.py, stock_move.py
--   Stock/Picking         checks and dates of pickings: a1_stock/models/stock_picking.py
--   Stock/Channel         job channels: a1_stock_account/models/stock_valuation_layer.py
-- The files below each of these hold its theorems; the files named Tests and those below them run
-- the theorems at small inputs.
--
-- State. A recordset is a list of records, a record's fields are the fields of the source that
-- the code reads or writes, and a call that writes returns the new records. What a method looks
-- up in the database (locations, warehouses, stock on hand, picking types) is the record `Env` of
-- Transfer/Model or an argument; new records get their identifiers from counters (`Ids`), which
-- stand for the database's sequences. A method that raises returns `err`, and then keeps no
-- state, as Odoo rolls the transaction back.
--
-- Numbers. Quantities, amounts and rates are integers in the smallest unit of their decimal
-- precision, where the source has floats: rounding is not modelled, and conversions by a rate are
-- parameters (`Convert` of Returns/Cost). `str` of Common/Decimal runs on fuel one above the
-- number, which is enough because each step divides by 10, and `convert` of Sale/Words on the
-- same fuel, dividing by 1000. The names of lots are made on fuel 2, for a call that calls itself
-- once at most. All other recursion is structural.
--
-- Not modelled: Odoo itself (its create, write, _action_confirm and button_validate are
-- parameters or the framework's meaning of them), views, translations, printed reports and
-- spreadsheets, user messages' texts beyond the values they show, access rights, the add-ons
-- queue_job and sh_warehouse_avg_costing, which are other projects', and, of this repository's
-- own code, the link from a picking to the orders that return it, the return of a purchase's picking, what happens to an order
-- between companies after its values are made, the rest of sale and purchase orders, and
-- stock valuation.
pub mod Common
pub mod Transfer
pub mod Returns
pub mod Account
pub mod Product
pub mod Sale
pub mod Stock
