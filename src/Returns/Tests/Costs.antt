-- ===== src/Returns/Tests/Costs.antt =====
-- The theorems on cost differences at a small input: a refund of 3 units at 90 that were valued at
-- 100 a unit.
use hai_compnay.Common.{
  ℕ, List, [], ◌∷◌, ◌++◌, map, none, some, ◌≡◌, refl, sym, ap, ◌∙◌, arith, Result, ok, ok-injective,
  All, Bool, true, false, if◌then◌else◌,
}
use hai_compnay.Common.Int.{ℤ, pos, ◌-ℤ◌, ◌*ℤ◌, abs, eqb_ℤ}
use hai_compnay.Returns.Cost.{
  RefundLine, Convert, Company, AmlVals, prepare_pdiff_cog_aml_vals, layer_vals, CostError,
  cog_loop, prepare_cog_return_move_line, Invoice, CogMove, create_diff_cog_return_invoice,
}
use hai_compnay.Returns.Cost.Balanced.{IsSound, create_diff_cog_return_invoice-IsSound}
use hai_compnay.Returns.Cascade.{
  AccountMove, MoveState, mem, button_draft, action_back_cog_move_draft, back_cog_move,
}
use hai_compnay.Returns.Cascade.Undone.{key, KeepsKeys}
use hai_compnay.Returns.Cascade.Restored.{numbered, create_diff_cog_return_invoice-button_draft}

abbrev line : RefundLine
line = record {
  id = 1;
  partner_id = 3;
  currency_id = 23;
  product_id = 5;
  product_uom_id = 1;
  purchase_line_id = 40;
  product_account_id = 3388;
  quantity = pos 3;
  gross_unit_price = pos 90;
  layers = pos 100 ∷ [];
  valued = true;
}

-- One currency and one unit.
abbrev same_units : Convert
same_units = record {
  float_is_zero = λ l q. eqb_ℤ q (pos 0);
  to_company_currency = λ l x. x;
  to_line_currency = λ l x. x;
  price_to_product_uom = λ l x. x;
  price_to_line_uom = λ l x. x;
  quantity_to_product_uom = λ l x. x;
  round = λ x. x;
}

abbrev company : Company
company = record { x_diff_cog_return_expense_id = some 632; x_diff_cog_return_income_id = some 711 }

abbrev invoices : List Invoice
invoices =
    record {
      id = 80;
      is_in_refund = true;
      first_order_is_return = true;
      invoice_line_ids = line ∷ [];
    }
    ∷ []

abbrev item : ℤ → ℤ → ℕ → AmlVals
item debit credit account = record {
  partner_id = 3;
  currency_id = 23;
  product_id = 5;
  product_uom_id = 1;
  purchase_line_id = 40;
  debit = debit;
  credit = credit;
  account_id = account;
}

abbrev moves : List CogMove
moves =
    record {
      x_origin_cog_move_id = 80;
      line_ids = item (pos 30) (pos 0) 632 ∷ item (pos 0) (pos 30) 3388 ∷ [];
    }
    ∷ []

made : create_diff_cog_return_invoice same_units company invoices ≡ ok moves
unfolding create_diff_cog_return_invoice prepare_cog_return_move_line cog_loop layer_vals
    prepare_pdiff_cog_aml_vals abs ◌-ℤ◌ ◌*ℤ◌
made = refl

create_diff_cog_return_invoice-IsSound_example : All (IsSound invoices) moves
create_diff_cog_return_invoice-IsSound_example =
    create_diff_cog_return_invoice-IsSound same_units company invoices moves made

-- What stands for Odoo's method: the moves are drafts then.
abbrev drafted : List ℕ → AccountMove → AccountMove
drafted ids m = if mem m.id ids then record m { state = MoveState.draft } else m

abbrev draft_all : List ℕ → List AccountMove → Result CostError (List AccountMove)
draft_all ids db = ok (map (drafted ids) db)

key-drafted :
    (b : Bool) (m : AccountMove)
    → key (if b then record m { state = MoveState.draft } else m) ≡ key m
key-drafted true m = refl
key-drafted false m = refl

map-drafted : (ids : List ℕ) (db : List AccountMove) → map key (map (drafted ids) db) ≡ map key db
map-drafted ids [] = refl
map-drafted ids (m ∷ ms) =
    ap (λ k. k ∷ map key (map (drafted ids) ms)) (key-drafted (mem m.id ids) m)
    ∙ ap (λ ks. key m ∷ ks) (map-drafted ids ms)

draft_all-KeepsKeys : KeepsKeys draft_all
draft_all-KeepsKeys ids db db' done = ap (map key) (sym (ok-injective done)) ∙ map-drafted ids db

abbrev before : List AccountMove
before = record { id = 80; state = MoveState.posted; x_origin_cog_move_id = none } ∷ []

abbrev after : List AccountMove
after = record { id = 80; state = MoveState.draft; x_origin_cog_move_id = none } ∷ []

undone : button_draft draft_all false (80 ∷ []) (before ++ numbered 81 moves) ≡ ok after
unfolding button_draft action_back_cog_move_draft back_cog_move
undone = refl

create_diff_cog_return_invoice-button_draft_example : map key after ≡ map key before
create_diff_cog_return_invoice-button_draft_example =
    create_diff_cog_return_invoice-button_draft draft_all same_units company invoices moves 81
      before after draft_all-KeepsKeys refl made (((λ e. omega arith), tt), (tt, tt)) undone
