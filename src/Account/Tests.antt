-- ===== src/Account/Tests.antt =====
-- The theorems on the accounting part at a small input: two bills and an entry.
use hai_compnay.Common.{ℕ, List, [], ◌∷◌, none, some, ◌≡◌, refl, ◌↔◌, ok, All}
use hai_compnay.Common.Int.{pos, negsuc, ◌+ℤ◌, total}
use hai_compnay.Account.TaxSubstitute.{
  MoveType, MoveLine, Move, TaxProduct, MoveVals, LineVals, post, post_record, get_list_by_partner,
  prepare_tax_payment_substitute_move, prepare_tax_payment_substitute_move_lines,
  prepare_credit_tax_payment_substitute_move_lines,
}
use hai_compnay.Account.TaxSubstitute.Owed.{
  IsBalanced, owed, due_of_line, substitute_lines, IsPayable, post-owed, post_iff,
}

abbrev product : TaxProduct
product = record {
  id = 9;
  property_account_expense_id = some 642;
  x_property_tax_payment_substitute_account_id = some 3335;
}

abbrev taxed : ℕ → ℕ → MoveLine
taxed authority amount = record {
  tax_name = 1;
  tax_amount = negsuc 4;
  x_tax_authority_id = some authority;
  credit = pos amount;
}

abbrev untaxed : ℕ → MoveLine
untaxed amount = record {
  tax_name = 0;
  tax_amount = pos 0;
  x_tax_authority_id = none;
  credit = pos amount;
}

abbrev bill : ℕ → MoveType → List MoveLine → Move
bill id type ls = record {
  id = id;
  name = id;
  move_type = type;
  journal_id = 2;
  company_id = 1;
  currency_id = 23;
  date = 20240101;
  x_exchange_rate = pos 1;
  line_ids = ls;
}

abbrev moves : List Move
moves =
    bill 70 MoveType.in_invoice (taxed 4 50 ∷ untaxed 900 ∷ taxed 5 20 ∷ taxed 4 30 ∷ [])
    ∷ bill 71 MoveType.entry (taxed 4 10 ∷ [])
    ∷ bill 72 MoveType.in_invoice (untaxed 100 ∷ [])
    ∷ []

abbrev paid : ℕ → List LineVals → MoveVals
paid authority ls = record {
  partner_id = authority;
  journal_id = 2;
  company_id = 1;
  currency_id = 23;
  invoice_date = 20240101;
  x_tax_payment_substitute_id = 70;
  date = 20240101;
  ref = 70;
  line_ids = ls;
  x_exchange_rate = pos 1;
}

abbrev debit_line : ℕ → LineVals
debit_line n = record {
  product_id = 9;
  account_id = some 642;
  debit = pos n;
  credit = pos 0;
  price_unit = some (pos n);
}

abbrev credit_line : ℕ → LineVals
credit_line n = record {
  product_id = 9;
  account_id = some 3335;
  debit = pos 0;
  credit = pos n;
  price_unit = none;
}

abbrev made : List MoveVals
made =
    paid 4 (debit_line 50 ∷ debit_line 30 ∷ credit_line 80 ∷ [])
    ∷ paid 5 (debit_line 20 ∷ credit_line 20 ∷ [])
    ∷ []

post_iff_example :
    ((vals : List MoveVals) × (post product moves ≡ ok vals)) ↔ All (IsPayable product) moves
post_iff_example = post_iff product moves

made_by_post : post product moves ≡ ok made
unfolding post post_record get_list_by_partner prepare_tax_payment_substitute_move
    prepare_tax_payment_substitute_move_lines prepare_credit_tax_payment_substitute_move_lines ◌+ℤ◌
made_by_post = refl

post-owed_example :
    All IsBalanced made × ((a : ℕ) → owed a made ≡ total (due_of_line a) (substitute_lines moves))
post-owed_example = post-owed product moves made made_by_post
