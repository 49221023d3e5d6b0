-- ===== src/Account/TaxSubstitute.antt =====
-- Taxes that a company pays for its vendor: `_post` of a1_account/models/account_move.py and what it
-- calls. For each vendor bill, `_post` makes one move per tax authority from the bill's journal
-- items whose tax has a negative rate.
pub mod Balance
pub mod Owed
use hai_compnay.Common.{
  ℕ, List, [], ◌∷◌, ◌++◌, map, Option, none, some, Bool, true, false, Result, ok, err, ◌>>=◌, ◌>>◌,
  raise_if, if◌then◌else◌, filtered, is_nonempty, not, ◌&&◌, nat_key,
}
use hai_compnay.Common.Int.{ℤ, pos, ltb_ℤ, sum_of}
use hai_compnay.Common.Dict.{Dict, modify}

pub data MoveType : Type 0 where
  entry in_invoice in_refund out_invoice out_refund : MoveType

abbrev pub is_in_invoice : MoveType → Bool
is_in_invoice MoveType.in_invoice = true
is_in_invoice _ = false

-- A journal item. `tax_amount` is the rate of its tax (0 without one), `x_tax_authority_id` the
-- authority that the tax goes to.
pub record MoveLine : Type 0 where
  pub tax_name : ℕ
  pub tax_amount : ℤ
  pub x_tax_authority_id : Option ℕ
  pub credit : ℤ

pub record Move : Type 0 where
  pub id : ℕ
  pub name : ℕ
  pub move_type : MoveType
  pub journal_id : ℕ
  pub company_id : ℕ
  pub currency_id : ℕ
  pub date : ℕ
  pub x_exchange_rate : ℤ
  pub line_ids : List MoveLine

pub record TaxProduct : Type 0 where
  pub id : ℕ
  pub property_account_expense_id : Option ℕ
  pub x_property_tax_payment_substitute_account_id : Option ℕ

-- The values of a journal item of the new move; its tax is always empty.
pub record LineVals : Type 0 where
  pub product_id : ℕ
  pub account_id : Option ℕ
  pub debit : ℤ
  pub credit : ℤ
  pub price_unit : Option ℤ

-- The values of a new move, a vendor bill.
pub record MoveVals : Type 0 where
  pub partner_id : ℕ
  pub journal_id : ℕ
  pub company_id : ℕ
  pub currency_id : ℕ
  pub invoice_date : ℕ
  pub x_tax_payment_substitute_id : ℕ
  pub date : ℕ
  pub ref : ℕ
  pub line_ids : List LineVals
  pub x_exchange_rate : ℤ

pub data Error : Type 0 where
  accounts_not_set : Error
  authority_not_set : List ℕ → Error

abbrev pub is_substitute : MoveLine → Bool
is_substitute l = ltb_ℤ l.tax_amount (pos 0)

abbrev pub credit_of : MoveLine → ℤ
credit_of l = l.credit

-- One round of the loop of `_get_list_by_partner`, for a line with this authority: the groups and the
-- names of the taxes without one.
abbrev pub by_partner_step :
    Dict ℕ (List MoveLine) → List ℕ → MoveLine → Option ℕ → Dict ℕ (List MoveLine) × List ℕ
by_partner_step d errs l none = (d, errs ++ l.tax_name ∷ [])
by_partner_step d errs l (some partner) = (modify partner (λ ls. ls ++ l ∷ []) [] d, errs)

unfoldable pub by_partner_loop :
    Dict ℕ (List MoveLine) → List ℕ → List MoveLine → Dict ℕ (List MoveLine) × List ℕ
by_partner_loop d errs [] = (d, errs)
by_partner_loop d errs (l ∷ ls) =
    let (d', errs') = by_partner_step d errs l l.x_tax_authority_id in by_partner_loop d' errs' ls

unfoldable pub get_list_by_partner : List MoveLine → Result Error (Dict ℕ (List MoveLine))
unfolding by_partner_loop
get_list_by_partner ls =
    let (d, errs) = by_partner_loop [] [] ls in
    raise_if (is_nonempty errs) (authority_not_set errs) >> ok d

abbrev pub debit_val : TaxProduct → MoveLine → LineVals
debit_val product l = record {
  product_id = product.id;
  account_id = product.property_account_expense_id;
  debit = l.credit;
  credit = pos 0;
  price_unit = some l.credit;
}

unfoldable pub prepare_credit_tax_payment_substitute_move_lines :
    List MoveLine → TaxProduct → LineVals
prepare_credit_tax_payment_substitute_move_lines ls product = record {
  product_id = product.id;
  account_id = product.x_property_tax_payment_substitute_account_id;
  debit = pos 0;
  credit = sum_of credit_of ls;
  price_unit = none;
}

unfoldable pub prepare_tax_payment_substitute_move_lines :
    List MoveLine → TaxProduct → List LineVals
prepare_tax_payment_substitute_move_lines ls product =
    map (debit_val product) ls ++ prepare_credit_tax_payment_substitute_move_lines ls product ∷ []

unfoldable pub prepare_tax_payment_substitute_move :
    Move → TaxProduct → ℕ × List MoveLine → MoveVals
prepare_tax_payment_substitute_move move product (partner, ls) = record {
  partner_id = partner;
  journal_id = move.journal_id;
  company_id = move.company_id;
  currency_id = move.currency_id;
  invoice_date = move.date;
  x_tax_payment_substitute_id = move.id;
  date = move.date;
  ref = move.name;
  line_ids = prepare_tax_payment_substitute_move_lines ls product;
  x_exchange_rate = move.x_exchange_rate;
}

abbrev pub is_set : Option ℕ → Bool
is_set none = false
is_set (some a) = true

abbrev pub has_accounts : TaxProduct → Bool
has_accounts product = elim product.property_account_expense_id [
  | none ↦ false
  | some expense ↦ is_set product.x_property_tax_payment_substitute_account_id
]

-- The moves for one record of `_post`.
unfoldable pub post_record : TaxProduct → Move → Result Error (List MoveVals)
post_record product move =
    if is_in_invoice move.move_type && is_nonempty (filtered is_substitute move.line_ids)
    then (raise_if (not (has_accounts product)) accounts_not_set
        >> (get_list_by_partner (filtered is_substitute move.line_ids) >>= λ groups.
            ok (map (prepare_tax_payment_substitute_move move product) groups)))
    else ok []

-- The loop of `_post`: the values of the moves that it creates.
unfoldable pub post : TaxProduct → List Move → Result Error (List MoveVals)
post product [] = ok []
post product (move ∷ moves) =
    let rest = post product moves in
    post_record product move >>= λ vals. rest >>= λ more. ok (vals ++ more)
