-- ===== src/Returns/Cost/Balanced.antt =====
-- The moves for cost differences are balanced, and what each pair of items does to its accounts.
use hai_compnay.Common.{
  ℕ, List, [], ◌∷◌, ◌++◌, ◌≡◌, ◌≢◌, refl, subst, arith, Option, none, some, Bool, true, false,
  Bool-cases, inl, inr, ok, err, if◌then◌else◌, is_nonempty, any, ◌&&◌, All, All-append,
  bind-Returns, ok-injective, ◌==◌, ==_self,
}
use hai_compnay.Common.Int.{
  ℤ, pos, negsuc, ◌-ℤ◌, abs, abs_parts, ltb_ℤ, leb_ℤ, eqb_ℤ, total, total-append, int_laws,
}
use hai_compnay.Returns.Cost.{
  RefundLine, Convert, Company, AmlVals, no_expense_account, no_income_account, aml_vals,
  balance_of, prepare_pdiff_cog_aml_vals, unit_valuation_difference, layer_vals, layers_vals,
  cog_loop, prepare_cog_return_move_line, Invoice, CogMove, valued_lines, cog_moves,
  create_diff_cog_return_invoice,
}

abbrev pub debit_of : AmlVals → ℤ
debit_of v = v.debit

abbrev pub credit_of : AmlVals → ℤ
credit_of v = v.credit

abbrev pub IsBalanced : List AmlVals → Type 0
IsBalanced vs = total debit_of vs ≡ total credit_of vs

-- Debit less credit on an account.
abbrev pub net : ℕ → List AmlVals → ℤ
net a = total (λ v. if v.account_id == a then v.debit -ℤ v.credit else pos 0)

-- The two items for a line are balanced; if the account for the differences is not the product's,
-- together they put the balance, with its sign, on the former, and take it from the latter.
pub prepare_pdiff_cog_aml_vals-net :
    (c : Convert) (line : RefundLine) (aml_qty difference_curr : ℤ) (account : ℕ)
    → account ≢ line.product_account_id
    → let vals = prepare_pdiff_cog_aml_vals c line aml_qty difference_curr account in
      let balance = balance_of c line aml_qty difference_curr in
      IsBalanced vals
      × (net account vals ≡ balance)
      × (net line.product_account_id vals ≡ pos 0 -ℤ balance)
unfolding prepare_pdiff_cog_aml_vals
prepare_pdiff_cog_aml_vals-net c line aml_qty difference_curr account h =
    go (balance_of c line aml_qty difference_curr) line.product_account_id h
  where
    go :
        (balance : ℤ) (other : ℕ)
        → account ≢ other
        → let vals =
            aml_vals line (abs balance) (pos 0) (if leb_ℤ (pos 0) balance then account else other)
            ∷ aml_vals line (pos 0) (abs balance) (if ltb_ℤ balance (pos 0) then account else other)
            ∷ [] in
          IsBalanced vals × (net account vals ≡ balance) × (net other vals ≡ pos 0 -ℤ balance)
    go (pos n) other h =
        let up : leb_ℤ (pos 0) (pos n) ≡ true = ground arith in
        let down : ltb_ℤ (pos n) (pos 0) ≡ false = ground arith in
        let away : (account == other) ≡ false = ground arith in
        let back : (other == account) ≡ false = ground arith in
        rw (up, down, away, back, ==_self account, ==_self other)
          (
            omega (int_laws, abs_parts (pos n)),
            omega (int_laws, abs_parts (pos n)),
            omega (int_laws, abs_parts (pos n)),
          )
    go (negsuc n) other h =
        let up : leb_ℤ (pos 0) (negsuc n) ≡ false = ground arith in
        let down : ltb_ℤ (negsuc n) (pos 0) ≡ true = ground arith in
        let away : (account == other) ≡ false = ground arith in
        let back : (other == account) ≡ false = ground arith in
        rw (up, down, away, back, ==_self account, ==_self other)
          (
            omega (int_laws, abs_parts (negsuc n)),
            omega (int_laws, abs_parts (negsuc n)),
            omega (int_laws, abs_parts (negsuc n)),
          )

IsBalanced-append : (us vs : List AmlVals) → IsBalanced us → IsBalanced vs → IsBalanced (us ++ vs)
IsBalanced-append us vs hu hv =
    rw (total-append debit_of us vs, total-append credit_of us vs, hu, hv) refl

prepare_pdiff_cog_aml_vals-IsBalanced :
    (c : Convert) (line : RefundLine) (aml_qty difference_curr : ℤ) (account : ℕ)
    → IsBalanced (prepare_pdiff_cog_aml_vals c line aml_qty difference_curr account)
unfolding prepare_pdiff_cog_aml_vals
prepare_pdiff_cog_aml_vals-IsBalanced c line aml_qty difference_curr account = omega int_laws

layer_vals-IsBalanced :
    (c : Convert) (expense income : ℕ) (line : RefundLine) (layer_price : ℤ)
    → IsBalanced (layer_vals c expense income line layer_price)
unfolding layer_vals
layer_vals-IsBalanced c expense income line layer_price =
    elim (Bool-cases (eqb_ℤ (unit_valuation_difference c line layer_price) (pos 0))) [
      | inl none_ ↦ rw none_ refl
      | inr some_ ↦
          let difference_curr =
            c.price_to_line_uom line
              (c.to_line_currency line (unit_valuation_difference c line layer_price)) in
          rw some_ (
            prepare_pdiff_cog_aml_vals-IsBalanced c line
              (c.quantity_to_product_uom line line.quantity) difference_curr
              (if ltb_ℤ (pos 0) difference_curr then expense else income))
    ]

cog_loop-IsBalanced :
    (c : Convert) (expense income : ℕ) (lines : List RefundLine)
    → IsBalanced (cog_loop c expense income lines)
unfolding cog_loop
cog_loop-IsBalanced c expense income [] = refl
cog_loop-IsBalanced c expense income (line ∷ lines) =
    IsBalanced-append
      (if c.float_is_zero line line.quantity
        then []
        else layers_vals c expense income line line.layers)
      (cog_loop c expense income lines) (items (c.float_is_zero line line.quantity) line.layers)
      (cog_loop-IsBalanced c expense income lines)
  where
    items :
        (zero_ : Bool) (layers : List ℤ)
        → IsBalanced (if zero_ then [] else layers_vals c expense income line layers)
    items true layers = refl
    items false [] = refl
    items false (layer ∷ layers) = layer_vals-IsBalanced c expense income line layer

-- A created move is balanced, has items, and comes from one of the refunds.
abbrev pub IsSound : List Invoice → CogMove → Type 0
IsSound invoices move =
    IsBalanced move.line_ids
    × (move.line_ids ≢ [])
    × (any
          (λ i.
            (i.id == move.x_origin_cog_move_id) && (i.is_in_refund && is_nonempty (valued_lines i)))
          invoices
        ≡ true)

prepare_cog_return_move_line-IsBalanced :
    (c : Convert) (company : Company) (lines : List RefundLine) (vals : List AmlVals)
    → prepare_cog_return_move_line c company lines ≡ ok vals
    → IsBalanced vals
unfolding prepare_cog_return_move_line
prepare_cog_return_move_line-IsBalanced c company lines vals h =
    go company.x_diff_cog_return_expense_id company.x_diff_cog_return_income_id h
  where
    go :
        (expense income : Option ℕ)
        → elim expense [
          | none ↦ err no_expense_account
          | some e ↦ elim income [
            | none ↦ err no_income_account
            | some i ↦ ok (cog_loop c e i lines)
          ]
        ]
          ≡ ok vals
        → IsBalanced vals
    go none income h = cc
    go (some e) none h = cc
    go (some e) (some i) h = subst IsBalanced (ok-injective h) (cog_loop-IsBalanced c e i lines)

IsSound-cons :
    (invoice : Invoice) (invoices : List Invoice) (moves : List CogMove)
    → All (IsSound invoices) moves
    → All (IsSound (invoice ∷ invoices)) moves
IsSound-cons invoice invoices [] h = tt
IsSound-cons invoice invoices (m ∷ ms) ((balanced, full, known), hs) =
    ((balanced, full, ground (arith, known)), IsSound-cons invoice invoices ms hs)

cog_moves-IsSound :
    (invoice : Invoice) (invoices : List Invoice) (vals : List AmlVals)
    → (invoice.is_in_refund && is_nonempty (valued_lines invoice)) ≡ true
    → IsBalanced vals
    → All (IsSound (invoice ∷ invoices)) (cog_moves invoice vals)
cog_moves-IsSound invoice invoices [] refund h = tt
cog_moves-IsSound invoice invoices (v ∷ vs) refund h =
    ((h, (λ e. ground arith), rw (==_self invoice.id, refund) refl), tt)

-- Each move that posting makes for cost differences is balanced, has items, and names as its origin
-- one of the posted moves, a refund for a purchase return with a line whose costing is not
-- standard.
pub create_diff_cog_return_invoice-IsSound :
    (c : Convert) (company : Company) (invoices : List Invoice) (moves : List CogMove)
    → create_diff_cog_return_invoice c company invoices ≡ ok moves
    → All (IsSound invoices) moves
unfolding create_diff_cog_return_invoice
create_diff_cog_return_invoice-IsSound c company [] moves h =
    subst (All (IsSound [])) (ok-injective h) tt
create_diff_cog_return_invoice-IsSound c company (i ∷ is) moves h =
    elim (Bool-cases (i.is_in_refund && is_nonempty (valued_lines i))) [
      | inr other ↦
          IsSound-cons i is moves
            (create_diff_cog_return_invoice-IsSound c company is moves (rw other at h))
      | inl refund ↦
          let (vals, made, rest) =
            bind-Returns (prepare_cog_return_move_line c company (valued_lines i)) _
              (rw refund at h) in
          let (more, made_more, built) =
            bind-Returns (create_diff_cog_return_invoice c company is) _ rest in
          subst (All (IsSound (i ∷ is))) (ok-injective built) (
            All-append (IsSound (i ∷ is)) (cog_moves i vals) more
              (cog_moves-IsSound i is vals refund
                (prepare_cog_return_move_line-IsBalanced c company (valued_lines i) vals made))
              (IsSound-cons i is more
                (create_diff_cog_return_invoice-IsSound c company is more made_more)))
    ]
