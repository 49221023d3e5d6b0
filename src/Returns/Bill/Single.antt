-- ===== src/Returns/Bill/Single.antt =====
-- On the lines of a single order the bill wizard does what the order's own wizard does.
use mathlib.Core.List.{append-nil, append_assoc}
use hai_compnay.Common.{
  ℕ, List, [], ◌∷◌, ◌++◌, Option, ◌≡◌, refl, sym, ap, ◌∙◌, arith, true, false, Bool-cases, inl, inr,
  Result, ok, err, ◌>>=◌, ◌>>◌, raise_if, filtered, is_nonempty, not, All, nat_key, ==_self,
}
use hai_compnay.Common.Int.{pos, ◌<ℤ◌, ltb_ℤ, leb_ℤ}
use hai_compnay.Common.Dict.{Dict}
use hai_compnay.Returns.Wizard.{
  ReturnLine, Error, nothing_selected, no_quantity, selected, create_lines, return_lines,
}
use hai_compnay.Returns.Purchase.{
  PurchaseLine, PurchaseOrder, ReturnVals, PurchaseVals, Wizard,
  prepare_purchase_line_default_values, prepare_purchase_default_values, button_create_return,
}
use hai_compnay.Returns.Bill.{
  BillWizard, purchase_of, bill_loop, bill_orders, button_create_bill_return,
}

-- The line is one of the order, and asks for something.
abbrev pub IsOf : ℕ → ReturnLine PurchaseLine → Type 0
IsOf order l = (purchase_of l ≡ order) × (pos 0 <ℤ l.return_qty)

abbrev group_of : ℕ → List ReturnVals → Dict ℕ (List ReturnVals)
group_of order vals = (order, vals) ∷ []

regroup :
    (order : ℕ) (vs : List ReturnVals) (v : ReturnVals) (m : Result Error (List ReturnVals))
    → (m >>= λ vals. ok (group_of order ((vs ++ v ∷ []) ++ vals)))
      ≡ ((m >>= λ vals. ok (v ∷ vals)) >>= λ vals. ok (group_of order (vs ++ vals)))
regroup order vs v (ok vals) =
    ap (λ all_vals. ok (group_of order all_vals)) (append_assoc vs (v ∷ []) vals)
regroup order vs v (err e) = refl

bill_loop-create_lines :
    (order : ℕ) (vs : List ReturnVals) (ls : List (ReturnLine PurchaseLine))
    → All (IsOf order) ls
    → bill_loop (group_of order vs) ls ≡ (
        create_lines prepare_purchase_line_default_values ls >>= λ vals.
        ok (group_of order (vs ++ vals)))
unfolding bill_loop create_lines prepare_purchase_line_default_values
bill_loop-create_lines order vs [] h =
    ap (λ all_vals. ok (group_of order all_vals)) (sym (append-nil vs))
bill_loop-create_lines order vs (l ∷ ls) ((of, some_), hs) =
    let asks : ltb_ℤ (pos 0) l.return_qty ≡ true = ground arith in
    let positive : leb_ℤ l.return_qty (pos 0) ≡ false = ground arith in
    let v = prepare_purchase_line_default_values l in
    elim (Bool-cases (ltb_ℤ l.remaining_qty l.return_qty)) [
      | inl over ↦ rw (asks, over) refl
      | inr within ↦
          rw
            (
              asks,
              within,
              positive,
              of,
              ==_self order,
              bill_loop-create_lines order (vs ++ v ∷ []) ls hs,
            )
            (regroup order vs v (create_lines prepare_purchase_line_default_values ls))
    ]

same_order :
    (of_type : ℕ → Option ℕ) (vals : List ReturnVals) {t t' o o' : Option ℕ} {p p' : PurchaseOrder}
    → t ≡ t'
    → o ≡ o'
    → p ≡ p'
    → ◌≡◌ {A = Result Error (List PurchaseVals)}
        (ok (prepare_purchase_default_values of_type t o p vals ∷ []))
        (ok (prepare_purchase_default_values of_type t' o' p' vals ∷ []))
same_order of_type vals e f g = cc

-- What both wizards make of the values of the first line and of those of the further lines.
finished :
    (order_of : ℕ → PurchaseOrder) (of_type : ℕ → Option ℕ) (w : Wizard) (bw : BillWizard)
    (v : ReturnVals) (m : Result Error (List ReturnVals))
    → order_of w.purchase.id ≡ w.purchase
    → bw.picking_type_id ≡ w.picking_type_id
    → bw.origin_picking_id ≡ w.origin_picking_id
    → ((m >>= λ vals. ok (group_of w.purchase.id (v ∷ vals))) >>= λ d.
        (raise_if (not (is_nonempty d)) no_quantity >> ok (bill_orders order_of of_type bw d)))
      ≡ ((((m >>= λ vals. ok (v ∷ vals)) >>= λ vals.
              (raise_if (not (is_nonempty vals)) no_quantity >> ok vals))
            >>= λ vals. ok (
                prepare_purchase_default_values of_type w.picking_type_id w.origin_picking_id
                  w.purchase vals))
          >>= λ order. ok (order ∷ []))
unfolding bill_orders
finished order_of of_type w bw v (err e) h t o = refl
finished order_of of_type w bw v (ok vals) h t o = same_order of_type (v ∷ vals) t o h

-- The methods on the selected lines `sel`.
bill_code :
    (ℕ → PurchaseOrder)
    → (ℕ → Option ℕ)
    → BillWizard
    → List (ReturnLine PurchaseLine)
    → Result Error (List PurchaseVals)
bill_code order_of of_type bw sel = do
  raise_if (not (is_nonempty sel)) nothing_selected
  d ← bill_loop [] sel
  raise_if (not (is_nonempty d)) no_quantity
  ok (bill_orders order_of of_type bw d)

order_code : (ℕ → Option ℕ) → Wizard → List (ReturnLine PurchaseLine) → Result Error PurchaseVals
order_code of_type w sel =
    (do
      raise_if (not (is_nonempty sel)) nothing_selected
      vals ← create_lines prepare_purchase_line_default_values sel
      raise_if (not (is_nonempty vals)) no_quantity
      ok vals)
    >>= λ vals. ok (
        prepare_purchase_default_values of_type w.picking_type_id w.origin_picking_id w.purchase
          vals)

codes_agree :
    (order_of : ℕ → PurchaseOrder) (of_type : ℕ → Option ℕ) (w : Wizard) (bw : BillWizard)
    (sel : List (ReturnLine PurchaseLine))
    → order_of w.purchase.id ≡ w.purchase
    → bw.picking_type_id ≡ w.picking_type_id
    → bw.origin_picking_id ≡ w.origin_picking_id
    → All (IsOf w.purchase.id) sel
    → bill_code order_of of_type bw sel ≡ (order_code of_type w sel >>= λ order. ok (order ∷ []))
unfolding bill_code order_code bill_loop create_lines prepare_purchase_line_default_values
codes_agree order_of of_type w bw [] h t o of = refl
codes_agree order_of of_type w bw (l ∷ ls) h t o ((of, some_), hs) =
    let asks : ltb_ℤ (pos 0) l.return_qty ≡ true = ground arith in
    let positive : leb_ℤ l.return_qty (pos 0) ≡ false = ground arith in
    let v = prepare_purchase_line_default_values l in
    elim (Bool-cases (ltb_ℤ l.remaining_qty l.return_qty)) [
      | inl over ↦ rw (asks, over) refl
      | inr within ↦
          rw (asks, within, positive, of, bill_loop-create_lines w.purchase.id (v ∷ []) ls hs)
            (finished order_of of_type w bw v (create_lines prepare_purchase_line_default_values ls)
              h t o)
    ]

-- Let every selected line be one of the order's and ask for a positive quantity. Then the bill wizard
-- on the same lines, with the same picking type and picking, makes the one order that the order's own
-- wizard makes, or raises the same error.
pub button_create_bill_return-single :
    (order_of : ℕ → PurchaseOrder) (of_type : ℕ → Option ℕ) (w : Wizard) (bw : BillWizard)
    → order_of w.purchase.id ≡ w.purchase
    → bw.picking_type_id ≡ w.picking_type_id
    → bw.origin_picking_id ≡ w.origin_picking_id
    → bw.return_line_ids ≡ w.return_line_ids
    → All (IsOf w.purchase.id) (filtered selected w.return_line_ids)
    → button_create_bill_return order_of of_type bw
      ≡ (button_create_return of_type w >>= λ order. ok (order ∷ []))
unfolding button_create_bill_return button_create_return return_lines bill_code order_code
button_create_bill_return-single order_of of_type w bw h t o same of =
    ap (λ ls. bill_code order_of of_type bw (filtered selected ls)) same
    ∙ codes_agree order_of of_type w bw (filtered selected w.return_line_ids) h t o of
