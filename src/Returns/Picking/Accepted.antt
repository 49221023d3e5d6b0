-- ===== src/Returns/Picking/Accepted.antt =====
-- Which lines the picking's return buttons accept.
use hai_compnay.Common.{
  ℕ, sym, ap, ◌∙◌, bind-Returns, ok-injective, List, [], ◌∷◌, map, ◌≡◌, ◌≢◌, refl, ◌↔◌, ◌⊎◌, inl,
  inr, arith, ok, err, ◌>>◌, raise_if, not, filtered, is_nonempty, All, Bool-cases,
}
use hai_compnay.Common.Int.{ℤ, ◌≤ℤ◌, ltb_ℤ}
use hai_compnay.Returns.Picking.{
  PickingLine, Error, exceeds_received, nothing_selected, is_selected, check_quantities,
  picking_lines, SalePicking, prepare_return_picking_line, prepare_sale_order_return_wizard,
  action_wizard_sale_stock_picking_return,
}
use hai_compnay.Returns.Sale.{SaleVals}

module _ {L : Type 0} where
  -- The line asks for no more than its move moved.
  abbrev pub IsReceived : PickingLine L → Type 0
  IsReceived l = l.quantity ≤ℤ l.move_quantity

  check_quantities-ok :
      (ls : List (PickingLine L)) → All IsReceived ls → check_quantities ls ≡ ok tt
  unfolding check_quantities
  check_quantities-ok [] h = refl
  check_quantities-ok (l ∷ ls) (h, hs) = ground (arith, check_quantities-ok ls hs)

  check_quantities_cases :
      (ls : List (PickingLine L))
      → All IsReceived ls ⊎ ((e : Error) × (check_quantities ls ≡ err e))
  unfolding check_quantities
  check_quantities_cases [] = inl tt
  check_quantities_cases (l ∷ ls) = elim (Bool-cases (ltb_ℤ l.move_quantity l.quantity)) [
    | inl over ↦ inr (exceeds_received l.product_id, rw over refl)
    | inr within ↦ elim (check_quantities_cases ls) [
      | inl hs ↦ inl (ground arith, hs)
      | inr (e, h) ↦ inr (e, rw (within, h) refl)
    ]
  ]

  -- Lines are handed over exactly when no line, selected or not, asks for more than its move moved and
  -- a line is selected; the values are then those of the selected lines, in order.
  pub picking_lines_iff :
      {V : Type 0} (prepare : PickingLine L → V) (ls : List (PickingLine L)) (vals : List V)
      → (picking_lines prepare ls ≡ ok vals) ↔ (
          All IsReceived ls
          × (filtered is_selected ls ≢ [])
          × (vals ≡ map prepare (filtered is_selected ls)))
  unfolding picking_lines
  picking_lines_iff prepare ls vals = (
    λ h. elim (check_quantities_cases ls) [
      | inr (e, failed) ↦ ground arith
      | inl hs ↦
          let checked = check_quantities-ok ls hs in (hs, λ empty_. ground arith, ground arith)
    ],
    λ (hs, some_selected, e).
        let checked = check_quantities-ok ls hs in
        rw (e, checked) (go (filtered is_selected ls) some_selected),
  )
    where
      go :
          (xs : List (PickingLine L))
          → xs ≢ []
          → (raise_if (not (is_nonempty xs)) nothing_selected >> ok (map prepare xs))
            ≡ ok (map prepare xs)
      go [] h = absurd (h refl)
      go (x ∷ xs) h = refl

-- The order that the button makes, of the selected lines in their order: each becomes a line of the
-- return wizard, and that a line of the order.
abbrev pub order_of : (ℕ → ℤ → ℕ → ℤ) → SalePicking → SaleVals
order_of convert p =
    prepare_sale_order_return_wizard p
      (map (prepare_return_picking_line convert) (filtered is_selected p.product_return_moves))

-- The button makes a return order exactly when no line of the picking, selected or not, asks for more
-- than its move moved and a line is selected; the order is then that of the selected lines.
pub action_wizard_sale_stock_picking_return_iff :
    (convert : ℕ → ℤ → ℕ → ℤ) (p : SalePicking) (order : SaleVals)
    → (action_wizard_sale_stock_picking_return convert p ≡ ok order) ↔ (
        All IsReceived p.product_return_moves
        × (filtered is_selected p.product_return_moves ≢ [])
        × (order ≡ order_of convert p))
unfolding action_wizard_sale_stock_picking_return
action_wizard_sale_stock_picking_return_iff convert p order = (
  λ h.
      let (lines, lined, built) =
        bind-Returns (picking_lines (prepare_return_picking_line convert) p.product_return_moves) _
          h in
      let (fits, some_, same) =
        (picking_lines_iff (prepare_return_picking_line convert) p.product_return_moves lines).0
          lined in
      (fits, some_, sym (ok-injective built) ∙ ap (prepare_sale_order_return_wizard p) same),
  λ (fits, some_, e).
      let lined =
        (picking_lines_iff (prepare_return_picking_line convert) p.product_return_moves _).1
          (fits, some_, refl) in
      rw (lined, e) refl,
)
