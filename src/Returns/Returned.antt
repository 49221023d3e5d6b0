-- ===== src/Returns/Returned.antt =====
-- The returned quantity of an order line: `_compute_returned_qty` of
-- a1_sale_return/models/sale_order_line.py and of a1_purchase_return/models/purchase_order_line.py,
-- which are the same loop. `V` is the values of a line of a return order, `S` the states of an order.
use hai_compnay.Common.{
  ℕ, List, [], ◌∷◌, ◌++◌, map, ◌≡◌, refl, Bool, Bool-cases, inl, inr, if◌then◌else◌, ◌==◌, ◌&&◌,
  not, false,
}
use hai_compnay.Common.Int.{ℤ, pos, ◌+ℤ◌, total, total-append, int_laws}

-- A line of a return order in the database, with its order's state.
pub record ReturnedLine (V S : Type 0) : Type 0 where
  pub vals : V
  pub order_state : S

abbrev pub in_state : {V S : Type 0} → S → V → ReturnedLine V S
in_state s vals = record { vals = vals; order_state = s }

-- `origin_of` is the order line that a line's goods come back from.
module _ {V S : Type 0} (origin_of : V → ℕ) (qty_of : V → ℤ) (is_cancelled : S → Bool) where
  -- The loop over the lines whose origin is `line`.
  unfoldable pub returned_loop : ℕ → ℤ → List (ReturnedLine V S) → ℤ
  returned_loop line returned_qty [] = returned_qty
  returned_loop line returned_qty (r ∷ rs) =
      returned_loop line
        (if (origin_of r.vals == line) && not (is_cancelled r.order_state)
          then returned_qty +ℤ qty_of r.vals
          else returned_qty)
        rs

  unfoldable pub returned_qty_of : ℕ → List (ReturnedLine V S) → ℤ
  unfolding returned_loop
  returned_qty_of line = returned_loop line (pos 0)

  -- What a returned line brings back to order line `i`.
  abbrev brought : ℕ → ReturnedLine V S → ℤ
  brought i r =
      if (origin_of r.vals == i) && not (is_cancelled r.order_state) then qty_of r.vals else pos 0

  -- The quantities that new values bring back to order line `i`.
  abbrev pub back : ℕ → List V → ℤ
  back i = total (λ v. if origin_of v == i then qty_of v else pos 0)

  returned_loop_lem :
      (i : ℕ) (acc : ℤ) (rs : List (ReturnedLine V S))
      → returned_loop i acc rs ≡ acc +ℤ total (brought i) rs
  unfolding returned_loop
  returned_loop_lem i acc [] = omega int_laws
  returned_loop_lem i acc (r ∷ rs) =
      elim (Bool-cases ((origin_of r.vals == i) && not (is_cancelled r.order_state))) [
        | inl counted ↦ rw (counted, returned_loop_lem i (acc +ℤ qty_of r.vals) rs) (omega int_laws)
        | inr other ↦ rw (other, returned_loop_lem i acc rs) (omega int_laws)
      ]

  total-in_state :
      (i : ℕ) (s : S) (vs : List V)
      → is_cancelled s ≡ false
      → total (brought i) (map (in_state s) vs) ≡ back i vs
  total-in_state i s [] live = refl
  total-in_state i s (v ∷ vs) live = elim (Bool-cases (origin_of v == i)) [
    | inl same ↦ rw (same, live, total-in_state i s vs live) refl
    | inr other ↦ rw (other, total-in_state i s vs live) refl
  ]

  -- New lines in an order that is not cancelled add to the returned quantity.
  pub returned_qty_of-append :
      (i : ℕ) (s : S) (rs : List (ReturnedLine V S)) (vs : List V)
      → is_cancelled s ≡ false
      → returned_qty_of i (rs ++ map (in_state s) vs) ≡ returned_qty_of i rs +ℤ back i vs
  unfolding returned_qty_of
  returned_qty_of-append i s rs vs live =
      rw
        (
          returned_loop_lem i (pos 0) (rs ++ map (in_state s) vs),
          returned_loop_lem i (pos 0) rs,
          total-append (brought i) rs (map (in_state s) vs),
          total-in_state i s vs live,
        )
        (omega int_laws)
