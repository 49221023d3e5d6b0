-- ===== src/Transfer/Lines/Quantities.antt =====
-- What the computed quantities of a request line say of its moves.
use hai_compnay.Common.{
  List, [], ◌∷◌, ◌≡◌, refl, ◌↔◌, ok, arith, Bool, ◌&&◌, not, filtered, All, inl, inr, Bool-cases,
}
use hai_compnay.Common.Int.{ℤ, pos, ◌+ℤ◌, ◌<ℤ◌, total, int_laws, +ℤ-zero, +ℤ_assoc}
use hai_compnay.Transfer.Model.{RequestLine, StockMove, Env, is_done, is_transit}
use hai_compnay.Transfer.Lines.{quantity_loop, recompute, constrains_request_qty}

abbrev pub quantity_of : StockMove → ℤ
quantity_of move = move.quantity

abbrev pub is_exported : Env → StockMove → Bool
is_exported env move = is_done move.state && is_transit (env.usage move.location_dest_id)

abbrev pub is_received : Env → StockMove → Bool
is_received env move = is_done move.state && not (is_transit (env.usage move.location_dest_id))

quantity_loop_lem :
    (env : Env) (e r : ℤ) (moves : List StockMove)
    → quantity_loop env e r moves ≡ (
      e +ℤ total quantity_of (filtered (is_exported env) moves),
      r +ℤ total quantity_of (filtered (is_received env) moves),
    )
unfolding quantity_loop
quantity_loop_lem env e r [] = simp +ℤ-zero
quantity_loop_lem env e r (move ∷ moves) = elim (Bool-cases (is_done move.state)) [
  | inr pending ↦ rw (pending, quantity_loop_lem env e r moves) refl
  | inl done ↦ elim (Bool-cases (is_transit (env.usage move.location_dest_id))) [
    | inl out ↦ rw (done, out, quantity_loop_lem env (e +ℤ move.quantity) r moves, +ℤ_assoc) refl
    | inr other ↦
        rw (done, other, quantity_loop_lem env e (r +ℤ move.quantity) moves) (rw (+ℤ_assoc r) refl)
  ]
]

-- The exported quantity of a line is the sum over its done moves into a transit location, the
-- received one the sum over its other done moves, and what remains is the request less the
-- receipts; the request itself and the moves stay as they are.
recompute_lem :
    (env : Env) (line : RequestLine)
    → let line' = recompute env line in
      (line'.export_qty ≡ total quantity_of (filtered (is_exported env) line.stock_move_ids))
      × (line'.receive_qty ≡ total quantity_of (filtered (is_received env) line.stock_move_ids))
      × (line'.remaining_qty +ℤ line'.receive_qty ≡ line.request_qty)
      × (line'.request_qty ≡ line.request_qty)
      × (line'.stock_move_ids ≡ line.stock_move_ids)
unfolding recompute
recompute_lem env line =
    rw (quantity_loop_lem env (pos 0) (pos 0) line.stock_move_ids)
      (omega int_laws, omega int_laws, omega int_laws, refl, refl)

-- The constraint passes exactly when every line asks for a positive quantity.
pub constrains_request_qty_iff :
    (lines : List RequestLine)
    → (constrains_request_qty lines ≡ ok tt) ↔ All (λ line. pos 0 <ℤ line.request_qty) lines
unfolding constrains_request_qty
constrains_request_qty_iff [] = (λ h. tt, λ h. refl)
constrains_request_qty_iff (line ∷ lines) = ground (arith, constrains_request_qty_iff lines)
