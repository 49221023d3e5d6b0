-- ===== src/Returns/Valuation/Whole.antt =====
-- Returns of a whole delivery take back its whole value.
use hai_compnay.Common.{ℕ, ◌+◌, List, [], ◌∷◌, ◌≡◌, ◌≢◌, some, ok, ◌⊎◌, none, true}
use hai_compnay.Returns.Valuation.{
  Delivery, ReturnMove, LayerVals, magnitude, OrderType, Origin, layer_of, prepare_common_svl_vals,
}

-- The move takes goods of the delivery back, and is not for a plain sale: its picking returns the
-- delivery's, whatever origin its sale has; or it returns none, and is for an order, which was made
-- from the delivery's picking.
abbrev pub TakesBack : Delivery → ReturnMove → Type 0
TakesBack d m =
    (m.x_type ≢ some OrderType.sale)
    × ((m.return_of ≡ some (Origin.one d))
        ⊎ ((m.return_of ≡ none) × (m.has_sale ≡ true) × (m.origin_move ≡ some (Origin.one d))))

abbrev pub returned_quantity : List ReturnMove → ℕ
returned_quantity [] = 0
returned_quantity (m ∷ ms) = m.quantity + returned_quantity ms

-- The values of layers with one denominator, added up.
abbrev pub value_of_all : List LayerVals → ℕ
value_of_all [] = 0
value_of_all (v ∷ vs) = v.value.numerator + value_of_all vs

-- The layers that are made for the moves, one each.
abbrev pub Layers : List ReturnMove → List LayerVals → Type 0
Layers [] [] = Unit
Layers (m ∷ ms) (v ∷ vs) = (prepare_common_svl_vals m ≡ ok (some v)) × Layers ms vs
Layers _ _ = ⊥

abbrev vals_of : Delivery → ReturnMove → LayerVals
vals_of d m =
    layer_of m.quantity record { numerator = magnitude d.layer_value; denominator = d.quantity }
