-- ===== src/Returns/Valuation.antt =====
-- The value of goods that a customer returns: `_prepare_common_svl_vals` of
-- a1_sale_return/models/stock_move.py. A cost is a fraction, a numerator over a denominator; done
-- quantities are not negative.
pub mod Whole
use hai_compnay.Common.{
  ℕ, ◌*◌, Option, none, some, Bool, true, false, if◌then◌else◌, not, ◌&&◌, ◌||◌, ◌==◌, Result, ok,
  err, ◌>>=◌,
}
use hai_compnay.Common.Int.{ℤ, pos_part, neg_part, ◌+ℤ◌, abs}

-- A move that went out: the value of its first valuation layer, and its quantity.
pub record Delivery : Type 0 where
  pub layer_value : ℤ
  pub quantity : ℕ

-- The moves that a move comes from: none of them has a layer (or there are none), or one alone does
-- and is a delivery, or there are several and the first layer is theirs.
pub data Origin : Type 0 where
  no_layer several : Origin
  one : Delivery → Origin

pub data OrderType : Type 0 where
  sale return_ : OrderType

-- A move that comes in: whether its picking has a sale, the sale's type if it has one, the origin moves
-- if the picking returns another, those of the sale's line in the sale's origin picking if it has one,
-- and the product's cost in the destination warehouse.
pub record ReturnMove : Type 0 where
  pub quantity : ℕ
  pub has_sale : Bool
  pub x_type : Option OrderType
  pub return_of : Option Origin
  pub origin_move : Option Origin
  pub warehouse_cost : Option ℕ

pub record Fraction : Type 0 where
  pub numerator : ℕ
  pub denominator : ℕ

-- `value` and `unit_cost` of the layer.
pub record LayerVals : Type 0 where
  pub value : Fraction
  pub unit_cost : Fraction

abbrev pub magnitude : ℤ → ℕ
magnitude v = pos_part (abs v)

pub data LayerError : Type 0 where
  index_error expected_singleton division_by_zero unbound_local : LayerError

-- `abs(layer.value) / move.quantity`
abbrev pub unit_cost_of : Origin → Result LayerError Fraction
unit_cost_of Origin.no_layer = err index_error
unit_cost_of Origin.several = err expected_singleton
unit_cost_of (Origin.one d) =
    if d.quantity == 0
    then err division_by_zero
    else ok record { numerator = magnitude d.layer_value; denominator = d.quantity }

abbrev pub cost_or_zero : Option ℕ → Fraction
cost_or_zero none = record { numerator = 0; denominator = 1 }
cost_or_zero (some cost) = record { numerator = cost; denominator = 1 }

abbrev pub is_sale : Option OrderType → Bool
is_sale (some OrderType.sale) = true
is_sale _ = false

abbrev pub is_return : Option OrderType → Bool
is_return (some OrderType.return_) = true
is_return _ = false

-- The branch that the unit cost is taken from; with neither origin, a sale without a type leaves
-- `unit_cost` unset.
abbrev pub choose : Option Origin → Option Origin → Bool → Option ℕ → Result LayerError Fraction
choose (some moves) origin returns cost = unit_cost_of moves
choose none (some moves) returns cost = unit_cost_of moves
choose none none true cost = ok (cost_or_zero cost)
choose none none false cost = err unbound_local

abbrev pub layer_of : ℕ → Fraction → LayerVals
layer_of quantity unit_cost = record {
  value = record {
    numerator = unit_cost.numerator * quantity;
    denominator = unit_cost.denominator;
  };
  unit_cost = unit_cost;
}

abbrev pub is_missing : Option Origin → Bool
is_missing none = true
is_missing (some moves) = false

-- `none` where the values stay those that Odoo prepares.
unfoldable pub prepare_common_svl_vals : ReturnMove → Result LayerError (Option LayerVals)
prepare_common_svl_vals m =
    if (not m.has_sale && is_missing m.return_of) || is_sale m.x_type
    then ok none
    else (choose m.return_of m.origin_move (m.has_sale && is_return m.x_type) m.warehouse_cost
        >>= λ unit_cost. ok (some (layer_of m.quantity unit_cost)))
