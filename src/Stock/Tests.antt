-- ===== src/Stock/Tests.antt =====
-- The theorems on the stock report and on the job channels, at small inputs.
mod Lots
mod Pickings
use hai_compnay.Common.{ℕ, [], ◌∷◌, ◌≡◌, refl, some, none, true, false, All, arith, nat_key}
use hai_compnay.Common.Int.{ℤ, pos, negsuc, ◌+ℤ◌, ◌*ℤ◌, abs, ◌-ℤ◌}
use hai_compnay.Stock.Report.{
  StockMove, Tables, Wizard, Row, location_data, stock_quant_data, select_row, stock_move_quantity,
  stock_move_value, sh_warehouse_cost_data, query, get_data, totals_loop,
}
use hai_compnay.Stock.Report.History.{query-IsLevel, IsLevel}
use hai_compnay.Stock.Report.Sheet.{get_data-IsBalanced, IsBalanced, IsTotal}
use hai_compnay.Common.{◌++◌, sym, subst, codes_key}
use hai_compnay.Common.Decimal.{Text, str}
use hai_compnay.Stock.Channel.{Names, Jobs, update_odoo_config, job_name, entry, ensure_channel}
use hai_compnay.Stock.Channel.Listed.{IsEntry}
use hai_compnay.Stock.Channel.Kept.{IsEnsured, ensure_channel-IsEnsured}

-- Two days' wizard: the period is 10 to 20, and today starts at 40.
abbrev wizard : Wizard
wizard = record { company_id = 1; start_date = 10; end_date = 20; today = 40 }

abbrev move_of : ℕ → ℕ → ℕ → ℕ → ℤ → ℕ → StockMove
move_of id product from_ to quantity date = record {
  id = id;
  product_id = product;
  company_id = 1;
  location_id = from_;
  location_dest_id = to;
  quantity = quantity;
  date_done = some date;
}

-- Eight units of product 7 came before the period, two went in it, five came after it.
abbrev tables : Tables
tables = record {
  stock_location =
      record { id = 3; company_id = 1; warehouse_id = 2; is_internal = true }
      ∷ record { id = 4; company_id = 1; warehouse_id = 2; is_internal = false }
      ∷ [];
  stock_quant = record { product_id = 7; company_id = 1; location_id = 3; quantity = pos 11 } ∷ [];
  stock_move =
      move_of 1 7 9 3 (pos 8) 5 ∷ move_of 2 7 3 9 (pos 2) 15 ∷ move_of 3 7 9 3 (pos 5) 30 ∷ [];
  stock_valuation_layer = record { stock_move_id = 2; value = negsuc 19 } ∷ [];
  sh_warehouse_cost = record { product_id = 7; cost = pos 10 } ∷ [];
}

sheet :
    get_data tables wizard 2
    ≡ record {
      product_id = none;
      end_quantity = pos 6;
      end_value = pos 60;
      quantity_in = pos 0;
      quantity_out = pos 2;
      value_in = pos 0;
      value_out = pos 20;
      start_quantity = pos 8;
      start_value = pos 80;
    }
      ∷ record {
        product_id = some 7;
        end_quantity = pos 6;
        end_value = pos 60;
        quantity_in = pos 0;
        quantity_out = pos 2;
        value_in = pos 0;
        value_out = pos 20;
        start_quantity = pos 8;
        start_value = pos 80;
      }
      ∷ []
unfolding get_data query totals_loop select_row stock_move_quantity stock_move_value
    sh_warehouse_cost_data stock_quant_data location_data ◌+ℤ◌ ◌*ℤ◌ abs ◌-ℤ◌
sheet = refl

get_data-IsBalanced_example :
    All IsBalanced (get_data tables wizard 2)
    × (row : Row) × (get_data tables wizard 2 ≡ row ∷ query tables wizard 2)
    × IsTotal row (query tables wizard 2)
get_data-IsBalanced_example = get_data-IsBalanced tables wizard 2

query-IsLevel_example :
    All (IsLevel tables wizard (location_data tables wizard 2)) (query tables wizard 2)
unfolding stock_quant_data location_data ◌+ℤ◌ ◌-ℤ◌
query-IsLevel_example =
    query-IsLevel tables wizard 2 (omega arith)
      (
        λ e. (5, refl, omega arith),
        (λ e. (15, refl, omega arith), (λ e. (30, refl, omega arith), tt)),
      )
      (refl, tt)

-- The configuration file lists one channel, and the company 3 has none.
abbrev names : Names
names = record {
  queue_job = b'q' ∷ [];
  channels = b'c' ∷ [];
  wh_ = b'w' ∷ [];
  _job_channel = b'_' ∷ b'j' ∷ [];
}

abbrev root : Text
root = b'r' ∷ []

abbrev root_entry : Text
root_entry = b'r' ∷ b':' ∷ b'1' ∷ []

abbrev jobs : Jobs
jobs = record { channels = root ∷ []; config = (b'q' ∷ [], (b'c' ∷ [], root_entry) ∷ []) ∷ [] }

-- w3_j:1
abbrev new_entry : Text
new_entry = b'w' ∷ b'3' ∷ b'_' ∷ b'j' ∷ b':' ∷ b'1' ∷ []

new_entry-IsEntry : IsEntry new_entry
new_entry-IsEntry = (refl, (refl, (refl, (refl, (refl, (refl, tt))))))

new_entry_lem : entry (job_name names 3) ≡ new_entry
unfolding str
new_entry_lem = refl

new_config :
    (ensure_channel names 3 jobs).config
    ≡ (b'q' ∷ [], (b'c' ∷ [], root_entry ++ b',' ∷ new_entry) ∷ []) ∷ []
unfolding ensure_channel update_odoo_config str
new_config = refl

ensure_channel-IsEnsured_example : IsEnsured names 3 (ensure_channel names 3 jobs)
ensure_channel-IsEnsured_example =
    ensure_channel-IsEnsured names 3 jobs (subst IsEntry (sym new_entry_lem) new_entry-IsEntry)
      ((root_entry, refl, refl), tt)
