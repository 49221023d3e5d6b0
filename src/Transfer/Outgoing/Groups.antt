-- ===== src/Transfer/Outgoing/Groups.antt =====
-- The keys of the groups: what was printed into one is read back.
use hai_compnay.Common.{
  sym, ap, ◌∙◌, ◌↔◌, codes_beq, codes_beq_iff, codes_key, filtered, filtered-congr, ◌==◌, Result, ℕ,
  [], ◌≡◌, refl, ok, map, arith,
}
use hai_compnay.Common.Decimal.{Text, str, split}
use hai_compnay.Common.Decimal.RoundTrip.{int-str, split-join, str-injective}
use hai_compnay.Common.Dict.{lookup, get_or}
use hai_compnay.Common.Dict.Group.{get_or-append_by}
use hai_compnay.Transfer.Model.{Request, RequestLine, Env, Error}
use hai_compnay.Transfer.Lines.{prepare_stock_move_vals}
use hai_compnay.Transfer.Outgoing.{key_line, parse_key, get_picking_data_foreach_location}

-- The key of a line, split and read by the creation of the picking, gives back the request's
-- source location and the text of the line's destination warehouse.
pub parse_key-key_line :
    (env : Env) (r : Request) (line : RequestLine)
    → parse_key (split b'-' (key_line env r line))
      ≡ ok (env.lot_stock_id r.transfer_warehouse_id, str line.dest_warehouse_id)
unfolding key_line parse_key
parse_key-key_line env r line =
    rw
      (
        split-join b'-' (env.lot_stock_id r.transfer_warehouse_id)
            (env.lot_stock_id line.dest_warehouse_id) line.dest_warehouse_id refl,
        int-str (env.lot_stock_id r.transfer_warehouse_id),
        parse_key,
      )
      refl

-- Two lines of a request have one key exactly when they have one destination warehouse.
key_line_iff :
    (env : Env) (r : Request) (l m : RequestLine)
    → (key_line env r l ≡ key_line env r m) ↔ (l.dest_warehouse_id ≡ m.dest_warehouse_id)
key_line_iff env r l m = (
  λ e. str-injective l.dest_warehouse_id m.dest_warehouse_id (
      second_eq (
        sym (parse_key-key_line env r l)
        ∙ ap (λ k. parse_key (split b'-' k)) e
        ∙ parse_key-key_line env r m)),
  λ e. unfold key_line in rw e refl,
)
  where
    second_eq :
        {a b : ℕ} {s t : Text} → ◌≡◌ {A = Result Error (ℕ × Text)} (ok (a, s)) (ok (b, t)) → s ≡ t
    second_eq e = cc

-- The group of a line holds the values of the moves of just the lines with its destination
-- warehouse, in their order.
pub get_picking_data_foreach_location_lem :
    (env : Env) (r : Request) (line : RequestLine)
    → get_or (lookup (key_line env r line) (get_picking_data_foreach_location env r)) []
      ≡ map prepare_stock_move_vals
          (filtered (λ l. l.dest_warehouse_id == line.dest_warehouse_id) r.request_line_ids)
unfolding get_picking_data_foreach_location
get_picking_data_foreach_location_lem env r line =
    get_or-append_by (key_line env r) prepare_stock_move_vals (key_line env r line) []
      r.request_line_ids
    ∙ ap (map prepare_stock_move_vals) (
        filtered-congr (λ l. codes_beq (key_line env r l) (key_line env r line))
          (λ l. l.dest_warehouse_id == line.dest_warehouse_id) r.request_line_ids
          (λ l. ground (
            arith,
            codes_beq_iff (key_line env r l) (key_line env r line),
            key_line_iff env r l line,
          )))
