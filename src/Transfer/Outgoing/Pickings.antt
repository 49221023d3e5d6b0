-- ===== src/Transfer/Outgoing/Pickings.antt =====
-- The pickings that an approval makes carry what the lines ask for, and no more.
use hai_compnay.Common.{
  subst, ℕ, suc, List, [], ◌∷◌, some, ◌≡◌, refl, sym, ap, ok, codes_key, bind-Returns, arith, All,
  inl, inr, Option-cases,
}
use hai_compnay.Common.Int.{ℤ, pos, total}
use hai_compnay.Common.Decimal.{Text, str, split}
use hai_compnay.Common.Dict.{Dict}
use hai_compnay.Common.Dict.Group.{append_by-All}
use hai_compnay.Transfer.Model.{MoveState, Picking, RequestLine, Request, Env}
use hai_compnay.Transfer.Lines.{MoveVals, prepare_stock_move_vals}
use hai_compnay.Transfer.Outgoing.Groups.{parse_key-key_line}
use hai_compnay.Transfer.Outgoing.{
  Ids, key_line, get_picking_data_foreach_location, prepare_stock_move_values, create_picking_out,
  parse_key, create_stock_picking_in_out, create_pickings,
}

-- A sum over the moves of some pickings, of what a move is worth by its product and quantity.
abbrev pub moved : (ℕ → ℤ → ℤ) → List Picking → ℤ
moved f = total (λ p. total (λ m. f m.product_id m.quantity) p.move_ids)

abbrev pub asked_by : (ℕ → ℤ → ℤ) → MoveVals → ℤ
asked_by f v = f v.product_id v.quantity

-- The same sum over the lines of a request.
abbrev pub asked : (ℕ → ℤ → ℤ) → List RequestLine → ℤ
asked f = total (λ l. f l.product_id l.request_qty)

-- A picking of request `r` that waits to go out from `r`'s source location to `transit`.
pub record IsOutgoing (env : Env) (r : Request) (transit : ℕ) (p : Picking) : Type 0 where
  pub request : p.x_stock_transfer_request_id ≡ some r.id
  pub source : p.location_id ≡ env.lot_stock_id r.transfer_warehouse_id
  pub target : p.location_dest_id ≡ transit
  pub fresh : p.state ≡ MoveState.draft
  pub picking_type :
      p.picking_type_id
      ≡ env.internal_picking_type (env.warehouse_id (env.lot_stock_id r.transfer_warehouse_id))
  pub moves :
      All
        (λ m.
          (m.location_dest_id ≡ transit)
          × (m.state ≡ MoveState.draft)
          × (m.product_uom_qty ≡ m.quantity))
        p.move_ids

total-prepare_stock_move_values :
    (f : ℕ → ℤ → ℤ) (next t l d : ℕ) (vals : List MoveVals)
    → total (λ m. f m.product_id m.quantity) (prepare_stock_move_values next t l d vals)
      ≡ total (asked_by f) vals
unfolding prepare_stock_move_values
total-prepare_stock_move_values f next t l d [] = refl
total-prepare_stock_move_values f next t l d (v ∷ vals) =
    rw (total-prepare_stock_move_values f (suc next) t l d vals)

-- What a call that made one picking has read.
module _ (env : Env) (r : Request) (transit : ℕ) where
  create_stock_picking_in_out-eq-ok :
      (ids : Ids) (key : Text) (vals : List MoveVals) {p : Picking} {ids' : Ids}
      → create_stock_picking_in_out env ids r transit key vals ≡ ok (p, ids')
      → (l : ℕ) × (w : Text) × (t : ℕ) × (parse_key (split b'-' key) ≡ ok (l, w))
        × (env.internal_picking_type (env.warehouse_id l) ≡ some t)
        × (create_picking_out env ids r t l transit w vals ≡ (p, ids'))
  unfolding create_stock_picking_in_out
  create_stock_picking_in_out-eq-ok ids key vals h =
      let ((l, w), parsed, rest) = bind-Returns (parse_key (split b'-' key)) _ h in
      elim (Option-cases (env.internal_picking_type (env.warehouse_id l))) [
        | inl missing ↦ cc
        | inr (t, found) ↦ (l, w, t, parsed, found, ground arith)
      ]

  create_pickings-cons :
      (ids : Ids) (key : Text) (vals : List MoveVals) (groups : Dict Text (List MoveVals))
      {ps : List Picking} {ids'' : Ids}
      → create_pickings env ids r transit ((key, vals) ∷ groups) ≡ ok (ps, ids'')
      → (p : Picking) × (ids' : Ids) × (qs : List Picking) × (create_stock_picking_in_out env ids r
            transit key vals
          ≡ ok (p, ids'))
        × (create_pickings env ids' r transit groups ≡ ok (qs, ids''))
        × (ps ≡ p ∷ qs)
  unfolding create_pickings
  create_pickings-cons ids key vals groups h =
      let ((p, ids'), made, rest) =
        bind-Returns (create_stock_picking_in_out env ids r transit key vals) _ h in
      let ((qs, last), others, end) =
        bind-Returns (create_pickings env ids' r transit groups) _ rest in
      (p, ids', qs, made, ground arith, ground arith)

  -- A key that is read as the request's source location.
  abbrev pub IsFromSource : Text → Type 0
  IsFromSource key =
      (w : Text) × (parse_key (split b'-' key) ≡ ok (env.lot_stock_id r.transfer_warehouse_id, w))

  prepare_stock_move_values-All :
      (next t l : ℕ) (vals : List MoveVals)
      → All (λ v. (v.state ≡ MoveState.draft) × (v.product_uom_qty ≡ v.quantity)) vals
      → All
          (λ m.
            (m.location_dest_id ≡ transit)
            × (m.state ≡ MoveState.draft)
            × (m.product_uom_qty ≡ m.quantity))
          (prepare_stock_move_values next t l transit vals)
  unfolding prepare_stock_move_values
  prepare_stock_move_values-All next t l [] h = tt
  prepare_stock_move_values-All next t l (v ∷ vals) (h, hs) =
      ((refl, h.0, h.1), prepare_stock_move_values-All (suc next) t l vals hs)

  create_picking_out-IsOutgoing :
      (ids : Ids) (t : ℕ) (w : Text) (vals : List MoveVals)
      → env.internal_picking_type (env.warehouse_id (env.lot_stock_id r.transfer_warehouse_id))
        ≡ some t
      → All (λ v. (v.state ≡ MoveState.draft) × (v.product_uom_qty ≡ v.quantity)) vals
      → let source = env.lot_stock_id r.transfer_warehouse_id in
        IsOutgoing env r transit (create_picking_out env ids r t source transit w vals).0
  unfolding create_picking_out
  create_picking_out-IsOutgoing ids t w vals found h = record {
    request = refl;
    source = refl;
    target = refl;
    fresh = refl;
    picking_type = sym found;
    moves =
        prepare_stock_move_values-All ids.move t (env.lot_stock_id r.transfer_warehouse_id) vals h;
  }

  abbrev pub IsGroup : Text × List MoveVals → Type 0
  IsGroup (key, vals) =
      IsFromSource key
      × All (λ v. (v.state ≡ MoveState.draft) × (v.product_uom_qty ≡ v.quantity)) vals

  -- What one picking carries and where it goes, for one group.
  abbrev pub IsMadeFor : (ℕ → ℤ → ℤ) → List MoveVals → Picking → Type 0
  IsMadeFor f vals p =
      (total (λ m. f m.product_id m.quantity) p.move_ids ≡ total (asked_by f) vals)
      × IsOutgoing env r transit p

  create_stock_picking_in_out-IsMadeFor :
      (f : ℕ → ℤ → ℤ) (ids : Ids) (key : Text) (vals : List MoveVals) {p : Picking} {ids' : Ids}
      → IsGroup (key, vals)
      → create_stock_picking_in_out env ids r transit key vals ≡ ok (p, ids')
      → IsMadeFor f vals p
  create_stock_picking_in_out-IsMadeFor f ids key vals ((w', from), vs) made =
      let (l, w, t, parsed, found, out) = create_stock_picking_in_out-eq-ok ids key vals made in
      let source : l ≡ env.lot_stock_id r.transfer_warehouse_id = cc (parsed, from) in
      let made_eq = ap (λ q. q.0) out in
      let found' =
        subst (λ x. env.internal_picking_type (env.warehouse_id x) ≡ some t) source found in
      subst (IsMadeFor f vals) made_eq (
        subst (λ x. IsMadeFor f vals (create_picking_out env ids r t x transit w vals).0)
          (sym source)
          (
            unfold create_picking_out in
                total-prepare_stock_move_values f ids.move t
                  (env.lot_stock_id r.transfer_warehouse_id) transit vals,
            create_picking_out-IsOutgoing ids t w vals found' vs,
          ))

  pub create_pickings-eq-ok :
      (f : ℕ → ℤ → ℤ) (groups : Dict Text (List MoveVals)) (ids : Ids) {ps : List Picking}
      {ids' : Ids}
      → All IsGroup groups
      → create_pickings env ids r transit groups ≡ ok (ps, ids')
      → (moved f ps ≡ total (λ g. total (asked_by f) g.1) groups)
        × All (IsOutgoing env r transit) ps
  unfolding create_pickings
  create_pickings-eq-ok f [] ids {ps} gs h =
      let none_made : [] ≡ ps = cc in
      subst (λ qs. (moved f qs ≡ pos 0) × All (IsOutgoing env r transit) qs) none_made (refl, tt)
  create_pickings-eq-ok f ((key, vals) ∷ groups) ids {ps} (g, gs) h =
      let (p, ids', qs, made, others, e) = create_pickings-cons ids key vals groups h in
      let (one, out) = create_stock_picking_in_out-IsMadeFor f ids key vals g made in
      let (rest, out_rest) = create_pickings-eq-ok f groups ids' gs others in
      rw e (rw (one, rest) refl, (out, out_rest))

  pub groups-IsGroup : All IsGroup (get_picking_data_foreach_location env r)
  unfolding get_picking_data_foreach_location
  groups-IsGroup =
      append_by-All (key_line env r) IsFromSource
        (λ v. (v.state ≡ MoveState.draft) × (v.product_uom_qty ≡ v.quantity))
        prepare_stock_move_vals [] r.request_line_ids
        (λ line. (
          (str line.dest_warehouse_id, parse_key-key_line env r line),
          unfold prepare_stock_move_vals in (refl, refl),
        ))
        tt
