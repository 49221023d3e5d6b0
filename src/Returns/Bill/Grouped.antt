-- ===== src/Returns/Bill/Grouped.antt =====
-- Which lines the bill wizard accepts, and how it deals them out to return orders.
use hai_compnay.Common.{
  ℕ, List, [], ◌∷◌, Option, ◌≡◌, ◌≢◌, refl, sym, ap, subst, ◌∙◌, ◌↔◌, arith, Bool, true, false,
  Bool-cases, inl, inr, Result, ok, ◌>>=◌, ◌>>◌, raise_if, if◌then◌else◌, filtered, is_nonempty,
  not, All, nat_key, bind-Returns, ok-injective, ◌==◌, ◌&&◌, filtered-filtered,
}
use hai_compnay.Common.Int.{ℤ, pos, ◌≤ℤ◌, ltb_ℤ, leb_ℤ, total, int_laws}
use hai_compnay.Common.Dict.{Dict}
use hai_compnay.Common.Dict.Group.{append_by, total_at, total_at-append_by}
use hai_compnay.Returns.Wizard.{ReturnLine, Error, nothing_selected, no_quantity, selected}
use hai_compnay.Returns.Purchase.{
  PurchaseLine, PurchaseOrder, ReturnVals, PurchaseVals, prepare_purchase_line_default_values,
  prepare_purchase_default_values,
}
use hai_compnay.Returns.Bill.{
  BillWizard, purchase_of, add_vals, bill_loop, bill_orders, button_create_bill_return,
}

abbrev pub has_quantity : ReturnLine PurchaseLine → Bool
has_quantity l = ltb_ℤ (pos 0) l.return_qty

-- The lines that are returned: the selected ones with a positive quantity.
abbrev pub taken : ReturnLine PurchaseLine → Bool
taken l = l.is_selected && has_quantity l

abbrev pub IsWithin : ReturnLine PurchaseLine → Type 0
IsWithin l = l.return_qty ≤ℤ l.remaining_qty

abbrev pub grouped : List (ReturnLine PurchaseLine) → Dict ℕ (List ReturnVals)
grouped = append_by purchase_of prepare_purchase_line_default_values []

bill_loop_ok :
    (d : Dict ℕ (List ReturnVals)) (ls : List (ReturnLine PurchaseLine))
    → All IsWithin (filtered has_quantity ls)
    → bill_loop d ls
      ≡ ok (append_by purchase_of prepare_purchase_line_default_values d (filtered has_quantity ls))
unfolding bill_loop
bill_loop_ok d [] h = refl
bill_loop_ok d (l ∷ ls) h = elim (Bool-cases (has_quantity l)) [
  | inr none_ ↦ rw none_ (bill_loop_ok d ls (rw none_ at h))
  | inl some_ ↦
      let (fits, hs) = rw some_ at h in
      let within : ltb_ℤ l.remaining_qty l.return_qty ≡ false = ground arith in
      let positive : leb_ℤ l.return_qty (pos 0) ≡ false = ground (arith, some_) in
      rw (some_, within, positive) (bill_loop_ok (add_vals l d) ls hs)
]

bill_loop_fits :
    (d d' : Dict ℕ (List ReturnVals)) (ls : List (ReturnLine PurchaseLine))
    → bill_loop d ls ≡ ok d'
    → All IsWithin (filtered has_quantity ls)
unfolding bill_loop
bill_loop_fits d d' [] h = tt
bill_loop_fits d d' (l ∷ ls) h = elim (Bool-cases (has_quantity l)) [
  | inr none_ ↦ rw none_ (bill_loop_fits d d' ls (rw none_ at h))
  | inl some_ ↦ elim (Bool-cases (ltb_ℤ l.remaining_qty l.return_qty)) [
    | inl over ↦ ground (arith, some_, over)
    | inr within ↦
        let positive : leb_ℤ l.return_qty (pos 0) ≡ false = ground (arith, some_) in
        rw some_
          (ground arith, bill_loop_fits (add_vals l d) d' ls (rw (some_, within, positive) at h))
  ]
]

add_vals_nonempty :
    (l : ReturnLine PurchaseLine) (d : Dict ℕ (List ReturnVals)) → is_nonempty (add_vals l d) ≡ true
add_vals_nonempty l [] = refl
add_vals_nonempty l ((k, vs) ∷ d) = elim (Bool-cases (k == purchase_of l)) [
  | inl same ↦ rw same refl
  | inr other ↦ rw other refl
]

grouped_nonempty :
    (d : Dict ℕ (List ReturnVals)) (ls : List (ReturnLine PurchaseLine))
    → is_nonempty d ≡ true
    → is_nonempty (append_by purchase_of prepare_purchase_line_default_values d ls) ≡ true
grouped_nonempty d [] h = h
grouped_nonempty d (l ∷ ls) h = grouped_nonempty (add_vals l d) ls (add_vals_nonempty l d)

is_nonempty-grouped :
    (ls : List (ReturnLine PurchaseLine)) → is_nonempty (grouped ls) ≡ is_nonempty ls
is_nonempty-grouped [] = refl
is_nonempty-grouped (l ∷ ls) = grouped_nonempty (add_vals l []) ls (add_vals_nonempty l [])

-- The method on the selected lines `sel`.
make_orders :
    (sel : List (ReturnLine PurchaseLine))
    → (Dict ℕ (List ReturnVals) → List PurchaseVals)
    → Result Error (List PurchaseVals)
make_orders sel orders_of = do
  raise_if (not (is_nonempty sel)) nothing_selected
  list_line_vals ← bill_loop [] sel
  raise_if (not (is_nonempty list_line_vals)) no_quantity
  ok (orders_of list_line_vals)

make_orders_iff :
    (sel : List (ReturnLine PurchaseLine))
    (orders_of : Dict ℕ (List ReturnVals) → List PurchaseVals) (orders : List PurchaseVals)
    → let ls = filtered has_quantity sel in
      (make_orders sel orders_of ≡ ok orders)
      ↔ ((ls ≢ []) × All IsWithin ls × (orders ≡ orders_of (grouped ls)))
unfolding make_orders
make_orders_iff [] orders_of orders = (λ h. cc, λ (h, hs, e). absurd (h refl))
make_orders_iff (l ∷ sel) orders_of orders = (
  λ h.
      let (d, made, rest) = bind-Returns (bill_loop [] (l ∷ sel)) _ h in
      let fits = bill_loop_fits [] d (l ∷ sel) made in
      let d_is = ok-injective (sym made ∙ bill_loop_ok [] (l ∷ sel) fits) in
      let (u, full, built) = bind-Returns (raise_if (not (is_nonempty d)) no_quantity) _ rest in
      (
        λ empty. some_group d full (d_is ∙ ap grouped empty),
        fits,
        sym (ok-injective built) ∙ ap orders_of d_is,
      ),
  λ (some_, fits, e).
      let ls = filtered has_quantity (l ∷ sel) in
      let full = is_nonempty-grouped ls ∙ has_some ls some_ in
      rw (bill_loop_ok [] (l ∷ sel) fits, full, e) refl,
)
  where
    some_group :
        (d : Dict ℕ (List ReturnVals)) {u : Unit {0}}
        → raise_if (not (is_nonempty d)) no_quantity ≡ ok u
        → d ≢ []
    some_group [] h e = cc
    some_group (g ∷ d) h e = ground arith

    has_some : (ls : List (ReturnLine PurchaseLine)) → ls ≢ [] → is_nonempty ls ≡ true
    has_some [] h = absurd (h refl)
    has_some (x ∷ xs) h = refl

-- The wizard makes return orders exactly when a selected line has a positive quantity and no such
-- line exceeds what remains; they are then made from those lines, grouped by purchase order.
pub button_create_bill_return_iff :
    (order_of : ℕ → PurchaseOrder) (of_type : ℕ → Option ℕ) (w : BillWizard)
    (orders : List PurchaseVals)
    → let ls = filtered taken w.return_line_ids in
      (button_create_bill_return order_of of_type w ≡ ok orders)
      ↔ ((ls ≢ []) × All IsWithin ls × (orders ≡ bill_orders order_of of_type w (grouped ls)))
unfolding button_create_bill_return make_orders
button_create_bill_return_iff order_of of_type w orders =
    subst
      (λ ls.
        (button_create_bill_return order_of of_type w ≡ ok orders)
        ↔ ((ls ≢ []) × All IsWithin ls × (orders ≡ bill_orders order_of of_type w (grouped ls))))
      (filtered-filtered selected has_quantity w.return_line_ids)
      (make_orders_iff (filtered selected w.return_line_ids) (bill_orders order_of of_type w)
        orders)

-- What the lines of the orders for purchase `p` come to, counted by `weight`.
abbrev pub order_total : (ReturnVals → ℤ) → ℕ → List PurchaseVals → ℤ
order_total weight p =
    total (λ o. if o.x_origin_purchase_id == p then total weight o.order_line else pos 0)

order_total-bill_orders :
    (order_of : ℕ → PurchaseOrder) (of_type : ℕ → Option ℕ) (w : BillWizard)
    (weight : ReturnVals → ℤ) (p : ℕ) (groups : Dict ℕ (List ReturnVals))
    → ((i : ℕ) → (order_of i).id ≡ i)
    → order_total weight p (bill_orders order_of of_type w groups)
      ≡ total_at purchase_of weight p groups
unfolding bill_orders prepare_purchase_default_values
order_total-bill_orders order_of of_type w weight p [] browse = refl
order_total-bill_orders order_of of_type w weight p ((k, []) ∷ groups) browse =
    rw (order_total-bill_orders order_of of_type w weight p groups browse)
      (elim (Bool-cases (k == p)) [
        | inl same ↦ rw same (omega int_laws)
        | inr other ↦ rw other (omega int_laws)
      ])
order_total-bill_orders order_of of_type w weight p ((k, v ∷ vs) ∷ groups) browse =
    rw (browse k, order_total-bill_orders order_of of_type w weight p groups browse) refl

-- When the wizard makes return orders, then for every purchase order and every way to count the
-- values of a line, the return orders of that purchase count as much as the returned lines of its
-- order lines. (`order_of` reads the purchase order with an identifier.)
pub button_create_bill_return-total :
    (order_of : ℕ → PurchaseOrder) (of_type : ℕ → Option ℕ) (w : BillWizard)
    (orders : List PurchaseVals) (weight : ReturnVals → ℤ) (p : ℕ)
    → ((i : ℕ) → (order_of i).id ≡ i)
    → button_create_bill_return order_of of_type w ≡ ok orders
    → order_total weight p orders
      ≡ total
          (λ l.
            if purchase_of l == p then weight (prepare_purchase_line_default_values l) else pos 0)
          (filtered taken w.return_line_ids)
button_create_bill_return-total order_of of_type w orders weight p browse h =
    let ls = filtered taken w.return_line_ids in
    let (some_, fits, made) = (button_create_bill_return_iff order_of of_type w orders).0 h in
    ap (order_total weight p) made
    ∙ order_total-bill_orders order_of of_type w weight p (grouped ls) browse
    ∙ total_at-append_by purchase_of weight p prepare_purchase_line_default_values [] ls
    ∙ omega int_laws
