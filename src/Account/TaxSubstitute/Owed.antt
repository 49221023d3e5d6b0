-- ===== src/Account/TaxSubstitute/Owed.antt =====
-- What the moves of `_post` owe to each tax authority.
use hai_compnay.Common.{
  ℕ, List, [], ◌∷◌, ◌++◌, map, ◌≡◌, refl, sym, ap, subst, ◌∙◌, ◌↔◌, ◌⊎◌, arith, Option, none, some,
  Option-cases, Bool, true, false, inl, inr, ok, ◌>>=◌, ◌>>◌, raise_if, if◌then◌else◌, filtered,
  All, All-append, bind-Returns, ok-injective, ◌==◌, ◌&&◌, not, is_nonempty, nat_key,
}
use hai_compnay.Common.Int.{ℤ, pos, ◌+ℤ◌, total, total-append, sum_of-eq-total, int_laws}
use hai_compnay.Common.Dict.{Dict, get_or}
use hai_compnay.Common.Dict.Group.{append_by, total_at, total_at-append_by}
use hai_compnay.Account.TaxSubstitute.{
  MoveLine, Move, TaxProduct, MoveVals, accounts_not_set, is_in_invoice, is_substitute, credit_of,
  get_list_by_partner, debit_val, prepare_credit_tax_payment_substitute_move_lines,
  prepare_tax_payment_substitute_move_lines, prepare_tax_payment_substitute_move, has_accounts,
  post_record, post,
}
use hai_compnay.Account.TaxSubstitute.Balance.{HasAuthority, authority_of, get_list_by_partner_iff}

abbrev pub debited : MoveVals → ℤ
debited v = total (λ l. l.debit) v.line_ids

abbrev pub credited : MoveVals → ℤ
credited v = total (λ l. l.credit) v.line_ids

abbrev pub IsBalanced : MoveVals → Type 0
IsBalanced v = debited v ≡ credited v

-- What new moves owe to authority `a`.
abbrev pub owed : ℕ → List MoveVals → ℤ
owed a = total (λ v. if v.partner_id == a then credited v else pos 0)

-- The lines that such moves are made from.
abbrev pub substitute_lines : List Move → List MoveLine
substitute_lines [] = []
substitute_lines (m ∷ ms) =
    (if is_in_invoice m.move_type then filtered is_substitute m.line_ids else [])
    ++ substitute_lines ms

-- What is due to authority `a` for an amount whose tax goes to this authority.
abbrev pub due : ℕ → Option ℕ → ℤ → ℤ
due a none amount = pos 0
due a (some b) amount = if b == a then amount else pos 0

abbrev pub due_of_line : ℕ → MoveLine → ℤ
due_of_line a l = due a l.x_tax_authority_id l.credit

abbrev weight : ℕ → MoveLine → ℤ
weight a l = if authority_of l == a then l.credit else pos 0

total-debit_val :
    (product : TaxProduct) (ls : List MoveLine)
    → (total (λ l. l.debit) (map (debit_val product) ls) ≡ total credit_of ls)
      × (total (λ l. l.credit) (map (debit_val product) ls) ≡ pos 0)
total-debit_val product [] = (refl, refl)
total-debit_val product (l ∷ ls) =
    let (debits, credits) = total-debit_val product ls in
    (ap (λ t. l.credit +ℤ t) debits, rw credits (omega int_laws))

total-move_lines :
    (product : TaxProduct) (ls : List MoveLine)
    → (total (λ l. l.debit) (prepare_tax_payment_substitute_move_lines ls product)
        ≡ total credit_of ls)
      × (total (λ l. l.credit) (prepare_tax_payment_substitute_move_lines ls product)
          ≡ total credit_of ls)
unfolding prepare_tax_payment_substitute_move_lines prepare_credit_tax_payment_substitute_move_lines
total-move_lines product ls =
    let (debits, credits) = total-debit_val product ls in
    let last = prepare_credit_tax_payment_substitute_move_lines ls product in
    (
      total-append (λ l. l.debit) (map (debit_val product) ls) (last ∷ [])
          ∙ rw debits (omega int_laws),
      total-append (λ l. l.credit) (map (debit_val product) ls) (last ∷ [])
          ∙ rw (credits, sum_of-eq-total credit_of ls) (omega int_laws),
    )

prepare-IsBalanced :
    (move : Move) (product : TaxProduct) (groups : Dict ℕ (List MoveLine))
    → All IsBalanced (map (prepare_tax_payment_substitute_move move product) groups)
unfolding prepare_tax_payment_substitute_move
prepare-IsBalanced move product [] = tt
prepare-IsBalanced move product ((k, ls) ∷ groups) = (
  (let (debits, credits) = total-move_lines product ls in debits ∙ sym credits),
  prepare-IsBalanced move product groups,
)

owed-prepare :
    (a : ℕ) (move : Move) (product : TaxProduct) (groups : Dict ℕ (List MoveLine))
    → owed a (map (prepare_tax_payment_substitute_move move product) groups)
      ≡ total_at authority_of credit_of a groups
unfolding prepare_tax_payment_substitute_move
owed-prepare a move product [] = refl
owed-prepare a move product ((k, ls) ∷ groups) =
    rw (owed-prepare a move product groups, (total-move_lines product ls).1) refl

due_of_line-weight :
    (a : ℕ) (ls : List MoveLine)
    → All HasAuthority ls
    → total (weight a) ls ≡ total (due_of_line a) ls
due_of_line-weight a [] h = refl
due_of_line-weight a (l ∷ ls) (h, hs) = elim (Option-cases l.x_tax_authority_id) [
  | inl missing ↦ absurd (h missing)
  | inr (b, found) ↦
      let same_here : weight a l ≡ due_of_line a l =
        ap (λ o. if get_or o 0 == a then l.credit else pos 0) found
        ∙ sym (ap (λ o. due a o l.credit) found) in
      rw (same_here, due_of_line-weight a ls hs) refl
]

owed-groups :
    (a : ℕ) (move : Move) (product : TaxProduct) (ls : List MoveLine)
    → All HasAuthority ls
    → owed a (
        map
          (prepare_tax_payment_substitute_move move product)
          (append_by authority_of (λ l. l) [] ls))
      ≡ total (due_of_line a) ls
owed-groups a move product ls h =
    owed-prepare a move product (append_by authority_of (λ l. l) [] ls)
    ∙ total_at-append_by authority_of credit_of a (λ l. l) [] ls
    ∙ rw (due_of_line-weight a ls h) (omega int_laws)

abbrev pub lines_of : Move → List MoveLine
lines_of m = if is_in_invoice m.move_type then filtered is_substitute m.line_ids else []

abbrev IsSettled : List MoveLine → List MoveVals → Type 0
IsSettled ls vals = All IsBalanced vals × ((a : ℕ) → owed a vals ≡ total (due_of_line a) ls)

post_record-IsSettled :
    (product : TaxProduct) (m : Move) (vals : List MoveVals)
    → post_record product m ≡ ok vals
    → IsSettled (lines_of m) vals
unfolding post_record
post_record-IsSettled product m vals h =
    go (is_in_invoice m.move_type) (has_accounts product) (filtered is_substitute m.line_ids) h
  where
    go :
        (bill accounts : Bool) (ls : List MoveLine)
        → (if bill && is_nonempty ls
            then (raise_if (not accounts) accounts_not_set
                >> (get_list_by_partner ls >>= λ groups.
                    ok (map (prepare_tax_payment_substitute_move m product) groups)))
            else ok [])
          ≡ ok vals
        → IsSettled (if bill then ls else []) vals
    go false accounts ls h = subst (IsSettled []) (ok-injective h) (tt, λ a. refl)
    go true accounts [] h = subst (IsSettled []) (ok-injective h) (tt, λ a. refl)
    go true false (l ∷ ls) h = cc
    go true true (l ∷ ls) h =
        let (groups, found, made) = bind-Returns (get_list_by_partner (l ∷ ls)) _ h in
        let (hs, grouped) = (get_list_by_partner_iff (l ∷ ls) groups).0 found in
        subst (IsSettled (l ∷ ls))
          (ap (λ d. map (prepare_tax_payment_substitute_move m product) d) (sym grouped)
            ∙ ok-injective made)
          (
            prepare-IsBalanced m product (append_by authority_of (λ x. x) [] (l ∷ ls)),
            λ a. owed-groups a m product (l ∷ ls) hs,
          )

-- `_post` makes balanced moves, and to each tax authority they owe in all what the bills' lines
-- with a negative tax of that authority credit.
pub post-owed :
    (product : TaxProduct) (moves : List Move) (vals : List MoveVals)
    → post product moves ≡ ok vals
    → All IsBalanced vals × ((a : ℕ) → owed a vals ≡ total (due_of_line a) (substitute_lines moves))
unfolding post
post-owed product [] vals h = subst (IsSettled []) (ok-injective h) (tt, λ a. refl)
post-owed product (m ∷ ms) vals h =
    let (first, made, rest) = bind-Returns (post_record product m) _ h in
    let (more, made_more, all_made) = bind-Returns (post product ms) _ rest in
    let (balanced, paid) = post_record-IsSettled product m first made in
    let (balanced_more, paid_more) = post-owed product ms more made_more in
    subst (IsSettled (substitute_lines (m ∷ ms))) (ok-injective all_made) (
      All-append IsBalanced first more balanced balanced_more,
      λ a.
          total-append (λ v. if v.partner_id == a then credited v else pos 0) first more
          ∙ rw (paid a, paid_more a)
              (sym (total-append (due_of_line a) (lines_of m) (substitute_lines ms))),
    )

abbrev pub IsPayable : TaxProduct → Move → Type 0
IsPayable product m =
    ((lines_of m ≡ []) ⊎ (has_accounts product ≡ true)) × All HasAuthority (lines_of m)

post_record_ok :
    (product : TaxProduct) (m : Move)
    → ((vals : List MoveVals) × (post_record product m ≡ ok vals)) ↔ IsPayable product m
unfolding post_record
post_record_ok product m =
    go (is_in_invoice m.move_type) (has_accounts product) (filtered is_substitute m.line_ids)
  where
    go :
        (bill accounts : Bool) (ls : List MoveLine)
        → ((vals : List MoveVals) × ((if bill && is_nonempty ls
                then (raise_if (not accounts) accounts_not_set
                    >> (get_list_by_partner ls >>= λ groups.
                        ok (map (prepare_tax_payment_substitute_move m product) groups)))
                else ok [])
              ≡ ok vals))
          ↔ ((((if bill then ls else []) ≡ []) ⊎ (accounts ≡ true))
              × All HasAuthority (if bill then ls else []))
    go false accounts ls = (λ h. (inl refl, tt), λ h. ([], refl))
    go true accounts [] = (λ h. (inl refl, tt), λ h. ([], refl))
    go true false (l ∷ ls) = (λ (vals, h). cc, λ (h, hs). ground arith)
    go true true (l ∷ ls) = (
      λ (vals, h).
          let (groups, found, made) = bind-Returns (get_list_by_partner (l ∷ ls)) _ h in
          (inr refl, ((get_list_by_partner_iff (l ∷ ls) groups).0 found).0),
      λ (h, hs).
          let groups = append_by authority_of (λ x. x) [] (l ∷ ls) in
          (
            map (prepare_tax_payment_substitute_move m product) groups,
            rw ((get_list_by_partner_iff (l ∷ ls) groups).1 (hs, refl)) refl,
          ),
    )

-- `_post` gets through exactly when, of every bill among the records that has a line with a
-- negative tax, each such line's tax has an authority, and the product's two accounts are set.
pub post_iff :
    (product : TaxProduct) (moves : List Move)
    → ((vals : List MoveVals) × (post product moves ≡ ok vals)) ↔ All (IsPayable product) moves
unfolding post
post_iff product [] = (λ h. tt, λ h. ([], refl))
post_iff product (m ∷ ms) = (
  λ (vals, h).
      let (first, made, rest) = bind-Returns (post_record product m) _ h in
      let (more, made_more, all_made) = bind-Returns (post product ms) _ rest in
      ((post_record_ok product m).0 (first, made), (post_iff product ms).0 (more, made_more)),
  λ (h, hs).
      let (first, made) = (post_record_ok product m).1 h in
      let (more, made_more) = (post_iff product ms).1 hs in
      (first ++ more, rw (made, made_more) refl),
)
