-- ===== src/Returns/Cascade/Restored.antt =====
-- Drafting refunds undoes what their posting made.
use mathlib.Core.List.{append-nil}
use hai_compnay.Common.{
  suc, ◌&&◌, filtered-append, ℕ, List, [], ◌∷◌, ◌++◌, map, ◌≡◌, refl, ap, ◌∙◌, arith, some, Bool,
  true, false, Result, ok, any, is_nonempty, not, ◌==◌, All,
}
use hai_compnay.Returns.Cost.{
  Convert, Company, Invoice, CogMove, CostError, valued_lines, create_diff_cog_return_invoice,
}
use hai_compnay.Returns.Cost.Balanced.{IsSound, create_diff_cog_return_invoice-IsSound}
use hai_compnay.Returns.Cascade.{MoveState, AccountMove, mem, is_among, button_draft}
use hai_compnay.Returns.Cascade.Undone.{key, IsDistinct, KeepsKeys, without, button_draft_keys}

-- The created moves in the database, posted, numbered on from `next`.
abbrev pub numbered : ℕ → List CogMove → List AccountMove
numbered next [] = []
numbered next (m ∷ ms) =
    record {
      id = next;
      state = MoveState.posted;
      x_origin_cog_move_id = some m.x_origin_cog_move_id;
    }
    ∷ numbered (suc next) ms

abbrev pub invoice_id : Invoice → ℕ
invoice_id i = i.id

known :
    (test : Invoice → Bool) (origin : ℕ) (invoices : List Invoice)
    → any (λ i. (i.id == origin) && test i) invoices ≡ true
    → mem origin (map invoice_id invoices) ≡ true
known test origin [] h = cc
known test origin (i ∷ is) h = ground (arith, known test origin is)

without-append :
    (ids : List ℕ) (ms ns : List AccountMove)
    → without ids (ms ++ ns) ≡ without ids ms ++ without ids ns
without-append ids ms ns = filtered-append (λ m. not (is_among ids m.x_origin_cog_move_id)) ms ns

without-numbered :
    (invoices : List Invoice) (next : ℕ) (moves : List CogMove)
    → All (IsSound invoices) moves
    → without (map invoice_id invoices) (numbered next moves) ≡ []
without-numbered invoices next [] h = refl
without-numbered invoices next (m ∷ ms) ((balanced, full, from_), hs) =
    let among =
      known (λ i. i.is_in_refund && is_nonempty (valued_lines i)) m.x_origin_cog_move_id invoices
        from_ in
    rw (among, without-numbered invoices (suc next) ms hs) refl

-- Let Odoo's method change states alone, and no move come from one of the invoices before they are
-- posted. If posting makes moves for cost differences, which then have identifiers of their own, and
-- drafting all the invoices goes through, the moves there are, with their identifiers and
-- origins, are those from before the posting.
pub create_diff_cog_return_invoice-button_draft :
    (call : List ℕ → List AccountMove → Result CostError (List AccountMove)) (c : Convert)
    (company : Company) (invoices : List Invoice) (moves : List CogMove) (next : ℕ)
    (db db' : List AccountMove)
    → KeepsKeys call
    → without (map invoice_id invoices) db ≡ db
    → create_diff_cog_return_invoice c company invoices ≡ ok moves
    → IsDistinct (db ++ numbered next moves)
    → button_draft call false (map invoice_id invoices) (db ++ numbered next moves) ≡ ok db'
    → map key db' ≡ map key db
create_diff_cog_return_invoice-button_draft call c company invoices moves next db db' keeps none_
      made h done =
    let ids = map invoice_id invoices in
    let sound = create_diff_cog_return_invoice-IsSound c company invoices moves made in
    button_draft_keys call ids (db ++ numbered next moves) db' keeps h done
    ∙ ap (map key) (
        without-append ids db (numbered next moves)
        ∙ ap (λ ns. without ids db ++ ns) (without-numbered invoices next moves sound)
        ∙ append-nil (without ids db)
        ∙ none_)
