-- ===== src/Returns/Cascade/Undone.antt =====
-- After a refund is back to draft, the moves that come from it are gone, and no others.
use hai_compnay.Common.{
  ℕ, List, [], ◌∷◌, map, ◌≡◌, ◌≢◌, refl, sym, ap, subst, ◌∙◌, arith, Option, Bool, true, false,
  Bool-cases, inl, inr, Result, ok, filtered, is_nonempty, not, ◌==◌, ==_self, All, bind-Returns,
  ok-injective,
}
use hai_compnay.Returns.Cascade.{
  AccountMove, mem, is_among, cog_moves_of, id_of, unlinked, back_cog_move, is_posted,
  action_back_cog_move_draft, button_draft,
}

-- A move's identifier, and the move that it comes from.
abbrev pub key : AccountMove → ℕ × Option ℕ
key m = (m.id, m.x_origin_cog_move_id)

-- No two moves have the same identifier.
abbrev IsDistinctKeys : List (ℕ × Option ℕ) → Type 0
IsDistinctKeys [] = Unit
IsDistinctKeys (k ∷ ks) = All (λ j. j.0 ≢ k.0) ks × IsDistinctKeys ks

abbrev pub IsDistinct : List AccountMove → Type 0
IsDistinct ms = IsDistinctKeys (map key ms)

-- Odoo's method changes states, and neither the moves there are nor where they come from.
abbrev pub KeepsKeys :
    {E : Type 0} → (List ℕ → List AccountMove → Result E (List AccountMove)) → Type 0
KeepsKeys call =
    (ids : List ℕ) (db db' : List AccountMove) → call ids db ≡ ok db' → map key db' ≡ map key db

-- The test on a move's origin, and on its identifier, read off its key.
abbrev comes_from : List ℕ → ℕ × Option ℕ → Bool
comes_from ids k = is_among ids k.1

abbrev has_id : List ℕ → ℕ × Option ℕ → Bool
has_id ids k = mem k.0 ids

map-filtered :
    (p : ℕ × Option ℕ → Bool) (ms : List AccountMove)
    → map key (filtered (λ m. p (key m)) ms) ≡ filtered p (map key ms)
map-filtered p [] = refl
map-filtered p (m ∷ ms) = elim (Bool-cases (p (key m))) [
  | inl kept ↦ rw (kept, map-filtered p ms) refl
  | inr gone ↦ rw (gone, map-filtered p ms) refl
]

absent :
    (i : ℕ) (p : AccountMove → Bool) (ms : List AccountMove)
    → All (λ k. k.0 ≢ i) (map key ms)
    → mem i (map id_of (filtered p ms)) ≡ false
absent i p [] h = refl
absent i p (m ∷ ms) (h, hs) = elim (Bool-cases (p m)) [
  | inl kept ↦ rw (kept, absent i p ms hs) (ground arith)
  | inr gone ↦ rw gone (absent i p ms hs)
]

drop_head :
    (i : ℕ) (is : List ℕ) (ms : List AccountMove)
    → All (λ k. k.0 ≢ i) (map key ms)
    → unlinked (i ∷ is) ms ≡ unlinked is ms
drop_head i is [] h = refl
drop_head i is (m ∷ ms) (h, hs) =
    let other : (m.id == i) ≡ false = ground (arith, h) in rw (other, drop_head i is ms hs) refl

filtered-kept :
    (p : AccountMove → Bool) (m : AccountMove) (ms : List AccountMove)
    → p m ≡ true
    → filtered p (m ∷ ms) ≡ m ∷ filtered p ms
filtered-kept p m ms h = rw h refl

filtered-gone :
    (p : AccountMove → Bool) (m : AccountMove) (ms : List AccountMove)
    → p m ≡ false
    → filtered p (m ∷ ms) ≡ filtered p ms
filtered-gone p m ms h = rw h refl

-- On moves with different identifiers, deleting by the identifiers of some is deleting those.
delete_lem :
    (p : AccountMove → Bool) (ms : List AccountMove)
    → IsDistinct ms
    → unlinked (map id_of (filtered p ms)) ms ≡ filtered (λ m. not (p m)) ms
delete_lem p [] h = refl
delete_lem p (m ∷ ms) (h, hs) =
    let is = map id_of (filtered p ms) in
    elim (Bool-cases (p m)) [
      | inl kept ↦
          ap (λ fs. unlinked (map id_of fs) (m ∷ ms)) (filtered-kept p m ms kept)
          ∙ filtered-gone (λ n. not (mem n.id (m.id ∷ is))) m ms (rw (==_self m.id) refl)
          ∙ drop_head m.id is ms h
          ∙ delete_lem p ms hs
          ∙ sym (filtered-gone (λ n. not (p n)) m ms (ap not kept))
      | inr gone ↦
          ap (λ fs. unlinked (map id_of fs) (m ∷ ms)) (filtered-gone p m ms gone)
          ∙ filtered-kept (λ n. not (mem n.id is)) m ms (ap not (absent m.id p ms h))
          ∙ ap (λ ns. m ∷ ns) (delete_lem p ms hs)
          ∙ sym (filtered-kept (λ n. not (p n)) m ms (ap not gone))
    ]

-- Equal keys delete alike.
unlinked_keys :
    (ids : List ℕ) (ms ms' : List AccountMove)
    → map key ms' ≡ map key ms
    → map key (unlinked ids ms') ≡ map key (unlinked ids ms)
unlinked_keys ids ms ms' e =
    map-filtered (λ k. not (has_id ids k)) ms'
    ∙ ap (filtered (λ k. not (has_id ids k))) e
    ∙ sym (map-filtered (λ k. not (has_id ids k)) ms)

-- The moves that do not come from one of these.
abbrev pub without : List ℕ → List AccountMove → List AccountMove
without ids = filtered (λ m. not (is_among ids m.x_origin_cog_move_id))

none_among :
    (p : AccountMove → Bool) (ms : List AccountMove)
    → is_nonempty (filtered p ms) ≡ false
    → filtered (λ m. not (p m)) ms ≡ ms
none_among p [] h = refl
none_among p (m ∷ ms) h = elim (Bool-cases (p m)) [
  | inl kept ↦ cc (rw kept at h)
  | inr gone ↦ rw (gone, none_among p ms (rw gone at h)) refl
]

module _ {E : Type 0} (call : List ℕ → List AccountMove → Result E (List AccountMove)) where
  back_cog_move_keys :
      (test : AccountMove → Bool) (ids : List ℕ) (db db' : List AccountMove)
      → KeepsKeys call
      → IsDistinct db
      → back_cog_move call test ids db ≡ ok db'
      → map key db' ≡ map key (without ids db)
  unfolding back_cog_move
  back_cog_move_keys test ids db db' keeps h done =
      elim (Bool-cases (is_nonempty (cog_moves_of ids db))) [
        | inr empty_ ↦
            let same : db ≡ db' = ok-injective (rw empty_ at done) in
            ap (map key)
              (sym same ∙ sym (none_among (λ m. is_among ids m.x_origin_cog_move_id) db empty_))
        | inl some_ ↦
            let (called, call_done, rest) =
              bind-Returns (call (map id_of (filtered test (cog_moves_of ids db))) db) _
                (rw some_ at done) in
            ap (map key) (sym (ok-injective rest))
            ∙ unlinked_keys (map id_of (cog_moves_of ids db)) db called
                (keeps _ db called call_done)
            ∙ ap (map key) (delete_lem (λ m. is_among ids m.x_origin_cog_move_id) db h)
      ]

  IsDistinct-map :
      (ms ms' : List AccountMove) → map key ms' ≡ map key ms → IsDistinct ms → IsDistinct ms'
  IsDistinct-map ms ms' e h = subst IsDistinctKeys (sym e) h

  -- Let Odoo's method change states alone, and the moves have different identifiers. Where a draft goes
  -- through, outside the context that a cascade sets, the moves that are left are those that do not come from one
  -- of the drafted moves, each with its identifier and origin.
  pub button_draft_keys :
      (ids : List ℕ) (db db' : List AccountMove)
      → KeepsKeys call
      → IsDistinct db
      → button_draft call false ids db ≡ ok db'
      → map key db' ≡ map key (without ids db)
  unfolding button_draft action_back_cog_move_draft
  button_draft_keys ids db db' keeps h done =
      let (called, call_done, rest) = bind-Returns (call ids db) _ done in
      let same = keeps ids db called call_done in
      back_cog_move_keys is_posted ids called db' keeps (IsDistinct-map db called same h) rest
      ∙ map-filtered (λ k. not (comes_from ids k)) called
      ∙ ap (filtered (λ k. not (comes_from ids k))) same
      ∙ sym (map-filtered (λ k. not (comes_from ids k)) db)
