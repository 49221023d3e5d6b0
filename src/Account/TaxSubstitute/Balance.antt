-- ===== src/Account/TaxSubstitute/Balance.antt =====
-- What the moves for the tax authorities owe.
use hai_compnay.Common.{
  ℕ, List, [], ◌∷◌, ◌++◌, ◌≡◌, ◌≢◌, refl, sym, ap, subst, ◌∙◌, ◌↔◌, arith, none, some, Option-cases,
  false, Bool-cases, inl, inr, ok, All, is_nonempty, nat_key,
}
use hai_compnay.Common.Dict.{Dict, get_or, modify}
use hai_compnay.Common.Dict.Group.{append_by}
use hai_compnay.Account.TaxSubstitute.{
  MoveLine, by_partner_step, by_partner_loop, get_list_by_partner,
}

abbrev pub HasAuthority : MoveLine → Type 0
HasAuthority l = l.x_tax_authority_id ≢ none

abbrev pub authority_of : MoveLine → ℕ
authority_of l = get_or l.x_tax_authority_id 0

by_partner_loop-some :
    (d : Dict ℕ (List MoveLine)) (errs : List ℕ) (l : MoveLine) (ls : List MoveLine) (a : ℕ)
    → l.x_tax_authority_id ≡ some a
    → by_partner_loop d errs (l ∷ ls) ≡ by_partner_loop (modify a (λ xs. xs ++ l ∷ []) [] d) errs ls
unfolding by_partner_loop
by_partner_loop-some d errs l ls a found =
    ap (λ o. by_partner_loop (by_partner_step d errs l o).0 (by_partner_step d errs l o).1 ls) found

by_partner_loop-none :
    (d : Dict ℕ (List MoveLine)) (errs : List ℕ) (l : MoveLine) (ls : List MoveLine)
    → l.x_tax_authority_id ≡ none
    → by_partner_loop d errs (l ∷ ls) ≡ by_partner_loop d (errs ++ l.tax_name ∷ []) ls
unfolding by_partner_loop
by_partner_loop-none d errs l ls missing =
    ap (λ o. by_partner_loop (by_partner_step d errs l o).0 (by_partner_step d errs l o).1 ls)
      missing

abbrev add_line : Dict ℕ (List MoveLine) → MoveLine → ℕ → Dict ℕ (List MoveLine)
add_line d l a = modify a (λ xs. xs ++ l ∷ []) [] d

by_partner_loop-groups :
    (d : Dict ℕ (List MoveLine)) (errs : List ℕ) (ls : List MoveLine)
    → All HasAuthority ls
    → by_partner_loop d errs ls ≡ (append_by authority_of (λ l. l) d ls, errs)
unfolding by_partner_loop
by_partner_loop-groups d errs [] h = refl
by_partner_loop-groups d errs (l ∷ ls) (h, hs) = elim (Option-cases l.x_tax_authority_id) [
  | inl missing ↦ absurd (h missing)
  | inr (a, found) ↦
      by_partner_loop-some d errs l ls a found
      ∙ by_partner_loop-groups (add_line d l a) errs ls hs
      ∙ ap (λ b. (append_by authority_of (λ x. x) (add_line d l b) ls, errs))
          (sym (ap (λ o. get_or o 0) found))
]

-- The names noted, without the groups.
by_partner_loop_errs :
    (d : Dict ℕ (List MoveLine)) (errs : List ℕ) (ls : List MoveLine)
    → is_nonempty (by_partner_loop d errs ls).1 ≡ false
    → (errs ≡ []) × All HasAuthority ls
unfolding by_partner_loop
by_partner_loop_errs d [] [] h = (refl, tt)
by_partner_loop_errs d (e ∷ errs) [] h = ground arith
by_partner_loop_errs d errs (l ∷ ls) h = elim (Option-cases l.x_tax_authority_id) [
  | inl missing ↦
      let noted =
        subst (λ r. is_nonempty r.1 ≡ false) (by_partner_loop-none d errs l ls missing) h in
      absurd (grown errs l.tax_name (by_partner_loop_errs d (errs ++ l.tax_name ∷ []) ls noted).0)
  | inr (a, found) ↦
      let rest =
        by_partner_loop_errs (add_line d l a) errs ls
          (subst (λ r. is_nonempty r.1 ≡ false) (by_partner_loop-some d errs l ls a found) h) in
      (rest.0, (λ missing. ground arith, rest.1))
]
  where
    grown : (xs : List ℕ) (x : ℕ) → xs ++ x ∷ [] ≢ []
    grown [] x e = ground arith
    grown (y ∷ ys) x e = ground arith

pub get_list_by_partner_iff :
    (ls : List MoveLine) (d : Dict ℕ (List MoveLine))
    → (get_list_by_partner ls ≡ ok d)
      ↔ (All HasAuthority ls × (d ≡ append_by authority_of (λ l. l) [] ls))
unfolding get_list_by_partner
get_list_by_partner_iff ls d = (
  λ h. elim (Bool-cases (is_nonempty (by_partner_loop [] [] ls).1)) [
    | inl faulty ↦ ground (arith, faulty)
    | inr clean ↦
        let hs = (by_partner_loop_errs [] [] ls clean).1 in
        let groups = by_partner_loop-groups [] [] ls hs in (hs, ground arith)
  ],
  λ (hs, e). let groups = by_partner_loop-groups [] [] ls hs in rw (groups, e) refl,
)
