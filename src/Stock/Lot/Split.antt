-- ===== src/Stock/Lot/Split.antt =====
-- `findall`, `split` and `join`: what is found stands in the text, and splitting at it and joining
-- with it gives the text back.
use hai_compnay.Common.{
  ℕ, zero, suc, ◌-◌, List, [], ◌∷◌, ◌++◌, ◌≡◌, refl, sym, arith, Bool-cases, inl, inr, true, false,
  ◌==◌, length, ==_iff, ==_self, is_nonempty,
}
use hai_compnay.Common.Decimal.{Text}
use hai_compnay.Common.Decimal.RoundTrip.{IsDigits}
use hai_compnay.Stock.Lot.{starts_with, cons_head, regex_split, join}

abbrev drop : ℕ → Text → Text
drop zero s = s
drop (suc k) [] = []
drop (suc k) (x ∷ s) = drop k s

-- A number of the text `s`: digits, one at least, that stand in it.
abbrev pub IsNumberOf : Text → Text → Type 0
IsNumberOf s n = IsDigits n × (is_nonempty n ≡ true) × (p : Text) × (q : Text) × (s ≡ p ++ n ++ q)

abbrev pub HasParts : List Text → Type 0
HasParts parts = (t : Text) × (u : Text) × (ts : List Text) × (parts ≡ t ∷ u ∷ ts)

join-cons_head :
    (sep : Text) (x : ℕ) (parts : List Text) → join sep (cons_head x parts) ≡ x ∷ join sep parts
join-cons_head sep x [] = refl
join-cons_head sep x (t ∷ []) = refl
join-cons_head sep x (t ∷ u ∷ ts) = refl

cons_head-parts : (x : ℕ) (parts : List Text) → HasParts parts → HasParts (cons_head x parts)
cons_head-parts x parts (t, u, ts, e) = (x ∷ t, u, ts, rw e refl)

join-nil_cons :
    (sep : Text) (parts : List Text)
    → is_nonempty parts ≡ true
    → join sep ([] ∷ parts) ≡ sep ++ join sep parts
join-nil_cons sep [] h = cc
join-nil_cons sep (t ∷ ts) h = refl

cons_head-nonempty : (x : ℕ) (parts : List Text) → is_nonempty (cons_head x parts) ≡ true
cons_head-nonempty x [] = refl
cons_head-nonempty x (t ∷ ts) = refl

regex_split-nonempty :
    (sep : Text) (skip : ℕ) (s : Text) → is_nonempty (regex_split sep skip s) ≡ true
unfolding regex_split
regex_split-nonempty sep skip [] = refl
regex_split-nonempty sep (suc skip) (x ∷ s) = regex_split-nonempty sep skip s
regex_split-nonempty sep zero (x ∷ s) = elim (Bool-cases (starts_with sep (x ∷ s))) [
  | inl found ↦ rw found refl
  | inr further ↦ rw further (cons_head-nonempty x (regex_split sep 0 s))
]

starts_with-drop : (sep s : Text) → starts_with sep s ≡ true → s ≡ sep ++ drop (length sep) s
starts_with-drop [] s h = refl
starts_with-drop (c ∷ cs) [] h = cc
starts_with-drop (c ∷ cs) (d ∷ s) h = elim (Bool-cases (c == d)) [
  | inl same ↦ let e = (==_iff c d).0 same in let rest = starts_with-drop cs s (rw same at h) in cc
  | inr other ↦ absurd_case (rw other at h)
]
  where
    absurd_case : false ≡ true → d ∷ s ≡ (c ∷ cs) ++ drop (length (c ∷ cs)) (d ∷ s)
    absurd_case h = cc

starts_with-append : (sep q : Text) → starts_with sep (sep ++ q) ≡ true
starts_with-append [] q = refl
starts_with-append (c ∷ cs) q = rw (==_self c) (starts_with-append cs q)

pred_suc : (k : ℕ) → suc k - 1 ≡ k
pred_suc k = omega arith

-- `sep.join(regex_split(sep, s)) == s`
pub join-regex_split :
    (c : ℕ) (cs : Text) (skip : ℕ) (s : Text)
    → join (c ∷ cs) (regex_split (c ∷ cs) skip s) ≡ drop skip s
unfolding regex_split
join-regex_split c cs zero [] = refl
join-regex_split c cs (suc skip) [] = refl
join-regex_split c cs (suc skip) (x ∷ s) = join-regex_split c cs skip s
join-regex_split c cs zero (x ∷ s) = elim (Bool-cases (starts_with (c ∷ cs) (x ∷ s))) [
  | inl found ↦
      rw
        (
          found,
          pred_suc (length cs),
          join-nil_cons (c ∷ cs) (regex_split (c ∷ cs) (length cs) s)
              (regex_split-nonempty (c ∷ cs) (length cs) s),
          join-regex_split c cs (length cs) s,
        )
        (sym (starts_with-drop (c ∷ cs) (x ∷ s) found))
  | inr further ↦
      rw (further, join-cons_head (c ∷ cs) x (regex_split (c ∷ cs) 0 s), join-regex_split c cs 0 s)
        refl
]

-- A text that stands in another splits it.
pub regex_split-HasParts :
    (c : ℕ) (cs p q : Text) → HasParts (regex_split (c ∷ cs) 0 (p ++ (c ∷ cs) ++ q))
unfolding regex_split
regex_split-HasParts c cs [] q =
    rw (starts_with-append (c ∷ cs) q, pred_suc (length cs))
      (split_rest (regex_split (c ∷ cs) (length cs) (cs ++ q))
        (regex_split-nonempty (c ∷ cs) (length cs) (cs ++ q)))
  where
    split_rest : (parts : List Text) → is_nonempty parts ≡ true → HasParts ([] ∷ parts)
    split_rest [] h = cc
    split_rest (t ∷ ts) h = ([], t, ts, refl)
regex_split-HasParts c cs (x ∷ p) q =
    elim (Bool-cases (starts_with (c ∷ cs) (x ∷ p ++ (c ∷ cs) ++ q))) [
      | inl found ↦
          rw (found, pred_suc (length cs))
            (split_rest (regex_split (c ∷ cs) (length cs) (p ++ (c ∷ cs) ++ q))
              (regex_split-nonempty (c ∷ cs) (length cs) (p ++ (c ∷ cs) ++ q)))
      | inr further ↦ rw further (
          cons_head-parts x (regex_split (c ∷ cs) 0 (p ++ (c ∷ cs) ++ q))
            (regex_split-HasParts c cs p q))
    ]
  where
    split_rest : (parts : List Text) → is_nonempty parts ≡ true → HasParts ([] ∷ parts)
    split_rest [] h = cc
    split_rest (t ∷ ts) h = ([], t, ts, refl)
