-- ===== src/Stock/Channel/Listed.antt =====
-- A channel's entry is added once, and nothing else is lost.
use hai_compnay.Common.{
  List, [], ◌∷◌, ◌++◌, ◌≡◌, refl, ap, ◌∙◌, arith, Option, none, some, Bool, true, false, Bool-cases,
  inl, inr, any, ◌==◌, ◌&&◌, All, codes_key, codes_beq, codes_beq_iff,
}
use hai_compnay.Common.Decimal.{Text, split}
use hai_compnay.Common.Dict.{Dict, get_or, lookup, modify, lookup-modify}
use hai_compnay.Stock.Channel.{Config, lists, new_value, update_odoo_config}

-- The text holds no comma.
abbrev pub IsEntry : Text → Type 0
IsEntry = All (λ c. (c == b',') ≡ false)

split-IsEntry : (v : Text) → IsEntry v → split b',' v ≡ v ∷ []
split-IsEntry [] h = refl
split-IsEntry (c ∷ v) (h, hs) = rw (h, split-IsEntry v hs) refl

pub self : (v : Text) → codes_beq v v ≡ true
self v = (codes_beq_iff v v).1 refl

split_some : (x : Text) → (h : Text) × (t : List Text) × (split b',' x ≡ h ∷ t)
split_some [] = ([], [], refl)
split_some (c ∷ x) =
    let (first, rest, e) = split_some x in
    elim (Bool-cases (c == b',')) [
      | inl comma ↦ ([], first ∷ rest, rw (comma, e) refl)
      | inr other ↦ (c ∷ first, rest, rw (other, e) refl)
    ]

-- The parts of two texts with a comma between them are the parts of both.
split-comma : (x v : Text) → split b',' (x ++ b',' ∷ v) ≡ split b',' x ++ split b',' v
split-comma [] v = refl
split-comma (c ∷ x) v =
    let (first, rest, e) = split_some x in
    elim (Bool-cases (c == b',')) [
      | inl comma ↦ rw (comma, split-comma x v) refl
      | inr other ↦ rw (other, split-comma x v, e) refl
    ]

any-append-left : (p : Text → Bool) (xs ys : List Text) → any p xs ≡ true → any p (xs ++ ys) ≡ true
any-append-left p [] ys h = cc
any-append-left p (x ∷ xs) ys h = ground (arith, any-append-left p xs ys)

pub any-append-right :
    (p : Text → Bool) (xs ys : List Text) → any p ys ≡ true → any p (xs ++ ys) ≡ true
any-append-right p [] ys h = h
any-append-right p (x ∷ xs) ys h = ground (arith, any-append-right p xs ys h)

new_value-lists : (v : Text) (o : Option Text) → IsEntry v → lists v (new_value v o) ≡ true
new_value-lists v none h = rw (split-IsEntry v h, self v) refl
new_value-lists v (some x) h = elim (Bool-cases (lists v x)) [
  | inl there ↦ rw there there
  | inr missing_ ↦
      rw (missing_, split-comma x v)
        (any-append-right (codes_beq v) (split b',' x) (split b',' v)
          (rw (split-IsEntry v h, self v) refl))
]

-- What was listed stays so.
new_value-keeps : (v x w : Text) → lists w x ≡ true → lists w (new_value v (some x)) ≡ true
new_value-keeps v x w h = elim (Bool-cases (lists v x)) [
  | inl there ↦ rw there h
  | inr missing_ ↦
      rw (missing_, split-comma x v) (any-append-left (codes_beq w) (split b',' x) (split b',' v) h)
]

new_value_idem :
    (v : Text) (o : Option Text) → IsEntry v → new_value v (some (new_value v o)) ≡ new_value v o
new_value_idem v o h = rw (new_value-lists v o h) refl

-- The value of an option.
abbrev pub value_of : Text → Text → Config → Option Text
value_of section option config = lookup option (get_or (lookup section config) [])

some_inj : {V : Type 0} {a b : V} → ◌≡◌ {A = Option V} (some a) (some b) → a ≡ b
some_inj e = cc

lookup-modify_self :
    {V : Type 0} (k : Text) (f : V → V) (z : V) (d : Dict Text V)
    → lookup k (modify k f z d) ≡ some (f (get_or (lookup k d) z))
lookup-modify_self k f z d = rw (lookup-modify k k f z d, self k) refl

modify_same :
    {V : Type 0} (k : Text) (f : V → V) {v : V} (z : V) (d : Dict Text V)
    → lookup k d ≡ some v
    → f v ≡ v
    → modify k f z d ≡ d
modify_same k f z [] h fixed = cc
modify_same k f {v} z ((j, w) ∷ d) h fixed = elim (Bool-cases (codes_beq j k)) [
  | inl same ↦ let e : w ≡ v = some_inj (rw same at h) in rw (same, e, fixed) refl
  | inr other ↦ rw (other, modify_same k f z d (rw other at h) fixed) refl
]

-- The option, after the update.
updated_options :
    (section option value : Text) (config : Config)
    → lookup section (update_odoo_config section option value config)
      ≡ some (
          modify option
            (λ _. new_value value (value_of section option config))
            []
            (get_or (lookup section config) []))
unfolding update_odoo_config
updated_options section option value config =
    lookup-modify_self section
      (modify option (λ _. new_value value (value_of section option config)) []) [] config

value_of-updated :
    (section option value : Text) (config : Config)
    → value_of section option (update_odoo_config section option value config)
      ≡ some (new_value value (value_of section option config))
value_of-updated section option value config =
    ap (λ o. lookup option (get_or o [])) (updated_options section option value config)
    ∙ lookup-modify_self option (λ _. new_value value (value_of section option config)) []
        (get_or (lookup section config) [])

value_of-other :
    (section option value : Text) (config : Config) (s o : Text)
    → (codes_beq section s && codes_beq option o) ≡ false
    → value_of s o (update_odoo_config section option value config) ≡ value_of s o config
unfolding update_odoo_config
value_of-other section option value config s o h =
    ap (λ opts. lookup o (get_or opts []))
      (lookup-modify s section
        (modify option (λ _. new_value value (value_of section option config)) []) [] config)
    ∙ elim (Bool-cases (codes_beq section s)) [
      | inr other ↦ rw other refl
      | inl same ↦
          let apart : codes_beq option o ≡ false = rw same at h in
          rw same (
            lookup-modify o option (λ _. new_value value (value_of section option config)) []
              (get_or (lookup s config) [])
            ∙ rw apart refl)
    ]

update_idem :
    (section option value : Text) (config : Config)
    → IsEntry value
    → let config' = update_odoo_config section option value config in
      update_odoo_config section option value config' ≡ config'
unfolding update_odoo_config
update_idem section option value config h =
    let config' = update_odoo_config section option value config in
    let same : new_value value (value_of section option config')
        ≡ new_value value (value_of section option config) =
      ap (new_value value) (value_of-updated section option value config)
      ∙ new_value_idem value (value_of section option config) h in
    modify_same section (modify option (λ _. new_value value (value_of section option config')) [])
      [] config' (updated_options section option value config)
      (modify_same option (λ _. new_value value (value_of section option config')) []
        (modify option (λ _. new_value value (value_of section option config)) []
          (get_or (lookup section config) []))
        (lookup-modify_self option (λ _. new_value value (value_of section option config)) []
          (get_or (lookup section config) []))
        same)

-- If the value holds no comma, then after the update the option lists it, and every part that the option
-- listed before; all other options are as they were; and a second update changes nothing.
pub update_odoo_config_lem :
    (section option value : Text) (config : Config)
    → IsEntry value
    → let config' = update_odoo_config section option value config in
      ((new : Text) × (value_of section option config' ≡ some new)
        × (lists value new ≡ true)
        × ((old part : Text)
            → value_of section option config ≡ some old
            → lists part old ≡ true
            → lists part new ≡ true))
      × ((s o : Text)
          → (codes_beq section s && codes_beq option o) ≡ false
          → value_of s o config' ≡ value_of s o config)
      × (update_odoo_config section option value config' ≡ config')
update_odoo_config_lem section option value config h = (
  (
    new_value value (value_of section option config),
    value_of-updated section option value config,
    new_value-lists value (value_of section option config) h,
    λ old part e listed. rw e (new_value-keeps value old part listed),
  ),
  value_of-other section option value config,
  update_idem section option value config h,
)
