-- ===== src/Guard/Dangerous.antt =====
-- The operators that are banned at every depth (plugins/mongodb/guard.py).
use guardmcp.Prelude.{
  String, ◌≡◌, ◌⊎◌, refl, inl, inr, Bool, true, ◌||◌, arith, any, or-cases, or-left, or-right,
}
use guardmcp.Json.{Value, arr, obj, Items, nil, cons, Fields, end, field, keys}
use guardmcp.Guard.{is_banned, has_dangerous_operators, any_value_dangerous, any_item_dangerous}
use guardmcp.Guard.Keys.{HasKey, FieldsHaveKey, ItemsHaveKey}

-- Some banned operator is a key of the value, at some depth.
abbrev pub IsDangerous : Value → Type 0
IsDangerous v = (k : String) × (is_banned k ≡ true) × HasKey k v

keys_sound : (fs : Fields) → any is_banned (keys fs) ≡ true → IsDangerous (obj fs)
unfolding HasKey
keys_sound end h = cc
keys_sound (field k v fs) h = elim (or-cases _ _ h) [
  | inl here ↦ (k, here, inl refl)
  | inr later ↦ let (j, b, o) = keys_sound fs later in (j, b, inr (inr o))
]

mutual
  unfolding has_dangerous_operators HasKey

  pub banned_sound : (v : Value) → has_dangerous_operators v ≡ true → IsDangerous v
  banned_sound (obj fs) h = elim (or-cases _ _ h) [
    | inl here ↦ keys_sound fs here
    | inr below ↦ values_sound fs below
  ]
  banned_sound (arr xs) h = items_sound xs h
  banned_sound _ h = cc

  values_sound : (fs : Fields) → any_value_dangerous fs ≡ true → IsDangerous (obj fs)
  values_sound end h = cc
  values_sound (field k v fs) h = elim (or-cases _ _ h) [
    | inl here ↦ let (j, b, o) = banned_sound v here in (j, b, inr (inl o))
    | inr later ↦ let (j, b, o) = values_sound fs later in (j, b, inr (inr o))
  ]

  items_sound : (xs : Items) → any_item_dangerous xs ≡ true → IsDangerous (arr xs)
  items_sound nil h = cc
  items_sound (cons x xs) h = elim (or-cases _ _ h) [
    | inl here ↦ let (j, b, o) = banned_sound x here in (j, b, inl o)
    | inr later ↦ let (j, b, o) = items_sound xs later in (j, b, inr o)
  ]

or_regroup :
    (a b c d : Bool) → ((a ≡ true) ⊎ (c ≡ true) ⊎ ((b || d) ≡ true)) → ((a || b) || (c || d)) ≡ true
or_regroup a b c d h = ground arith

module _ (k : String) (banned : is_banned k ≡ true) where
  mutual
    unfolding has_dangerous_operators HasKey

    pub banned_complete : (v : Value) → HasKey k v → has_dangerous_operators v ≡ true
    banned_complete (obj fs) h = fields_complete fs h
    banned_complete (arr xs) h = items_complete xs h
    banned_complete _ h = absurd h

    fields_complete :
        (fs : Fields)
        → FieldsHaveKey k fs
        → (any is_banned (keys fs) || any_value_dangerous fs) ≡ true
    fields_complete end h = absurd h
    fields_complete (field j v fs) h =
        or_regroup (is_banned j) (any is_banned (keys fs)) _ _ (elim h [
          | inl here ↦ inl (rw here banned)
          | inr (inl below) ↦ inr (inl (banned_complete v below))
          | inr (inr later) ↦ inr (inr (fields_complete fs later))
        ])

    items_complete : (xs : Items) → ItemsHaveKey k xs → any_item_dangerous xs ≡ true
    items_complete nil h = absurd h
    items_complete (cons x xs) h = elim h [
      | inl here ↦ or-left _ _ (banned_complete x here)
      | inr later ↦ or-right (has_dangerous_operators x) _ (items_complete xs later)
    ]
