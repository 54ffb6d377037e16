-- ===== src/Masking/Twice.antt =====
-- Masking a masked result changes nothing.
use guardmcp.Prelude.{
  ℕ, ◌+◌, String, ◌≡◌, refl, sym, inl, inr, List, [], ◌∷◌, ◌++◌, ltb, Bool-cases,
}
use guardmcp.Json.{Value, arr, obj, Items, nil, cons, Fields, end, field}
use guardmcp.Masking.{Rules, hides, bounded, max_depth, has_rules, mask, mask_result}
use guardmcp.Masking.Walk.{walk, walk_value, walk_items, drops_none, mask-of_rules, mask-no_rules}
use guardmcp.Masking.Fused.{each_doc-each_doc}

module _ (r : Rules) where
  bounded_twice :
      (depth : ℕ) (walked : Fields → Fields) (fs : Fields)
      → walked (walked fs) ≡ walked fs
      → bounded depth (walked (bounded depth (walked fs))) ≡ bounded depth (walked fs)
  bounded_twice depth walked fs h = elim (Bool-cases (ltb max_depth depth)) [
    | inl deep ↦ rw deep
    | inr shallow ↦ rw (shallow, h)
  ]

  mutual
    unfolding walk

    walk_twice :
        (depth : ℕ) (path : List String) (fs : Fields)
        → walk r drops_none depth path (walk r drops_none depth path fs)
          ≡ walk r drops_none depth path fs
    walk_twice depth path end = refl
    walk_twice depth path (field k v fs) = elim (Bool-cases (hides r k (path ++ k ∷ []))) [
      | inl hidden ↦ rw (hidden, walk_twice depth path fs)
      | inr plain ↦ rw (plain, walk_twice depth path fs, walk_value_twice depth (path ++ k ∷ []) v)
    ]

    walk_value_twice :
        (depth : ℕ) (cur : List String) (v : Value)
        → walk_value r drops_none depth cur (walk_value r drops_none depth cur v)
          ≡ walk_value r drops_none depth cur v
    walk_value_twice depth cur (obj fs) = rw (
        bounded_twice (depth + 1) (walk r drops_none (depth + 1) cur) fs
          (walk_twice (depth + 1) cur fs))
    walk_value_twice depth cur (arr xs) = rw (walk_items_twice depth cur xs)
    walk_value_twice depth cur _ = refl

    walk_items_twice :
        (depth : ℕ) (cur : List String) (xs : Items)
        → walk_items r drops_none depth cur (walk_items r drops_none depth cur xs)
          ≡ walk_items r drops_none depth cur xs
    walk_items_twice depth cur nil = refl
    walk_items_twice depth cur (cons (obj fs) xs) = rw (
      bounded_twice (depth + 1) (walk r drops_none (depth + 1) cur) fs
          (walk_twice (depth + 1) cur fs),
      walk_items_twice depth cur xs,
    )
    walk_items_twice depth cur (cons _ xs) = rw (walk_items_twice depth cur xs)

mask_twice :
    (r : Rules) (depth : ℕ) (path : List String) (doc : Fields)
    → mask r depth path (mask r depth path doc) ≡ mask r depth path doc
mask_twice r depth path doc = elim (Bool-cases (has_rules r)) [
  | inl h ↦
      rw
        (
          mask-of_rules r h depth path doc,
          mask-of_rules r h depth path (bounded depth (walk r drops_none depth path doc)),
        )
        (bounded_twice r depth (walk r drops_none depth path) doc (walk_twice r depth path doc))
  | inr h ↦ rw (mask-no_rules r depth path doc h, mask-no_rules r depth path doc h) refl
]

-- A masked result is unchanged by the same masker.
pub mask_result_twice : (r : Rules) (v : Value) → mask_result r (mask_result r v) ≡ mask_result r v
unfolding mask_result
mask_result_twice r v = elim (Bool-cases (has_rules r)) [
  | inl h ↦ rw h (
      sym (
        each_doc-each_doc (mask r 0 []) (mask r 0 []) (mask r 0 [])
          (λ doc. sym (mask_twice r 0 [] doc)) v))
  | inr h ↦ rw h
]
