-- ===== src/Masking/Fused.antt =====
-- The single pass of `ResultTransformer` is the two passes that it replaces: the projection to the
-- allow-list, then the masking. And masking twice is masking once.
use guardmcp.Prelude.{
  ℕ, ◌+◌, ◌<◌, String, ◌≡◌, refl, ap, inl, inr, Bool, true, false, List, [], ◌∷◌, ◌++◌, ◌||◌, arith,
  elem, is_empty, ◌===◌, if◌then◌else◌, Bool-cases, eq_iff,
}
use guardmcp.Json.{Value, arr, obj, Items, nil, cons, Fields, end, field}
use guardmcp.Masking.{
  Rules, bounded, drops_unlisted, has_rules, mask, mask_result, each_item, each_doc, transform_doc,
  transform_result,
}
use guardmcp.Masking.Walk.{
  walk, walk_value, walk_items, drops_none, mask-of_rules, transform_doc-walk,
}

-- The projection: with an allow-list, the listed keys and `_id`.
abbrev pub is_listed : List String → String → Bool
is_listed allow k = is_empty allow || (elem k allow || k === "_id")

abbrev pub project : List String → Fields → Fields
project allow end = end
project allow (field k v fs) =
    let rest = project allow fs in if is_listed allow k then field k v rest else rest

drops_unlisted-pos :
    (allow : List String) (depth : ℕ) (k : String)
    → 0 < depth
    → drops_unlisted allow depth k ≡ false
drops_unlisted-pos allow depth k h = ground arith

pub drops_unlisted-zero :
    (allow : List String) (k : String)
    → drops_unlisted allow 0 k ≡ (if is_listed allow k then false else true)
drops_unlisted-zero allow k = elim (Bool-cases (k === "_id")) [
  | inl e ↦ rw ((eq_iff k "_id").0 e) (ground arith)
  | inr e ↦ rw e (ground arith)
]

module _ (r : Rules) (allow : List String) where
  mutual
    unfolding walk

    walk-below :
        (depth : ℕ) (path : List String) (fs : Fields)
        → 0 < depth
        → walk r (drops_unlisted allow) depth path fs ≡ walk r drops_none depth path fs
    walk-below depth path end h = refl
    walk-below depth path (field k v fs) h = rw (
      drops_unlisted-pos allow depth k h,
      walk-below depth path fs h,
      walk_value-below depth (path ++ k ∷ []) v,
    )

    walk_value-below :
        (depth : ℕ) (cur : List String) (v : Value)
        → walk_value r (drops_unlisted allow) depth cur v ≡ walk_value r drops_none depth cur v
    walk_value-below depth cur (obj fs) = rw (walk-below (depth + 1) cur fs (omega arith))
    walk_value-below depth cur (arr xs) = rw (walk_items-below depth cur xs)
    walk_value-below depth cur _ = refl

    walk_items-below :
        (depth : ℕ) (cur : List String) (xs : Items)
        → walk_items r (drops_unlisted allow) depth cur xs ≡ walk_items r drops_none depth cur xs
    walk_items-below depth cur nil = refl
    walk_items-below depth cur (cons (obj fs) xs) =
        rw (walk-below (depth + 1) cur fs (omega arith), walk_items-below depth cur xs)
    walk_items-below depth cur (cons _ xs) = rw (walk_items-below depth cur xs)

  walk-project :
      (path : List String) (fs : Fields)
      → walk r (drops_unlisted allow) 0 path fs ≡ walk r drops_none 0 path (project allow fs)
  unfolding walk
  walk-project path end = refl
  walk-project path (field k v fs) = elim (Bool-cases (is_listed allow k)) [
    | inl e ↦
        rw (drops_unlisted-zero, e, walk-project path fs, walk_value-below 0 (path ++ k ∷ []) v)
    | inr e ↦ rw (drops_unlisted-zero, e, walk-project path fs)
  ]

each_item-each_item :
    (f g h : Fields → Fields) (same : (doc : Fields) → f doc ≡ g (h doc)) (xs : Items)
    → each_item f xs ≡ each_item g (each_item h xs)
each_item-each_item f g h same nil = refl
each_item-each_item f g h same (cons (obj doc) xs) =
    rw (same doc, each_item-each_item f g h same xs)
each_item-each_item f g h same (cons _ xs) = rw (each_item-each_item f g h same xs)

pub each_doc-each_doc :
    (f g h : Fields → Fields) (same : (doc : Fields) → f doc ≡ g (h doc)) (v : Value)
    → each_doc f v ≡ each_doc g (each_doc h v)
each_doc-each_doc f g h same (arr xs) = rw (each_item-each_item f g h same xs)
each_doc-each_doc f g h same (obj doc) = rw (same doc)
each_doc-each_doc f g h same _ = refl

transform_doc-mask :
    (r : Rules) (allow : List String)
    → has_rules r ≡ true
    → (doc : Fields) → transform_doc r allow 0 [] doc ≡ mask r 0 [] (project allow doc)
transform_doc-mask r allow h doc =
    rw (transform_doc-walk r allow 0 [] doc, mask-of_rules r h 0 [] (project allow doc))
      (ap (bounded 0) (walk-project r allow [] doc))

-- Where there are fields to mask, the single pass returns what the masker makes of the result
-- projected to the allow-list.
pub transform_result-fused :
    (r : Rules) (allow : List String) (result : Value)
    → has_rules r ≡ true
    → transform_result r allow result ≡ mask_result r (each_doc (project allow) result)
unfolding transform_result mask_result
transform_result-fused r allow result h = rw (
  h,
  each_doc-each_doc (transform_doc r allow 0 []) (mask r 0 []) (project allow)
      (transform_doc-mask r allow h) result,
)
