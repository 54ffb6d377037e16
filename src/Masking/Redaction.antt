-- ===== src/Masking/Redaction.antt =====
-- No masked value is left in what the masker returns.
use guardmcp.Prelude.{
  ℕ, ◌+◌, String, ◌≡◌, ◌⊎◌, inl, inr, Bool, true, false, List, [], ◌∷◌, ◌++◌, elem, ltb, Bool-cases,
  if◌then◌else◌, sym, is_empty-elem,
}
use guardmcp.Json.{Value, str, arr, obj, Items, nil, cons, Fields, end, field}
use guardmcp.Masking.{
  Rules, mask_value, bounded, max_depth, depth_redaction, hides, has_rules, drops_unlisted,
  transform_doc, transform_result, mask_result, each_item, each_doc, mask,
}
use guardmcp.Masking.Walk.{
  drops_none, walk, walk_value, walk_items, mask-of_rules, transform_doc-walk,
}
use guardmcp.Masking.Occurrence.{Occurs, OccursIn, OccursAmong}

-- The two values that the walk itself writes.
abbrev pub Written : String → Value → Type 0
Written k v = (v ≡ mask_value) ⊎ ((k ≡ "***") × (v ≡ str "depth-limit-exceeded"))

module _ (r : Rules) (drops : ℕ → String → Bool) (k : String) (v : Value)
    (bare : elem k r.bare ≡ true) where
  redaction-Written : Occurs k v depth_redaction → Written k v
  unfolding Occurs
  redaction-Written o = elim o [
    | inl here ↦ inr (sym here.0, sym here.1)
    | inr (inl deep) ↦ absurd deep
    | inr (inr more) ↦ absurd more
  ]

  bounded-Written :
      (depth : ℕ) (fs : Fields)
      → (Occurs k v fs → Written k v)
      → Occurs k v (bounded depth fs)
      → Written k v
  unfolding Occurs
  bounded-Written depth fs h o = elim (Bool-cases (ltb max_depth depth)) [
    | inl deep ↦ redaction-Written (rw deep at o)
    | inr shallow ↦ h (rw shallow at o)
  ]

  -- One entry of an object: dropped, hidden or walked.
  entry-Written :
      (dropped hidden : Bool) (j : String) (w : Value) (rest : Fields)
      → (j ≡ k → hidden ≡ true)
      → (OccursIn k v w → Written k v)
      → (Occurs k v rest → Written k v)
      → Occurs k v (if dropped then rest else field j (if hidden then mask_value else w) rest)
      → Written k v
  unfolding Occurs
  entry-Written true hidden j w rest hit inside later o = later o
  entry-Written false true j w rest hit inside later o = elim o [
    | inl here ↦ inl (sym here.1)
    | inr (inl deep) ↦ absurd deep
    | inr (inr more) ↦ later more
  ]
  entry-Written false false j w rest hit inside later o = elim o [
    | inl here ↦ cc (hit here.0)
    | inr (inl deep) ↦ inside deep
    | inr (inr more) ↦ later more
  ]

  hides-bare : (j : String) (cur : List String) → j ≡ k → hides r j cur ≡ true
  hides-bare j cur e = rw (e, bare)

  mutual
    unfolding walk Occurs

    walk-Written :
        (depth : ℕ) (path : List String) (fs : Fields)
        → Occurs k v (walk r drops depth path fs)
        → Written k v
    walk-Written depth path end o = absurd o
    walk-Written depth path (field j w fs) o =
        entry-Written (drops depth j) (hides r j (path ++ j ∷ [])) j _ _ (hides-bare j _)
          (walk_value-Written depth (path ++ j ∷ []) w) (walk-Written depth path fs) o

    walk_value-Written :
        (depth : ℕ) (cur : List String) (w : Value)
        → OccursIn k v (walk_value r drops depth cur w)
        → Written k v
    walk_value-Written depth cur (obj fs) o =
        bounded-Written (depth + 1) (walk r drops (depth + 1) cur fs)
          (walk-Written (depth + 1) cur fs) o
    walk_value-Written depth cur (arr xs) o = walk_items-Written depth cur xs o
    walk_value-Written depth cur _ o = absurd o

    walk_items-Written :
        (depth : ℕ) (cur : List String) (xs : Items)
        → OccursAmong k v (walk_items r drops depth cur xs)
        → Written k v
    walk_items-Written depth cur nil o = absurd o
    walk_items-Written depth cur (cons (obj fs) xs) o = elim o [
      | inl here ↦
          bounded-Written (depth + 1) (walk r drops (depth + 1) cur fs)
            (walk-Written (depth + 1) cur fs) here
      | inr later ↦ walk_items-Written depth cur xs later
    ]
    walk_items-Written depth cur (cons _ xs) o = walk_items-Written depth cur xs o

module _ (k : String) (v : Value) (f : Fields → Fields)
    (done : (doc : Fields) → Occurs k v (f doc) → Written k v) where
  each_item-Written : (xs : Items) → OccursAmong k v (each_item f xs) → Written k v
  unfolding Occurs
  each_item-Written nil o = absurd o
  each_item-Written (cons (obj doc) xs) o = elim o [
    | inl here ↦ done doc here
    | inr later ↦ each_item-Written xs later
  ]
  each_item-Written (cons _ xs) o = each_item-Written xs o

  each_doc-Written : (w : Value) → OccursIn k v (each_doc f w) → Written k v
  unfolding Occurs
  each_doc-Written (arr xs) o = each_item-Written xs o
  each_doc-Written (obj doc) o = done doc o
  each_doc-Written _ o = absurd o

has_rules-elem : (r : Rules) (k : String) → elem k r.bare ≡ true → has_rules r ≡ true
has_rules-elem r k bare = rw (is_empty-elem k r.bare bare)

mask-Written :
    (r : Rules) (k : String) (v : Value)
    → elem k r.bare ≡ true
    → (doc : Fields) → Occurs k v (mask r 0 [] doc)
    → Written k v
mask-Written r k v bare doc o =
    bounded-Written r drops_none k v bare 0 _ (walk-Written r drops_none k v bare 0 [] doc)
      (rw (mask-of_rules r (has_rules-elem r k bare) 0 [] doc) at o)

-- Wherever a bare masked name stands in a masked result, in objects and lists of objects, its value
-- is the mask, or the mark that a subtree was too deep.
pub mask_result-Written :
    (r : Rules) (result : Value) (k : String) (v : Value)
    → elem k r.bare ≡ true
    → OccursIn k v (mask_result r result)
    → Written k v
unfolding mask_result
mask_result-Written r result k v bare o =
    each_doc-Written k v (mask r 0 []) (mask-Written r k v bare) result
      (rw (has_rules-elem r k bare) at o)

-- The same of what the transformer returns, whatever its allow-list.
pub transform_result-Written :
    (r : Rules) (allow : List String) (result : Value) (k : String) (v : Value)
    → elem k r.bare ≡ true
    → OccursIn k v (transform_result r allow result)
    → Written k v
unfolding transform_result
transform_result-Written r allow result k v bare o =
    each_doc-Written k v (transform_doc r allow 0 [])
      (λ doc o.
        bounded-Written r (drops_unlisted allow) k v bare 0 _
          (walk-Written r (drops_unlisted allow) k v bare 0 [] doc)
          (rw (transform_doc-walk r allow 0 [] doc) at o))
      result (rw (has_rules-elem r k bare) at o)
