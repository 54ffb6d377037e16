-- ===== src/Masking/Walk.antt =====
-- One walk that stands for both of core/masking/masker.py in proofs, over the keys that it drops.
use guardmcp.Prelude.{
  ℕ, ◌+◌, ◌≡◌, refl, String, Bool, true, false, List, [], ◌∷◌, ◌++◌, if◌then◌else◌,
}
use guardmcp.Json.{Value, arr, obj, Items, nil, cons, Fields, end, field}
use guardmcp.Masking.{
  Rules, mask_value, hides, bounded, has_rules, mask, mask_entries, mask_entry, mask_items,
  drops_unlisted, transform_doc, transform_entries, transform_entry, transform_items,
}

module _ (r : Rules) (drops : ℕ → String → Bool) where
  unfoldable mutual
    -- the loop over the entries of one object
    pub walk : ℕ → List String → Fields → Fields
    walk depth path end = end
    walk depth path (field k v fs) =
        let rest = walk depth path fs in
        let cur = path ++ k ∷ [] in
        let kept = walk_value depth cur v in
        if drops depth k then rest else field k (if hides r k cur then mask_value else kept) rest

    pub walk_value : ℕ → List String → Value → Value
    walk_value depth cur (obj fs) = obj (bounded (depth + 1) (walk (depth + 1) cur fs))
    walk_value depth cur (arr xs) = arr (walk_items depth cur xs)
    walk_value depth cur v = v

    -- The items that are objects are walked; any other, a list too, is kept as it is.
    pub walk_items : ℕ → List String → Items → Items
    walk_items depth cur nil = nil
    walk_items depth cur (cons (obj fs) xs) =
        cons (obj (bounded (depth + 1) (walk (depth + 1) cur fs))) (walk_items depth cur xs)
    walk_items depth cur (cons x xs) = cons x (walk_items depth cur xs)

abbrev pub drops_none : ℕ → String → Bool
drops_none depth k = false

module _ (r : Rules) (h : has_rules r ≡ true) where
  mutual
    unfolding walk mask_entries

    mask_entries-walk :
        (depth : ℕ) (path : List String) (fs : Fields)
        → mask_entries r depth path fs ≡ walk r drops_none depth path fs
    mask_entries-walk depth path end = refl
    mask_entries-walk depth path (field k v fs) =
        rw (mask_entries-walk depth path fs, mask_entry-walk depth (path ++ k ∷ []) v)

    mask_entry-walk :
        (depth : ℕ) (cur : List String) (v : Value)
        → mask_entry r depth cur v ≡ walk_value r drops_none depth cur v
    mask_entry-walk depth cur (obj fs) = rw (h, mask_entries-walk (depth + 1) cur fs)
    mask_entry-walk depth cur (arr xs) = rw (mask_items-walk depth cur xs)
    mask_entry-walk depth cur _ = refl

    mask_items-walk :
        (depth : ℕ) (cur : List String) (xs : Items)
        → mask_items r depth cur xs ≡ walk_items r drops_none depth cur xs
    mask_items-walk depth cur nil = refl
    mask_items-walk depth cur (cons (obj fs) xs) =
        rw (h, mask_entries-walk (depth + 1) cur fs, mask_items-walk depth cur xs)
    mask_items-walk depth cur (cons _ xs) = rw (mask_items-walk depth cur xs)

  pub mask-of_rules :
      (depth : ℕ) (path : List String) (doc : Fields)
      → mask r depth path doc ≡ bounded depth (walk r drops_none depth path doc)
  unfolding mask
  mask-of_rules depth path doc = rw (h, mask_entries-walk depth path doc)

pub mask-no_rules :
    (r : Rules) (depth : ℕ) (path : List String) (doc : Fields)
    → has_rules r ≡ false
    → mask r depth path doc ≡ doc
unfolding mask
mask-no_rules r depth path doc h = rw h

module _ (r : Rules) (allow : List String) where
  mutual
    unfolding walk transform_entries

    transform_entries-walk :
        (depth : ℕ) (path : List String) (fs : Fields)
        → transform_entries r allow depth path fs ≡ walk r (drops_unlisted allow) depth path fs
    transform_entries-walk depth path end = refl
    transform_entries-walk depth path (field k v fs) =
        rw (transform_entries-walk depth path fs, transform_entry-walk depth (path ++ k ∷ []) v)

    transform_entry-walk :
        (depth : ℕ) (cur : List String) (v : Value)
        → transform_entry r allow depth cur v ≡ walk_value r (drops_unlisted allow) depth cur v
    transform_entry-walk depth cur (obj fs) = rw (transform_entries-walk (depth + 1) cur fs)
    transform_entry-walk depth cur (arr xs) = rw (transform_items-walk depth cur xs)
    transform_entry-walk depth cur _ = refl

    transform_items-walk :
        (depth : ℕ) (cur : List String) (xs : Items)
        → transform_items r allow depth cur xs ≡ walk_items r (drops_unlisted allow) depth cur xs
    transform_items-walk depth cur nil = refl
    transform_items-walk depth cur (cons (obj fs) xs) =
        rw (transform_entries-walk (depth + 1) cur fs, transform_items-walk depth cur xs)
    transform_items-walk depth cur (cons _ xs) = rw (transform_items-walk depth cur xs)

  pub transform_doc-walk :
      (depth : ℕ) (path : List String) (doc : Fields)
      → transform_doc r allow depth path doc
        ≡ bounded depth (walk r (drops_unlisted allow) depth path doc)
  unfolding transform_doc
  transform_doc-walk depth path doc = rw (transform_entries-walk depth path doc)
