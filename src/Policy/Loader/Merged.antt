-- ===== src/Policy/Loader/Merged.antt =====
-- What a merged policy keeps of its parts, and what it loses.
use guardmcp.Prelude.{
  String, ◌≡◌, refl, sym, ap, ◌∙◌, inl, inr, Bool, true, false, Option, none, some, List, [], ◌∷◌,
  ◌||◌, ◌&&◌, not, elem, ◌===◌, eq_iff, Bool-cases, arith, if◌then◌else◌, subst,
}
use guardmcp.Dict.{Dict, lookup, insert, lookup-insert, Distinct}
use guardmcp.Policy.{
  MaskFields, flat, buckets, Policy, seen_add_all, scope_for, bucket, fields_or_empty, effective,
  flat_scope, mask_fields_for, database_permitted,
}
use guardmcp.Policy.Scope.{elem-seen_add_all}
use guardmcp.Policy.Engine.{collection_permitted}
use guardmcp.Policy.Loader.{union, as_buckets, merge_buckets, merge_mask_fields, built, merge}

elem-union : (k : String) (a b : List String) → elem k (union a b) ≡ elem k a || elem k b
unfolding elem
elem-union k a b =
    ground (arith, elem-seen_add_all k (seen_add_all [] a) b, elem-seen_add_all k [] a)

module _ (w : List String) (o : Option (List String)) where
  if_fields :
      (b : Bool) → fields_or_empty (if b then some w else o) ≡ (if b then w else fields_or_empty o)
  if_fields true = refl
  if_fields false = refl

bucket-insert :
    (key k : String) (w : List String) (d : Dict (List String))
    → bucket key (insert k w d) ≡ (if k === key then w else bucket key d)
bucket-insert key k w d =
    ap fields_or_empty (lookup-insert key k w d) ∙ if_fields w (lookup key d) (k === key)

bucket-cons :
    (key k : String) (w : List String) (d : Dict (List String))
    → bucket key ((k, w) ∷ d) ≡ (if k === key then w else bucket key d)
unfolding lookup
bucket-cons key k w d = if_fields w (lookup key d) (k === key)

module _ (x key : String) where
  same_key :
      (k : String) (v : List String) (out rest : Dict (List String))
      → k ≡ key
      → lookup k rest ≡ none
      → elem x (union (bucket k out) v) || elem x (bucket key rest)
        ≡ elem x (bucket key out) || elem x v
  unfolding elem
  same_key k v out rest same new =
      let none_left = ap (λ o. elem x (fields_or_empty o)) (rw same at new) in
      ground (arith, elem-union x (bucket k out) v, none_left, ap (λ j. elem x (bucket j out)) same)

  elem-no_bucket : elem x (bucket key []) ≡ false
  unfolding elem lookup
  elem-no_bucket = refl

  elem-merge_buckets :
      (out child : Dict (List String))
      → Distinct child
      → elem x (bucket key (merge_buckets out child))
        ≡ elem x (bucket key out) || elem x (bucket key child)
  unfolding merge_buckets elem
  elem-merge_buckets out [] h = ground (arith, elem-no_bucket)
  elem-merge_buckets out ((k, v) ∷ rest) (new, h) =
      let ih = elem-merge_buckets (insert k (union (bucket k out) v) out) rest h in
      let inserted = ap (elem x) (bucket-insert key k (union (bucket k out) v) out) in
      let consed = ap (elem x) (bucket-cons key k v rest) in
      elim (Bool-cases (k === key)) [
        | inl same ↦
            ih
            ∙ ap (λ b. b || elem x (bucket key rest)) (rw same at inserted)
            ∙ same_key k v out rest ((eq_iff k key).0 same) new
            ∙ ap (λ b. elem x (bucket key out) || b) (sym (rw same at consed))
        | inr other ↦
            ih
            ∙ ap (λ b. b || elem x (bucket key rest)) (rw other at inserted)
            ∙ ap (λ b. elem x (bucket key out) || b) (sym (rw other at consed))
      ]

module _ (x c : String) where
  -- The fields of a setting are those of its buckets: a flat list is the global one.
  effective-buckets :
      (m : MaskFields)
      → elem x (effective c m)
        ≡ elem x (bucket "*" (as_buckets m)) || elem x (bucket c (as_buckets m))
  unfolding lookup elem
  effective-buckets (flat []) = refl
  effective-buckets (flat (f ∷ fs)) = ground arith
  effective-buckets (buckets es) = ground (
    arith,
    elem-seen_add_all x (seen_add_all [] (bucket "*" es)) (bucket c es),
    elem-seen_add_all x [] (bucket "*" es),
  )

  merged-buckets :
      (base child : MaskFields)
      → Distinct (as_buckets child)
      → elem x (effective c (buckets (merge_buckets (as_buckets base) (as_buckets child))))
        ≡ elem x (effective c base) || elem x (effective c child)
  merged-buckets base child h =
      let merged = merge_buckets (as_buckets base) (as_buckets child) in
      ground (
        arith,
        effective-buckets (buckets merged),
        effective-buckets base,
        effective-buckets child,
        elem-merge_buckets x "*" (as_buckets base) (as_buckets child) h,
        elem-merge_buckets x c (as_buckets base) (as_buckets child) h,
      )

  merged-effective :
      (base child : MaskFields)
      → Distinct (as_buckets child)
      → elem x (effective c (merge_mask_fields base child))
        ≡ elem x (effective c base) || elem x (effective c child)
  unfolding merge_mask_fields
  merged-effective (flat base) (flat child) h = elem-union x base child
  merged-effective (flat base) (buckets child) h = merged-buckets (flat base) (buckets child) h
  merged-effective (buckets base) (flat child) h = merged-buckets (buckets base) (flat child) h
  merged-effective (buckets base) (buckets child) h =
      merged-buckets (buckets base) (buckets child) h

module _ (base child p : Policy) (merged : merge base child ≡ some p) where
  is_built : p ≡ built base child
  unfolding merge
  is_built = ground arith

built-scope :
    (base child : Policy) (db : Option String)
    → scope_for (built base child) db ≡ flat_scope (built base child)
unfolding scope_for
built-scope base child none = refl
built-scope base child (some db) = refl

-- A merged policy masks for a collection, in every database, what its base or the child masks for it
-- in their settings for all databases, and nothing else. No key of the child's setting stands twice.
pub mask_fields_for-merge :
    (base child p : Policy) (x c : String) (db : Option String)
    → merge base child ≡ some p
    → Distinct (as_buckets child.mask_fields)
    → elem x (mask_fields_for p c db)
      ≡ elem x (mask_fields_for base c none) || elem x (mask_fields_for child c none)
unfolding mask_fields_for scope_for
mask_fields_for-merge base child p x c db merged h =
    subst
      (λ q.
        elem x (mask_fields_for q c db)
        ≡ elem x (effective c base.mask_fields) || elem x (effective c child.mask_fields))
      (sym (is_built base child p merged))
      (ap (λ s. elem x (effective c s.mask_fields)) (built-scope base child db)
        ∙ merged-effective x c base.mask_fields child.mask_fields h)

-- A merged policy permits a collection, in every database, exactly when neither its base nor the child
-- denies it and one of them lists it or the wildcard.
pub collection_permitted-merge :
    (base child p : Policy) (name : String) (db : Option String)
    → merge base child ≡ some p
    → collection_permitted name (scope_for p db).collections.allow (scope_for p db).collections.deny
      ≡ not (elem name base.collections.deny || elem name child.collections.deny)
        && (elem "*" base.collections.allow
            || elem "*" child.collections.allow
            || (elem name base.collections.allow || elem name child.collections.allow))
unfolding collection_permitted
collection_permitted-merge base child p name db merged =
    subst
      (λ q.
        collection_permitted name (scope_for q db).collections.allow
          (scope_for q db).collections.deny
        ≡ not (elem name base.collections.deny || elem name child.collections.deny)
          && (elem "*" base.collections.allow
              || elem "*" child.collections.allow
              || (elem name base.collections.allow || elem name child.collections.allow)))
      (sym (is_built base child p merged))
      (ap (λ s. collection_permitted name s.collections.allow s.collections.deny)
          (built-scope base child db)
        ∙ ground (
          arith,
          elem-union name base.collections.deny child.collections.deny,
          elem-union name base.collections.allow child.collections.allow,
          elem-union "*" base.collections.allow child.collections.allow,
        ))

-- A merged policy permits every database, whatever databases its base and the child list, and has one
-- scope for all of them.
pub database_permitted-merge :
    (base child p : Policy) (db : Option String)
    → merge base child ≡ some p
    → (database_permitted p db ≡ true) × (scope_for p db ≡ scope_for p none)
unfolding database_permitted
database_permitted-merge base child p db merged =
    subst (λ q. (database_permitted q db ≡ true) × (scope_for q db ≡ scope_for q none))
      (sym (is_built base child p merged))
      (ground arith, built-scope base child db ∙ sym (built-scope base child none))
