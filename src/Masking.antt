-- ===== src/Masking.antt =====
-- core/masking/masker.py: `FieldMasker` and `ResultTransformer`, each with its own walk of a document.
pub mod Occurrence
pub mod Walk
pub mod Redaction
pub mod Fused
pub mod Twice
pub mod Marks
pub mod Paths
pub mod Limits
use guardmcp.Prelude.{
  ℕ, ◌+◌, String, Bool, true, false, List, [], ◌∷◌, ◌++◌, ◌&&◌, ◌||◌, not, elem, is_empty, ltb,
  ◌===◌, has_char, split, if◌then◌else◌,
}
use guardmcp.Json.{Value, str, arr, obj, Items, nil, cons, Fields, end, field}

abbrev pub mask_value : Value
mask_value = str "***masked***"

abbrev pub max_depth : ℕ
max_depth = 25

abbrev pub depth_redaction : Fields
depth_redaction = field "***" (str "depth-limit-exceeded") end

-- Bare names, which hide a key at any depth, and paths from the root of the document.
pub record Rules : Type 0 where
  pub bare : List String
  pub paths : List (List String)

abbrev pub no_rules : Rules
no_rules = record { bare = []; paths = [] }

unfoldable pub split_mask_entries : List String → Rules
split_mask_entries [] = no_rules
split_mask_entries (f ∷ fs) =
    let rest = split_mask_entries fs in
    if has_char b'.' f
    then record rest { paths = split b'.' f ∷ rest.paths }
    else record rest { bare = f ∷ rest.bare }

-- Equality of tuples of texts.
unfoldable pub path_eq : List String → List String → Bool
path_eq [] [] = true
path_eq (x ∷ xs) (y ∷ ys) = x === y && path_eq xs ys
path_eq _ _ = false

unfoldable pub elem_path : List String → List (List String) → Bool
elem_path p [] = false
elem_path p (q ∷ qs) = path_eq q p || elem_path p qs

-- `k in self._bare or cur in self._paths`
abbrev pub hides : Rules → String → List String → Bool
hides r k cur = elem k r.bare || elem_path cur r.paths

-- Past the depth limit the subtree is replaced, whatever it holds.
abbrev pub bounded : ℕ → Fields → Fields
bounded depth walked = if ltb max_depth depth then depth_redaction else walked

abbrev pub has_rules : Rules → Bool
has_rules r = not (is_empty r.bare) || not (is_empty r.paths)

-- `FieldMasker.mask`, with the `result` that its loop builds.
abbrev pub masked_or : Rules → ℕ → (result doc : Fields) → Fields
masked_or r depth result doc = if has_rules r then bounded depth result else doc

module _ (r : Rules) where
  unfoldable mutual
    -- The loop over the entries of `doc`.
    pub mask_entries : ℕ → List String → Fields → Fields
    mask_entries depth path end = end
    mask_entries depth path (field k v fs) =
        let rest = mask_entries depth path fs in
        let cur = path ++ k ∷ [] in
        let kept = mask_entry depth cur v in
        field k (if hides r k cur then mask_value else kept) rest

    pub mask_entry : ℕ → List String → Value → Value
    mask_entry depth cur (obj fs) =
        obj (masked_or r (depth + 1) (mask_entries (depth + 1) cur fs) fs)
    mask_entry depth cur (arr xs) = arr (mask_items depth cur xs)
    mask_entry depth cur v = v

    -- The items that are objects are masked; any other, a list too, is kept as it is.
    pub mask_items : ℕ → List String → Items → Items
    mask_items depth cur nil = nil
    mask_items depth cur (cons (obj fs) xs) =
        cons (obj (masked_or r (depth + 1) (mask_entries (depth + 1) cur fs) fs))
          (mask_items depth cur xs)
    mask_items depth cur (cons x xs) = cons x (mask_items depth cur xs)

  -- `FieldMasker.mask`
  unfoldable pub mask : ℕ → List String → Fields → Fields
  unfolding mask_entries
  mask depth path doc = masked_or r depth (mask_entries depth path doc) doc

-- What `mask_result` and `transform_result` do with the shapes of a result.
abbrev pub each_item : (Fields → Fields) → Items → Items
each_item f nil = nil
each_item f (cons (obj doc) xs) = cons (obj (f doc)) (each_item f xs)
each_item f (cons x xs) = cons x (each_item f xs)

abbrev pub each_doc : (Fields → Fields) → Value → Value
each_doc f (arr xs) = arr (each_item f xs)
each_doc f (obj doc) = obj (f doc)
each_doc f v = v

-- `FieldMasker.mask_result`
unfoldable pub mask_result : Rules → Value → Value
mask_result r result = if has_rules r then each_doc (mask r 0 []) result else result

abbrev pub is_zero : ℕ → Bool
is_zero n = not (ltb 0 n)

-- The allow-list projection of the top level; `_id` stays, listed or not.
abbrev pub drops_unlisted : List String → ℕ → String → Bool
drops_unlisted allow depth k =
    is_zero depth
    && not (is_empty allow)
    && not (elem k allow)
    && not (not (elem "_id" allow) && k === "_id")

module _ (r : Rules) (allow : List String) where
  unfoldable mutual
    -- The loop over the entries of `doc`.
    pub transform_entries : ℕ → List String → Fields → Fields
    transform_entries depth path end = end
    transform_entries depth path (field k v fs) =
        let rest = transform_entries depth path fs in
        let cur = path ++ k ∷ [] in
        let kept = transform_entry depth cur v in
        if drops_unlisted allow depth k
        then rest
        else field k (if hides r k cur then mask_value else kept) rest

    pub transform_entry : ℕ → List String → Value → Value
    transform_entry depth cur (obj fs) =
        obj (bounded (depth + 1) (transform_entries (depth + 1) cur fs))
    transform_entry depth cur (arr xs) = arr (transform_items depth cur xs)
    transform_entry depth cur v = v

    pub transform_items : ℕ → List String → Items → Items
    transform_items depth cur nil = nil
    transform_items depth cur (cons (obj fs) xs) =
        cons (obj (bounded (depth + 1) (transform_entries (depth + 1) cur fs)))
          (transform_items depth cur xs)
    transform_items depth cur (cons x xs) = cons x (transform_items depth cur xs)

  -- `ResultTransformer._doc`
  unfoldable pub transform_doc : ℕ → List String → Fields → Fields
  unfolding transform_entries
  transform_doc depth path doc = bounded depth (transform_entries depth path doc)

-- `ResultTransformer.transform_result`
unfoldable pub transform_result : Rules → List String → Value → Value
transform_result r allow result =
    if not (has_rules r) && is_empty allow
    then result
    else each_doc (transform_doc r allow 0 []) result
