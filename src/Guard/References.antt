-- ===== src/Guard/References.antt =====
-- What the two walks over a pipeline find.
use guardmcp.Prelude.{
  String, ◌≡◌, ◌⊎◌, ◌↔◌, refl, inl, inr, true, List, [], ◌∷◌, arith, elem, Member, elem-Member,
  Member-elem, Member-append, append-Member, Bool-cases, eq_iff, starts_with_char, ap,
}
use guardmcp.Json.{Value, str, arr, obj, Items, nil, cons, Fields, end, field}
use guardmcp.Guard.{
  names_collection, found_name, extract_pipeline_collections, collections_of_fields,
  collections_of_items, head_field, check_str, hits, hits_of_fields, hits_of_items,
  find_masked_field_references,
}
use guardmcp.Guard.Keys.{
  NamesCollection, RefersTo, FieldsReferTo, ItemsReferTo, HasText, FieldsHaveText, ItemsHaveText,
}

names_collection_iff : (k : String) → (names_collection k ≡ true) ↔ NamesCollection k
unfolding elem
names_collection_iff k = ground (arith, eq_iff k "$unionWith", eq_iff "from" k, eq_iff "coll" k)

module _ (c : String) where
  found_name_sound :
      (k : String) (v : Value) (walked : List String)
      → (Member c walked → RefersTo c v)
      → Member c (found_name k v walked)
      → (NamesCollection k × (v ≡ str c)) ⊎ RefersTo c v
  found_name_sound k (str s) walked h m = elim (Bool-cases (names_collection k)) [
    | inl e ↦ elim (rw e at m) [
      | inl same ↦ inl ((names_collection_iff k).0 e, ap str same)
      | inr more ↦ absurd more
    ]
    | inr e ↦ inr (h (rw e at m))
  ]
  found_name_sound k _ walked h m = inr (h m)

  found_name_complete :
      (k : String) (v : Value) (walked : List String)
      → (RefersTo c v → Member c walked)
      → (NamesCollection k × (v ≡ str c)) ⊎ RefersTo c v
      → Member c (found_name k v walked)
  unfolding RefersTo
  found_name_complete k (str s) walked h o = elim o [
    | inl here ↦ rw ((names_collection_iff k).1 here.0) (inl (ground arith))
    | inr below ↦ absurd below
  ]
  found_name_complete k _ walked h o = elim o [ inl here ↦ cc (here.1) | inr below ↦ h below ]

  mutual
    unfolding extract_pipeline_collections RefersTo

    extract_sound : (v : Value) → Member c (extract_pipeline_collections v) → RefersTo c v
    extract_sound (obj fs) m = fields_sound fs m
    extract_sound (arr xs) m = items_sound xs m
    extract_sound _ m = absurd m

    fields_sound : (fs : Fields) → Member c (collections_of_fields fs) → FieldsReferTo c fs
    fields_sound end m = absurd m
    fields_sound (field k v fs) m =
        elim (Member-append c (found_name k v (extract_pipeline_collections v)) _ m) [
          | inl here ↦ elim (found_name_sound k v _ (extract_sound v) here) [
            | inl named ↦ inl named
            | inr below ↦ inr (inl below)
          ]
          | inr later ↦ inr (inr (fields_sound fs later))
        ]

    items_sound : (xs : Items) → Member c (collections_of_items xs) → ItemsReferTo c xs
    items_sound nil m = absurd m
    items_sound (cons x xs) m = elim (Member-append c (extract_pipeline_collections x) _ m) [
      | inl here ↦ inl (extract_sound x here)
      | inr later ↦ inr (items_sound xs later)
    ]

  mutual
    unfolding extract_pipeline_collections RefersTo

    extract_complete : (v : Value) → RefersTo c v → Member c (extract_pipeline_collections v)
    extract_complete (obj fs) o = fields_complete fs o
    extract_complete (arr xs) o = items_complete xs o
    extract_complete _ o = absurd o

    fields_complete : (fs : Fields) → FieldsReferTo c fs → Member c (collections_of_fields fs)
    fields_complete end o = absurd o
    fields_complete (field k v fs) o =
        append-Member c (found_name k v (extract_pipeline_collections v)) _ (elim o [
          | inl named ↦ inl (found_name_complete k v _ (extract_complete v) (inl named))
          | inr (inl below) ↦ inl (found_name_complete k v _ (extract_complete v) (inr below))
          | inr (inr later) ↦ inr (fields_complete fs later)
        ])

    items_complete : (xs : Items) → ItemsReferTo c xs → Member c (collections_of_items xs)
    items_complete nil o = absurd o
    items_complete (cons x xs) o = append-Member c (extract_pipeline_collections x) _ (elim o [
      | inl here ↦ inl (extract_complete x here)
      | inr later ↦ inr (items_complete xs later)
    ])

-- A collection is extracted from a pipeline exactly when the pipeline names it: as a text under
-- `$unionWith`, `from` or `coll`, at any depth of stages and sub-pipelines.
pub extract_pipeline_collections_iff :
    (c : String) (pipeline : Value)
    → Member c (extract_pipeline_collections pipeline) ↔ RefersTo c pipeline
extract_pipeline_collections_iff c pipeline =
    (extract_sound c pipeline, extract_complete c pipeline)

-- A text of the value is a field path whose first name is `f`.
abbrev pub HasPath : String → Value → Type 0
HasPath f v = (s : String) × HasText s v × (starts_with_char b'$' s ≡ true) × (head_field s ≡ f)

module _ (masked : List String) (f : String) where
  check_str_sound :
      (s : String)
      → Member f (check_str masked s)
      → (starts_with_char b'$' s ≡ true) × (head_field s ≡ f) × Member f masked
  unfolding check_str
  check_str_sound s m = elim (Bool-cases (starts_with_char b'$' s)) [
    | inl dollar ↦ elim (Bool-cases (elem (head_field s) masked)) [
      | inl e ↦ elim (rw (dollar, e) at m) [
        | inl same ↦ (dollar, same, rw same at (elem-Member (head_field s) masked e))
        | inr more ↦ absurd more
      ]
      | inr e ↦ absurd (rw (dollar, e) at m)
    ]
    | inr plain ↦ absurd (rw plain at m)
  ]

  check_str_complete :
      (s : String)
      → starts_with_char b'$' s ≡ true
      → head_field s ≡ f
      → Member f masked
      → Member f (check_str masked s)
  unfolding check_str
  check_str_complete s dollar same m = rw (dollar, same, Member-elem f masked m) (inl refl)

  mutual
    unfolding hits HasText

    hits_sound : (v : Value) → Member f (hits masked v) → HasPath f v × Member f masked
    hits_sound (str s) m = let (d, e, k) = check_str_sound s m in ((s, refl, d, e), k)
    hits_sound (obj fs) m = fields_hits_sound fs m
    hits_sound (arr xs) m = items_hits_sound xs m
    hits_sound _ m = absurd m

    fields_hits_sound :
        (fs : Fields) → Member f (hits_of_fields masked fs) → HasPath f (obj fs) × Member f masked
    fields_hits_sound end m = absurd m
    fields_hits_sound (field k v fs) m = elim (Member-append f (hits masked v) _ m) [
      | inl here ↦ let ((s, o, d, e), k) = hits_sound v here in ((s, inl o, d, e), k)
      | inr later ↦ let ((s, o, d, e), k) = fields_hits_sound fs later in ((s, inr o, d, e), k)
    ]

    items_hits_sound :
        (xs : Items) → Member f (hits_of_items masked xs) → HasPath f (arr xs) × Member f masked
    items_hits_sound nil m = absurd m
    items_hits_sound (cons x xs) m = elim (Member-append f (hits masked x) _ m) [
      | inl here ↦ let ((s, o, d, e), k) = hits_sound x here in ((s, inl o, d, e), k)
      | inr later ↦ let ((s, o, d, e), k) = items_hits_sound xs later in ((s, inr o, d, e), k)
    ]

  module _ (s : String) (dollar : starts_with_char b'$' s ≡ true) (same : head_field s ≡ f)
      (listed : Member f masked) where
    mutual
      unfolding hits HasText

      hits_complete : (v : Value) → HasText s v → Member f (hits masked v)
      hits_complete (str t) o = check_str_complete t (rw o dollar) (rw o same) listed
      hits_complete (obj fs) o = fields_hits_complete fs o
      hits_complete (arr xs) o = items_hits_complete xs o
      hits_complete _ o = absurd o

      fields_hits_complete :
          (fs : Fields) → FieldsHaveText s fs → Member f (hits_of_fields masked fs)
      fields_hits_complete end o = absurd o
      fields_hits_complete (field k v fs) o = append-Member f (hits masked v) _ (elim o [
        | inl here ↦ inl (hits_complete v here)
        | inr later ↦ inr (fields_hits_complete fs later)
      ])

      items_hits_complete : (xs : Items) → ItemsHaveText s xs → Member f (hits_of_items masked xs)
      items_hits_complete nil o = absurd o
      items_hits_complete (cons x xs) o = append-Member f (hits masked x) _ (elim o [
        | inl here ↦ inl (hits_complete x here)
        | inr later ↦ inr (items_hits_complete xs later)
      ])

-- A masked field is reported exactly when it is on the list and the pipeline has, as a value at some
-- depth, a text that begins with a dollar and whose first name, up to the first dot, is the field. So
-- an entry with a dot is never reported.
pub find_masked_field_references_iff :
    (f : String) (pipeline : Value) (masked : List String)
    → Member f (find_masked_field_references pipeline masked)
      ↔ (HasPath f pipeline × Member f masked)
unfolding find_masked_field_references
find_masked_field_references_iff f pipeline [] = ((λ m. absurd m), (λ h. absurd h.1))
find_masked_field_references_iff f pipeline (x ∷ xs) = (
  hits_sound (x ∷ xs) f pipeline,
  (λ h. let ((s, o, d, e), k) = h in hits_complete (x ∷ xs) f s d e k pipeline o),
)
