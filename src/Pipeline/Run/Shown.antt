-- ===== src/Pipeline/Run/Shown.antt =====
-- What a response shows of a raw result (core/pipeline.py, `_build_success`).
use guardmcp.Prelude.{
  String, ◌≡◌, ◌⊎◌, refl, inl, inr, true, false, Option, none, some, List, elem, ◌===◌, Bool-cases,
  eq_self, arith,
}
use guardmcp.Json.{Value, obj, Fields, end, field, get, put}
use guardmcp.Domain.{Action, is_no_mask}
use guardmcp.Policy.{Policy, scope_for}
use guardmcp.Masking.{Rules, transform_result}
use guardmcp.Masking.Occurrence.{OccursIn}
use guardmcp.Masking.Redaction.{Written, mask_result-Written, transform_result-Written}
use guardmcp.Pipeline.Execute.{rules_for}
use guardmcp.Pipeline.Run.{is_explain, transform_raw, masked_data}

get-put : (k : String) (v : Value) (fs : Fields) → get k (put k v fs) ≡ some v
unfolding get put
get-put k v end = rw eq_self refl
get-put k v (field j w fs) = elim (Bool-cases (j === k)) [
  | inl same ↦ rw same (rw same refl)
  | inr other ↦ rw other (rw other (get-put k v fs))
]

-- The documents that a backend puts in a result: those under `documents`, else the result itself.
abbrev pub HasNoDocuments : Value → Type 0
HasNoDocuments (obj raw) = get "documents" raw ≡ none
HasNoDocuments raw = Unit

not_explain : (action : Action) → is_no_mask action ≡ false → is_explain action ≡ false
unfolding is_no_mask
not_explain action h = ground arith

raw_step :
    (rules : Rules) (allow : List String) (k : String) (v : Value)
    → elem k rules.bare ≡ true
    → (raw : Value) → HasNoDocuments raw
    → OccursIn k v (transform_raw (transform_result rules allow) raw)
    → Written k v
raw_step rules allow k v bare (obj raw) h o =
    transform_result-Written rules allow (obj raw) k v bare (rw h at o)
raw_step rules allow k v bare raw h o = transform_result-Written rules allow raw k v bare o

-- A response to an action whose results are masked, or to an explain, shows no value under a bare
-- masked name, at any depth of objects and lists of objects, but the mask and the mark of a subtree
-- that is too deep. The result is an explain's, or has no key `documents`.
pub masked_data-Written :
    (raw : Value) (action : Action) (policy : Policy) (collection : String)
    (database : Option String) (k : String) (v : Value)
    → elem k (rules_for policy collection database).bare ≡ true
    → (is_explain action ≡ true) ⊎ ((is_no_mask action ≡ false) × HasNoDocuments raw)
    → OccursIn k v (masked_data raw action policy collection database)
    → Written k v
unfolding masked_data
masked_data-Written raw action policy collection database k v bare masks o =
    let rules = rules_for policy collection database in
    elim masks [
      | inl e ↦ mask_result-Written rules raw k v bare (rw e at o)
      | inr (m, h) ↦
          raw_step rules (scope_for policy database).fields_allow k v bare raw h
            (rw (not_explain action m, m) at o)
    ]

-- The response has a key `documents`, and what stands under it shows no value at this name but those
-- that the masking writes.
abbrev pub MaskedDocuments :
    Fields → Action → Policy → String → Option String → String → Value → Type 0
MaskedDocuments raw action policy collection database k v =
    (shown : Fields) × (documents : Value) × (masked_data (obj raw) action policy collection
        database
      ≡ obj shown)
    × (get "documents" shown ≡ some documents)
    × (OccursIn k v documents → Written k v)

-- Where the result of an action whose results are masked has a key `documents`, the response has one,
-- and what stands under it shows no value under a bare masked name, at any depth of objects and lists
-- of objects, but the mask and the mark of a subtree that is too deep.
pub masked_data-documents :
    (raw : Fields) (documents : Value) (action : Action) (policy : Policy) (collection : String)
    (database : Option String) (k : String) (v : Value)
    → elem k (rules_for policy collection database).bare ≡ true
    → is_no_mask action ≡ false
    → get "documents" raw ≡ some documents
    → MaskedDocuments raw action policy collection database k v
unfolding masked_data
masked_data-documents raw documents action policy collection database k v bare masks has =
    let rules = rules_for policy collection database in
    let shown = transform_result rules (scope_for policy database).fields_allow documents in
    (
      put "documents" shown raw,
      shown,
      rw (not_explain action masks, masks, has) refl,
      get-put "documents" shown raw,
      (λ o.
          transform_result-Written rules (scope_for policy database).fields_allow documents k v bare
            o),
    )
