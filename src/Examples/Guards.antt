-- ===== src/Examples/Guards.antt =====
-- Filters and pipelines that the MongoDB guard passes and refuses.
use guardmcp.Prelude.{
  ℕ, String, ◌≡◌, ◌⊎◌, refl, inl, inr, Bool, true, false, Option, none, some, List, [], ◌∷◌, Member,
}
use guardmcp.Json.{Value, str, natural, arr, obj, Items, nil, cons, Fields, end, field}
use guardmcp.Guard.{
  extract_pipeline_collections, find_masked_field_references, validate_filter,
  validate_pipeline_stages, validate_db_pipeline_stages, has_dangerous_operators, allowed_stages,
}
use guardmcp.Guard.Keys.{RefersTo}
use guardmcp.Guard.Dangerous.{IsDangerous}
use guardmcp.Guard.Operators.{validate_filter_iff, AllStages, validate_pipeline_stages_iff}
use guardmcp.Guard.References.{
  HasPath, extract_pipeline_collections_iff, find_masked_field_references_iff,
}
use guardmcp.Examples.{lookup_orders}

-- `{"$or": [{"$where": "1"}]}`
abbrev scripted : Value
scripted = obj (field "$or" (arr (cons (obj (field "$where" (str "1") end)) nil)) end)

validate_filter_example :
    ((fs : Fields) × (obj (field "age" (natural 7) end) ≡ obj fs))
    × (¬ IsDangerous (obj (field "age" (natural 7) end)))
unfolding validate_filter has_dangerous_operators guardmcp.Prelude.elem
validate_filter_example = (validate_filter_iff (obj (field "age" (natural 7) end))).0 refl

abbrev stages : Items
stages = cons (obj (field "$match" (obj end) end)) nil

validate_pipeline_stages_example : AllStages (λ op. Member op allowed_stages) stages
unfolding validate_pipeline_stages guardmcp.Guard.check_stages guardmcp.Guard.check_stage
    guardmcp.Prelude.elem has_dangerous_operators
validate_pipeline_stages_example = (validate_pipeline_stages_iff stages).0 refl

extract_pipeline_collections_example : RefersTo "orders" lookup_orders
unfolding extract_pipeline_collections guardmcp.Prelude.elem
extract_pipeline_collections_example =
    (extract_pipeline_collections_iff "orders" lookup_orders).0 (inl refl)

-- `[{"$group": {"_id": "$email"}}]`
abbrev group_emails : Value
group_emails = arr (cons (obj (field "$group" (obj (field "_id" (str "$email") end)) end)) nil)

find_masked_field_references_example :
    HasPath "email" group_emails × Member {A = String} "email" ("email" ∷ [])
unfolding find_masked_field_references guardmcp.Guard.check_str guardmcp.Prelude.elem
    guardmcp.Guard.head_field guardmcp.Prelude.before guardmcp.Prelude.lstrip
find_masked_field_references_example =
    (find_masked_field_references_iff "email" group_emails ("email" ∷ [])).0 (inl refl)
