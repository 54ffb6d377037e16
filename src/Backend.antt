-- ===== src/Backend.antt =====
-- core/interfaces/backend.py: what the pipeline asks of a backend and of a plugin, as parameters, and
-- the introspection that the MongoDB executor answers with (plugins/mongodb/executor.py).
use guardmcp.Prelude.{String, Option, none, some, List, if◌then◌else◌}
use guardmcp.Json.{Value, arr, nil, Fields, get, is_truthy}
use guardmcp.Domain.{Action}
use guardmcp.Cost.{CostEstimate}
use guardmcp.Capability.{Capability}
use guardmcp.Guard.{extract_pipeline_collections, find_masked_field_references}

-- How `execute` ends: it returns, or raises `TypeMarshalError`, or any other exception.
pub data Execution : Type 0 where
  returned : Value → Execution
  type_marshal_error failed : (text : String) → Execution

-- The optional methods are those that the pipeline looks up by `getattr`.
pub record Backend : Type 0 where
  pub execute :
      (collection : String) → Action → (params : Fields) → (database : Option String) → Execution
  pub referenced_collections : Option (Fields → List String)
  pub masked_field_references : Option (Fields → List String → List String)
  pub sanitize_error : Option (String → String)
  pub list_collections : Option String → List String

-- `estimate`, with the fields of its request that the pipeline fills; `none` where it raises.
pub record Plugin : Type 0 where
  pub estimate :
      Capability → (resource : String) → (filter pipeline : Option Value) → Option CostEstimate

abbrev or_empty : Option Value → Value
or_empty none = arr nil
or_empty (some v) = if is_truthy v then v else arr nil

-- `MongoExecutor.referenced_collections`
unfoldable pub referenced_collections : Fields → List String
referenced_collections params = extract_pipeline_collections (or_empty (get "pipeline" params))

-- `MongoExecutor.masked_field_references`
unfoldable pub masked_field_references : Fields → List String → List String
masked_field_references params mask_fields =
    find_masked_field_references (or_empty (get "pipeline" params)) mask_fields
